-- ===== src/Service/Server/Targets.antt =====
-- The targets that Prometheus gets from the server of apps/mesh-registry/src/main.rs: which nodes they
-- are, and of which registrations.
use swarm_mesh.Prelude.{
  ℕ, ◌+◌, ◌≤◌, ◌<◌, List, [], ◌∷◌, Text, literal, ◌≡◌, refl, sym, ap, ◌∙◌, subst, ◌⊎◌, inl, inr,
  IsIn, All, All-of_IsIn, map, arith,
}
use swarm_mesh.Registry.{NodeEntry, new, active_nodes}
use swarm_mesh.Registry.Purge.{IsHeap, new-IsHeap}
use swarm_mesh.Registry.Latest.{active_nodes_lem}
use swarm_mesh.Service.{NodeRegistration, PrometheusTarget, target_of, prometheus_targets_handler}
use swarm_mesh.Service.Prometheus.{Prometheus}
use swarm_mesh.Service.Register.{node_of, IsIn-map}
use swarm_mesh.Service.Server.{get, Request, Axum, targets, App, new_app, Event, handle, run}
use swarm_mesh.Service.Server.Requests.{AxumLaws, handle-targets}
use swarm_mesh.Service.Server.Runs.{IsOnward, IsOnward-append, Registered}
use swarm_mesh.Service.Server.History.{
  run-append, run-keeps, run-source, run-fate, run-alive, Registered-entry,
}

pub IsIn-map_source :
    {A B : Type 0} (f : A → B) (b : B) (xs : List A)
    → IsIn b (map f xs)
    → (a : A) × IsIn a xs × (b ≡ f a)
IsIn-map_source f b [] i = elim i [ ]
IsIn-map_source f b (x ∷ xs) (inl e) = (x, inl refl, e)
IsIn-map_source f b (x ∷ xs) (inr i) = let (a, j, e) = IsIn-map_source f b xs i in (a, inr j, e)

-- The target that a registration at an instant makes.
abbrev pub target : ℕ → ℕ → NodeRegistration → PrometheusTarget
target id s g = target_of (record { node = node_of id g; seen = s })

pub new_app-IsHeap : (endpoint : Text) → IsHeap (new_app endpoint).registry
unfolding new_app
new_app-IsHeap endpoint = new-IsHeap 60000000000

pub new_app-ttl : (endpoint : Text) → (new_app endpoint).registry.ttl ≡ 60000000000
unfolding new_app new
new_app-ttl endpoint = refl

new_app-nodes : (endpoint : Text) (x : NodeEntry) → ¬ (IsIn x (new_app endpoint).registry.nodes)
unfolding new_app new
new_app-nodes endpoint x i = elim i [ ]

module _ {J F : Type 0} {axum : Axum} (laws : AxumLaws axum) (endpoint : Text) where
  abbrev pub final : List (Event J F) → App
  final es = run axum es (new_app endpoint)

  -- Every entry stands for a registration.
  pub final-source :
      (t : ℕ) (es : List (Event J F)) (u : ℕ) (x : NodeEntry)
      → IsOnward t es u
      → IsIn x (final es).registry.nodes
      → (g : NodeRegistration) × Registered axum es x.node.id x.seen g
        × (x.node ≡ node_of x.node.id g)
  final-source t es u x on i =
      elim (run-source laws t es u (new_app endpoint) x (new_app-IsHeap endpoint) on i) [
        | inl j ↦ absurd (new_app-nodes endpoint x j)
        | inr (g, reg, node, late) ↦ (g, reg, node)
      ]

  -- The run from right after a registration on.
  final-since :
      (t : ℕ) (es : List (Event J F)) (u : ℕ) (id s : ℕ) (g : NodeRegistration)
      → IsOnward t es u
      → Registered axum es id s g
      → (app : App) × (bs : List (Event J F)) × (v : ℕ) × (final es ≡ run axum bs app)
        × IsHeap app.registry
        × (app.registry.ttl ≡ 60000000000)
        × IsOnward v bs u
        × IsIn (record { node = node_of id g; seen = s }) app.registry.nodes
  final-since t es u id s g on reg =
      let h = new_app-IsHeap endpoint in
      let (ds, bs, same, i) = Registered-entry laws t es u (new_app endpoint) id s g h on reg in
      let (v, before, behind) = IsOnward-append t ds bs u (subst (λ l. IsOnward t l u) same on) in
      let (heap, ttl) = run-keeps laws t ds v (new_app endpoint) h before in
      (
        final ds,
        bs,
        v,
        ap final same ∙ run-append axum ds bs (new_app endpoint),
        heap,
        ttl ∙ new_app-ttl endpoint,
        behind,
        i,
      )

  -- A registration has its entry, or there are only newer ones.
  final-fate :
      (t : ℕ) (es : List (Event J F)) (u : ℕ) (id s : ℕ) (g : NodeRegistration) (y : NodeEntry)
      → IsOnward t es u
      → Registered axum es id s g
      → IsIn y (final es).registry.nodes
      → IsIn (record { node = node_of id g; seen = s }) (final es).registry.nodes ⊎ (s ≤ y.seen)
  final-fate t es u id s g y on reg j =
      let e : NodeEntry = record { node = node_of id g; seen = s } in
      let (app, bs, v, same, heap, ttl, behind, i) = final-since t es u id s g on reg in
      subst (λ a. IsIn e a.registry.nodes ⊎ (s ≤ y.seen)) (sym same)
        (run-fate laws v bs u app e y heap behind i (subst (λ a. IsIn y a.registry.nodes) same j))

  -- A registration that is alive has its entry.
  final-alive :
      (t : ℕ) (es : List (Event J F)) (u : ℕ) (id s : ℕ) (g : NodeRegistration)
      → IsOnward t es u
      → Registered axum es id s g
      → u < s + 60000000000
      → IsIn (record { node = node_of id g; seen = s }) (final es).registry.nodes
  final-alive t es u id s g on reg lt =
      let e : NodeEntry = record { node = node_of id g; seen = s } in
      let (app, bs, v, same, heap, ttl, behind, i) = final-since t es u id s g on reg in
      subst (λ a. IsIn e a.registry.nodes) (sym same)
        (run-alive laws v bs u app e heap behind (subst (λ l. u < s + l) (sym ttl) lt) i)

  -- No registration of the id is later than this instant.
  abbrev pub IsNewest : List (Event J F) → ℕ → ℕ → Type 0
  IsNewest es id s = (t : ℕ) (g : NodeRegistration) → Registered axum es id t g → t ≤ s

  -- An entry that `nodes` returns is of a newest registration.
  active_nodes-IsNewest :
      (t : ℕ) (es : List (Event J F)) (u : ℕ) (f : NodeEntry)
      → IsOnward t es u
      → IsIn f (active_nodes (final es).registry)
      → (g : NodeRegistration) × Registered axum es f.node.id f.seen g
        × (f ≡ record { node = node_of f.node.id g; seen = f.seen })
        × IsNewest es f.node.id f.seen
  active_nodes-IsNewest t es u f on i =
      let (kept, unique, found) = active_nodes_lem (final es).registry in
      let (g, reg, node) = final-source t es u f on (kept f i) in
      (
        g,
        reg,
        ap (λ n. record { node = n; seen = f.seen }) node,
        λ s h r. elim (final-fate t es u f.node.id s h f on r (kept f i)) [
          | inl j ↦
              let (k, l, same, late) = found (record { node = node_of f.node.id h; seen = s }) j in
              let one : k ≡ f = unique k f l i same in omega (arith, late, ap (λ x. x.seen) one)
          | inr le ↦ le
        ],
      )

  -- The target is that of a newest registration of its id.
  abbrev pub IsOfNewest : List (Event J F) → PrometheusTarget → Type 0
  IsOfNewest es x =
      (id s : ℕ) × (g : NodeRegistration) × Registered axum es id s g
      × (x ≡ target id s g)
      × IsNewest es id s

  module _ (p : Prometheus J F) (t u : ℕ) (es : List (Event J F)) (now : ℕ) (q : Request) where
    -- The server of `main` has had the requests and rounds of the clean-up `es`, from `t` to `u`,
    -- and gets a GET for /prometheus/targets. It answers with targets, and each of them is that
    -- of a registration among `es`, at /register or /heartbeat, than which no registration of
    -- that id was later.
    pub handle-IsOfNewest :
        IsOnward t es u
        → q.method ≡ get
        → q.path ≡ literal "/prometheus/targets"
        → (ts : List PrometheusTarget) × ((handle axum p now q (final es)).0 ≡ targets ts)
          × All (IsOfNewest es) ts
    unfolding prometheus_targets_handler
    handle-IsOfNewest on method path = (
      prometheus_targets_handler (final es).registry,
      ap (λ o. o.0) (handle-targets laws p now q (final es) method path),
      All-of_IsIn _ λ x i.
          let (f, j, same) = IsIn-map_source target_of x (active_nodes (final es).registry) i in
          let (g, reg, entry, newest) = active_nodes-IsNewest t es u f on j in
          (f.node.id, f.seen, g, reg, same ∙ ap target_of entry, newest),
    )

    -- The same server, if an id was registered less than a minute before `u`: it answers with
    -- targets, one of which is that of a registration of the id that is as new or newer.
    pub handle-alive :
        (id s : ℕ) (g : NodeRegistration)
        → IsOnward t es u
        → q.method ≡ get
        → q.path ≡ literal "/prometheus/targets"
        → Registered axum es id s g
        → u < s + 60000000000
        → (ts : List PrometheusTarget) × (now_s : ℕ) × (now_g : NodeRegistration) × ((handle axum p
              now q
              (final es)).0
            ≡ targets ts)
          × Registered axum es id now_s now_g
          × (s ≤ now_s)
          × IsIn (target id now_s now_g) ts
    unfolding prometheus_targets_handler
    handle-alive id s g on method path reg lt =
        let e : NodeEntry = record { node = node_of id g; seen = s } in
        let i = final-alive t es u id s g on reg lt in
        let (f, j, same, late) = (active_nodes_lem (final es).registry).2 e i in
        let (h, last, entry, newest) = active_nodes-IsNewest t es u f on j in
        (
          prometheus_targets_handler (final es).registry,
          f.seen,
          h,
          ap (λ o. o.0) (handle-targets laws p now q (final es) method path),
          subst (λ n. Registered axum es n f.seen h) same last,
          late,
          subst (λ x. IsIn x (prometheus_targets_handler (final es).registry))
              (ap target_of entry ∙ ap (λ n. target n f.seen h) same)
              (IsIn-map target_of f (active_nodes (final es).registry) j),
        )
