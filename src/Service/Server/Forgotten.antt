-- ===== src/Service/Server/Forgotten.antt =====
-- Nodes that no longer register with the server of apps/mesh-registry/src/main.rs.
use swarm_mesh.Prelude.{
  ℕ, ◌+◌, ◌≤◌, ◌<◌, ◌^◌, List, ◌∷◌, ◌++◌, Text, literal, ◌≡◌, ◌≢◌, sym, ap, ◌∙◌, subst, inl, inr,
  IsIn, All, All-of_IsIn, arith,
}
use swarm_mesh.Decimal.{to_string}
use swarm_mesh.Registry.{NodeEntry, active_nodes}
use swarm_mesh.Registry.Latest.{active_nodes_lem}
use swarm_mesh.Service.{NodeRegistration, PrometheusTarget, target_of, prometheus_targets_handler}
use swarm_mesh.Service.Prometheus.{Prometheus}
use swarm_mesh.Service.Numbers.{parse_u32-small, to_string_injective}
use swarm_mesh.Service.Server.{
  get, Request, Axum, targets, App, new_app, Event, cleanup_due, handle, serve_event, run,
}
use swarm_mesh.Service.Server.Requests.{AxumLaws, handle-targets}
use swarm_mesh.Service.Server.Runs.{
  IsOnward, IsOnward-append, Registered, serve_event-Effect, cleanup_stale_nodes-alive,
}
use swarm_mesh.Service.Server.History.{run-append, run-keeps, run-source}
use swarm_mesh.Service.Server.Targets.{
  IsIn-map_source, new_app-IsHeap, new_app-ttl, final, final-source,
}

module _ {J F : Type 0} (axum : Axum) where
  -- What was registered of the id in these events was over at the instant `c`.
  abbrev pub IsOver : List (Event J F) → ℕ → ℕ → Type 0
  IsOver es id c = (s : ℕ) (g : NodeRegistration) → Registered axum es id s g → s + 60000000000 ≤ c

  -- The id is not registered in these events.
  abbrev pub IsSilent : List (Event J F) → ℕ → Type 0
  IsSilent es id = (s : ℕ) (g : NodeRegistration) → ¬ (Registered axum es id s g)

module _ {J F : Type 0} {axum : Axum} (laws : AxumLaws axum) (endpoint : Text) (t : ℕ)
    (ds bs : List (Event J F)) (clock : ℕ → ℕ) (u id : ℕ)
    (on : IsOnward t (ds ++ cleanup_due clock ∷ bs) u) (over : IsOver axum ds id (clock 0))
    (silent : IsSilent axum bs id) where
  abbrev last : App
  last = final laws endpoint (ds ++ cleanup_due clock ∷ bs)

  last-IsGone : (x : NodeEntry) → IsIn x last.registry.nodes → ¬ (x.node.id ≡ id)
  unfolding run serve_event
  last-IsGone x i same =
      let (v, before, (w, due, behind)) = IsOnward-append t ds (cleanup_due clock ∷ bs) u on in
      let app = final laws endpoint ds in
      let h = new_app-IsHeap endpoint in
      let (heap, ttl) = run-keeps laws t ds v (new_app endpoint) h before in
      let cleanup : Event J F = cleanup_due clock in
      let effect = serve_event-Effect laws cleanup app v w heap due in
      let next = serve_event axum cleanup app in
      let split : last ≡ run axum bs next =
        run-append axum ds (cleanup_due clock ∷ bs) (new_app endpoint) in
      elim (run-source laws w bs u next x effect.heap behind
        (subst (λ a. IsIn x a.registry.nodes) split i)) [
          | inl j ↦
              let (k, alive) = cleanup_stale_nodes-alive clock app.registry x heap due.1 j in
              let (g, reg, node) = final-source laws endpoint t ds v x before k in
              let gone = over x.seen g (subst (λ n. Registered axum ds n x.seen g) same reg) in
              omega (arith, alive, gone, ttl, new_app-ttl endpoint)
          | inr (g, reg, node, late) ↦
              silent x.seen g (subst (λ n. Registered axum bs n x.seen g) same reg)
        ]

  entry-small : (x : NodeEntry) → IsIn x last.registry.nodes → x.node.id < 2 ^ 32
  entry-small x i =
      let (g, (p, q, j, (method, path, k, parsed)), node) =
        final-source laws endpoint t (ds ++ cleanup_due clock ∷ bs) u x on i in
      parse_u32-small g.id x.node.id parsed

  -- In a run of the server of `main` from `t` to `u`, a round of the clean-up begins when all
  -- registrations of an id, which is a `u32`, are a minute old or older, and the id is not
  -- registered again. Then a GET for /prometheus/targets is answered with targets, none of which
  -- has the id as label.
  pub handle-forgotten :
      (p : Prometheus J F) (now : ℕ) (q : Request)
      → id < 2 ^ 32
      → q.method ≡ get
      → q.path ≡ literal "/prometheus/targets"
      → (ts : List PrometheusTarget) × ((handle axum p now q last).0 ≡ targets ts)
        × All (λ x. x.labels.node_id ≢ to_string id) ts
  unfolding prometheus_targets_handler target_of
  handle-forgotten p now q small method path = (
    prometheus_targets_handler last.registry,
    ap (λ o. o.0) (handle-targets laws p now q last method path),
    All-of_IsIn _ λ x i.
        let (f, j, same) = IsIn-map_source target_of x (active_nodes last.registry) i in
        let k = (active_nodes_lem last.registry).0 f j in
        λ label. last-IsGone f k (
          to_string_injective f.node.id id (entry-small f k) small
            (sym (ap (λ y. y.labels.node_id) same) ∙ label)),
  )
