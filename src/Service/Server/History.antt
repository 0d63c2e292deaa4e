-- ===== src/Service/Server/History.antt =====
-- Where the entries of the registry come from, and what becomes of them, in a run of the server of
-- apps/mesh-registry/src/main.rs.
use swarm_mesh.Prelude.{
  ℕ, ◌+◌, ◌≤◌, ◌<◌, List, [], ◌∷◌, ◌++◌, ◌≡◌, refl, sym, ap, ◌∙◌, subst, ◌⊎◌, inl, inr, IsIn, arith,
}
use swarm_mesh.Registry.{NodeEntry}
use swarm_mesh.Registry.Purge.{IsHeap}
use swarm_mesh.Service.{NodeRegistration}
use swarm_mesh.Service.Register.{node_of}
use swarm_mesh.Service.Server.{Axum, App, Event, serve_event, run}
use swarm_mesh.Service.Server.Requests.{AxumLaws}
use swarm_mesh.Service.Server.Runs.{
  IsDue, IsOnward, IsOnward-le, Registered, serve_event-Effect, serve_event-Registers,
}

module _ {J F : Type 0} (axum : Axum) where
  pub run-append :
      (ds bs : List (Event J F)) (app : App)
      → run axum (ds ++ bs) app ≡ run axum bs (run axum ds app)
  unfolding run
  run-append [] bs app = refl
  run-append (d ∷ ds) bs app = run-append ds bs (serve_event axum d app)

module _ {J F : Type 0} {axum : Axum} (laws : AxumLaws axum) where
  pub run-keeps :
      (t : ℕ) (es : List (Event J F)) (u : ℕ) (app : App)
      → IsHeap app.registry
      → IsOnward t es u
      → IsHeap (run axum es app).registry × ((run axum es app).registry.ttl ≡ app.registry.ttl)
  unfolding run
  run-keeps t [] u app h on = (h, refl)
  run-keeps t (e ∷ es) u app h (v, due, on) =
      let effect = serve_event-Effect laws e app t v h due in
      let (heap, same) = run-keeps v es u (serve_event axum e app) effect.heap on in
      (heap, same ∙ effect.ttl)

  -- An entry was there before, or it stands for a registration of the run.
  pub run-source :
      (t : ℕ) (es : List (Event J F)) (u : ℕ) (app : App) (x : NodeEntry)
      → IsHeap app.registry
      → IsOnward t es u
      → IsIn x (run axum es app).registry.nodes
      → IsIn x app.registry.nodes
        ⊎ ((g : NodeRegistration) × Registered axum es x.node.id x.seen g
            × (x.node ≡ node_of x.node.id g)
            × (t ≤ x.seen))
  unfolding run
  run-source t [] u app x h on i = inl i
  run-source t (e ∷ es) u app x h (v, due, on) i =
      let effect = serve_event-Effect laws e app t v h due in
      elim (run-source v es u (serve_event axum e app) x effect.heap on i) [
        | inl j ↦ elim (effect.source x j) [
          | inl k ↦ inl k
          | inr (p, q, g, same, reg, node) ↦
              inr (g, (p, q, inl (sym same), reg), node, (subst (λ d. IsDue t d v) same due).0)
        ]
        | inr (g, (p, q, j, reg), node, late) ↦ inr (
          g,
          (p, q, inr j, reg),
          node,
          omega (arith, late, IsOnward-le t (e ∷ []) v (v, due, omega arith)),
        )
      ]

  -- An entry goes only if those that are left are newer.
  pub run-fate :
      (t : ℕ) (es : List (Event J F)) (u : ℕ) (app : App) (x y : NodeEntry)
      → IsHeap app.registry
      → IsOnward t es u
      → IsIn x app.registry.nodes
      → IsIn y (run axum es app).registry.nodes
      → IsIn x (run axum es app).registry.nodes ⊎ (x.seen ≤ y.seen)
  unfolding run
  run-fate t [] u app x y h on i j = inl i
  run-fate t (e ∷ es) u app x y h (v, due, on) i j =
      let effect = serve_event-Effect laws e app t v h due in
      let next = serve_event axum e app in
      elim (effect.fate x i) [
        | inl k ↦ run-fate v es u next x y effect.heap on k j
        | inr (c, over, soon, alive) ↦ elim (run-source v es u next y effect.heap on j) [
          | inl k ↦ let before = alive y k in inr (omega (arith, over, before))
          | inr (g, reg, node, late) ↦ inr (omega (arith, over, soon, late))
        ]
      ]

  -- An entry whose time to live is not over stays.
  pub run-alive :
      (t : ℕ) (es : List (Event J F)) (u : ℕ) (app : App) (x : NodeEntry)
      → IsHeap app.registry
      → IsOnward t es u
      → u < x.seen + app.registry.ttl
      → IsIn x app.registry.nodes
      → IsIn x (run axum es app).registry.nodes
  unfolding run
  run-alive t [] u app x h on lt i = i
  run-alive t (e ∷ es) u app x h (v, due, on) lt i =
      let effect = serve_event-Effect laws e app t v h due in
      let next = serve_event axum e app in
      elim (effect.fate x i) [
        | inl k ↦
            run-alive v es u next x effect.heap on (subst (λ l. u < x.seen + l) (sym effect.ttl) lt)
              k
        | inr (c, over, soon, alive) ↦
            absurd (omega (arith, over, soon, lt, effect.ttl, IsOnward-le v es u on))
      ]

  -- Right after a registration its entry is there.
  pub Registered-entry :
      (t : ℕ) (es : List (Event J F)) (u : ℕ) (app : App) (id s : ℕ) (g : NodeRegistration)
      → IsHeap app.registry
      → IsOnward t es u
      → Registered axum es id s g
      → (ds : List (Event J F)) × (bs : List (Event J F)) × (es ≡ ds ++ bs)
        × IsIn (record { node = node_of id g; seen = s }) (run axum ds app).registry.nodes
  unfolding run
  Registered-entry t [] u app id s g h on (p, q, i, reg) = elim i [ ]
  Registered-entry t (e ∷ es) u app id s g h (v, due, on) (p, q, inl same, reg) = (
    e ∷ [],
    es,
    refl,
    subst
        (λ d.
          IsIn (record { node = node_of id g; seen = s }) (serve_event axum d app).registry.nodes)
        same (serve_event-Registers laws p s q app id g h reg),
  )
  Registered-entry t (e ∷ es) u app id s g h (v, due, on) (p, q, inr i, reg) =
      let effect = serve_event-Effect laws e app t v h due in
      let (ds, bs, same, k) =
        Registered-entry v es u (serve_event axum e app) id s g effect.heap on (p, q, i, reg) in
      (e ∷ ds, bs, ap (λ l. e ∷ l) same, k)
