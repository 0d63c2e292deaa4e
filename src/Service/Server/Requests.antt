-- ===== src/Service/Server/Requests.antt =====
-- What a request does at the server of apps/mesh-registry/src/main.rs.
use swarm_mesh.Prelude.{
  ℕ, none, some, literal, ◌≡◌, refl, sym, ap, ◌∙◌, subst, ◌⊎◌, inl, inr, some-injective, IsIn,
  Option-cases,
}
use swarm_mesh.Decimal.{parse_u32}
use swarm_mesh.Registry.{add}
use swarm_mesh.Service.{NodeRegistration, status_ok, bad_request, prometheus_targets_handler}
use swarm_mesh.Service.Prometheus.{Prometheus}
use swarm_mesh.Service.Register.{node_of, handler-accepted, handler-refused, same_handlers}
use swarm_mesh.Service.Server.{
  get, head, post, Request, Handler, register, heartbeat, Route, routes, Axum, Response, rejected,
  status, targets, App, set_registry, call, handle,
}

-- The documented behaviour of a router with these routes: a request is for the route with its path
-- and method, and a route for GET also takes HEAD.
pub record AxumLaws (axum : Axum) : Type 0 where
  pub route_lem :
      (q : Request) (r : Route)
      → IsIn r routes
      → q.path ≡ r.path
      → q.method ≡ r.method
      → axum.route routes q ≡ some r.handler
  pub route_source :
      (q : Request) (h : Handler)
      → axum.route routes q ≡ some h
      → (r : Route) × IsIn r routes
        × (r.handler ≡ h)
        × (q.path ≡ r.path)
        × ((q.method ≡ r.method) ⊎ ((q.method ≡ head) × (r.method ≡ get)))

-- The request registers the id, by either route, with what the body says.
abbrev pub Registers : Axum → Request → ℕ → NodeRegistration → Type 0
Registers axum q id g =
    (q.method ≡ post)
    × ((q.path ≡ literal "/register") ⊎ (q.path ≡ literal "/heartbeat"))
    × (axum.json q ≡ some g)
    × (parse_u32 g.id ≡ some id)

module _ {J F : Type 0} {axum : Axum} (laws : AxumLaws axum) (p : Prometheus J F) (now : ℕ) where
  handle-route :
      (q : Request) (app : App) (r : Route)
      → IsIn r routes
      → q.path ≡ r.path
      → q.method ≡ r.method
      → handle axum p now q app ≡ call axum r.handler p now q app
  unfolding handle
  handle-route q app r i path method = rw (laws.route_lem q r i path method, handle) refl

  call-register :
      (q : Request) (app : App) (g : NodeRegistration) (id : ℕ)
      → axum.json q ≡ some g
      → parse_u32 g.id ≡ some id
      → call axum register p now q app
        ≡ (status status_ok, set_registry app (add now (node_of id g) app.registry))
  unfolding call
  call-register q app g id j e = rw (j) (rw (handler-accepted now id g app.registry e) refl)

  call-same :
      (q : Request) (app : App) → call axum register p now q app ≡ call axum heartbeat p now q app
  unfolding call
  call-same q app = elim (Option-cases (axum.json q)) [
    | inl e ↦ rw (e) refl
    | inr (g, e) ↦ rw (e) (rw (same_handlers now g app.registry) refl)
  ]

  pub handle-Registers :
      (q : Request) (app : App) (id : ℕ) (g : NodeRegistration)
      → Registers axum q id g
      → handle axum p now q app
        ≡ (status status_ok, set_registry app (add now (node_of id g) app.registry))
  handle-Registers q app id g (method, inl path, j, e) =
      handle-route q app _ (inr (inr (inl refl))) path method ∙ call-register q app g id j e
  handle-Registers q app id g (method, inr path, j, e) =
      handle-route q app _ (inr (inr (inr (inl refl)))) path method
      ∙ sym (call-same q app)
      ∙ call-register q app g id j e

  pub handle-targets :
      (q : Request) (app : App)
      → q.method ≡ get
      → q.path ≡ literal "/prometheus/targets"
      → handle axum p now q app ≡ (targets (prometheus_targets_handler app.registry), app)
  unfolding call
  handle-targets q app method path = handle-route q app _ (inr (inl refl)) path method

  call-register-refused :
      (q : Request) (app : App) (g : NodeRegistration)
      → axum.json q ≡ some g
      → parse_u32 g.id ≡ none
      → call axum register p now q app ≡ (status bad_request, app)
  unfolding call
  call-register-refused q app g j e = rw (j) (rw (handler-refused now g app.registry e) refl)

  abbrev IsHarmless : Request → App → Response F × App → Type 0
  IsHarmless q app o = (o.1 ≡ app) ⊎ ((id : ℕ) × (g : NodeRegistration) × Registers axum q id g)

  call-register-IsHarmless :
      (q : Request) (app : App)
      → q.method ≡ post
      → (q.path ≡ literal "/register") ⊎ (q.path ≡ literal "/heartbeat")
      → IsHarmless q app (call axum register p now q app)
  unfolding call
  call-register-IsHarmless q app method path = elim (Option-cases (axum.json q)) [
    | inl e ↦ rw (e) (inl refl)
    | inr (g, j) ↦ elim (Option-cases (parse_u32 g.id)) [
      | inl e ↦ inl (ap (λ o. o.1) (call-register-refused q app g j e))
      | inr (id, e) ↦ inr (id, g, (method, path, j, e))
    ]
  ]

  call-IsHarmless :
      (q : Request) (app : App) (r : Route)
      → IsIn r routes
      → q.path ≡ r.path
      → (q.method ≡ r.method) ⊎ ((q.method ≡ head) × (r.method ≡ get))
      → IsHarmless q app (call axum r.handler p now q app)
  unfolding call
  call-IsHarmless q app r (inl e) path method = rw (e) (inl refl)
  call-IsHarmless q app r (inr (inl e)) path method = rw (e) (inl refl)
  call-IsHarmless q app r (inr (inr (inl e))) path (inl method) = rw (ap (λ x. x.handler) e) (
      call-register-IsHarmless q app (method ∙ ap (λ x. x.method) e)
        (inl (path ∙ ap (λ x. x.path) e)))
  call-IsHarmless q app r (inr (inr (inl e))) path (inr (method, bad)) =
      let wrong : get ≡ post = sym bad ∙ ap (λ x. x.method) e in absurd cc
  call-IsHarmless q app r (inr (inr (inr (inl e)))) path (inl method) =
      rw (ap (λ x. x.handler) e, ← call-same q app)
        (call-register-IsHarmless q app (method ∙ ap (λ x. x.method) e)
          (inr (path ∙ ap (λ x. x.path) e)))
  call-IsHarmless q app r (inr (inr (inr (inl e)))) path (inr (method, bad)) =
      let wrong : get ≡ post = sym bad ∙ ap (λ x. x.method) e in absurd cc
  call-IsHarmless q app r (inr (inr (inr (inr (inl e))))) path method = rw (e) (inl refl)
  call-IsHarmless q app r (inr (inr (inr (inr (inr i))))) path method = elim i [ ]

  pub handle-IsHarmless : (q : Request) (app : App) → IsHarmless q app (handle axum p now q app)
  unfolding handle
  handle-IsHarmless q app = elim (Option-cases (axum.route routes q)) [
    | inl e ↦ rw (e, handle) (inl refl)
    | inr (h, e) ↦
        let (r, i, same, path, method) = laws.route_source q h e in
        rw (e, handle)
          (subst (λ x. IsHarmless q app (call axum x p now q app)) same
            (call-IsHarmless q app r i path method))
  ]

  call-rejected :
      (q : Request) (app : App)
      → axum.json q ≡ none
      → call axum register p now q app ≡ (rejected, app)
  unfolding call
  call-rejected q app e = rw (e) refl

  -- What a registration is answered, and what it does.
  abbrev pub IsAnswered : Request → App → Response F × App → Type 0
  IsAnswered q app o =
      ((id : ℕ) × (g : NodeRegistration) × Registers axum q id g
        × (o ≡ (status status_ok, set_registry app (add now (node_of id g) app.registry))))
      ⊎ (((id : ℕ) (g : NodeRegistration) → ¬ (Registers axum q id g))
          × ((o ≡ (status bad_request, app)) ⊎ (o ≡ (rejected, app))))

  call-IsAnswered :
      (q : Request) (app : App)
      → q.method ≡ post
      → (q.path ≡ literal "/register") ⊎ (q.path ≡ literal "/heartbeat")
      → IsAnswered q app (call axum register p now q app)
  call-IsAnswered q app method path = elim (Option-cases (axum.json q)) [
    | inl e ↦ inr (
      λ id g (m, l, j, r). let bad : none ≡ some g = sym e ∙ j in absurd cc,
      inr (call-rejected q app e),
    )
    | inr (g, j) ↦ elim (Option-cases (parse_u32 g.id)) [
      | inl e ↦ inr (
        λ id h (m, l, k, r).
            let same : g ≡ h = some-injective g h (sym j ∙ k) in
            let bad : none ≡ some id = sym e ∙ ap (λ x. parse_u32 x.id) same ∙ r in absurd cc,
        inl (call-register-refused q app g j e),
      )
      | inr (id, e) ↦ inl (id, g, (method, path, j, e), call-register q app g id j e)
    ]
  ]

  -- A POST to /register or to /heartbeat, whatever its body: either the body has a `u32` as id, the
  -- answer is OK and the node is added with the address and the port of the body, or it has none,
  -- the answer is a bad request or that of axum, and nothing changes.
  pub handle-IsAnswered :
      (q : Request) (app : App)
      → q.method ≡ post
      → (q.path ≡ literal "/register") ⊎ (q.path ≡ literal "/heartbeat")
      → IsAnswered q app (handle axum p now q app)
  handle-IsAnswered q app method (inl path) =
      subst (IsAnswered q app) (sym (handle-route q app _ (inr (inr (inl refl))) path method))
        (call-IsAnswered q app method (inl path))
  handle-IsAnswered q app method (inr path) =
      subst (IsAnswered q app)
        (sym
          (handle-route q app _ (inr (inr (inr (inl refl)))) path method ∙ sym (call-same q app)))
        (call-IsAnswered q app method (inr path))
