-- ===== src/Witnesses/Servers.antt =====
-- A router and a client for the server of mesh-registry, and the properties of the server in a run of
-- three events.
use swarm_mesh.Prelude.{
  ℕ, ◌≤◌, Bool, true, false, ◌&&◌, List, [], ◌∷◌, ◌++◌, Option, none, some, Bytes, Text, literal,
  ◌≡◌, ◌≢◌, refl, sym, ap, ◌∙◌, ◌⊎◌, inl, inr, IsIn, All, Bool-cases, text_key, text_eqb,
  text_eqb_iff, ◌==◌, if◌then◌else◌, some-injective, arith,
}
use swarm_mesh.Decimal.{to_string, parse_u32}
use swarm_mesh.Service.{NodeRegistration, PrometheusTarget}
use swarm_mesh.Service.Prometheus.{Prometheus, unsent}
use swarm_mesh.Service.Server.{
  Method, get, head, post, Request, Handler, Route, routes, Axum, targets, App, Event, received,
  cleanup_due, handle,
}
use swarm_mesh.Service.Server.Requests.{AxumLaws, IsAnswered, handle-IsAnswered}
use swarm_mesh.Service.Server.Runs.{IsOnward, Registered}
use swarm_mesh.Service.Server.Targets.{final, target, IsOfNewest, handle-IsOfNewest, handle-alive}
use swarm_mesh.Service.Server.Forgotten.{IsOver, handle-forgotten}

abbrev takes : Method → Method → Bool
takes get get = true
takes head get = true
takes post post = true
takes _ _ = false

takes_lem : (m k : Method) → takes m k ≡ true → (m ≡ k) ⊎ ((m ≡ head) × (k ≡ get))
takes_lem m k e = ground arith

-- The first route with this path that takes the method.
unfoldable pub find : Text → Method → List Route → Option Handler
find path m [] = none
find path m (r ∷ rs) =
    let rest = find path m rs in if path == r.path && takes m r.method then some r.handler else rest

find-routes : (r : Route) → IsIn r routes → find r.path r.method routes ≡ some r.handler
unfolding find text_eqb text_key
find-routes r (inl e) = rw (e) refl
find-routes r (inr (inl e)) = rw (e) refl
find-routes r (inr (inr (inl e))) = rw (e) refl
find-routes r (inr (inr (inr (inl e)))) = rw (e) refl
find-routes r (inr (inr (inr (inr (inl e))))) = rw (e) refl
find-routes r (inr (inr (inr (inr (inr i))))) = elim i [ ]

find-source :
    (path : Text) (m : Method) (h : Handler) (rs : List Route)
    → find path m rs ≡ some h
    → (r : Route) × IsIn r rs
      × (r.handler ≡ h)
      × (path ≡ r.path)
      × ((m ≡ r.method) ⊎ ((m ≡ head) × (r.method ≡ get)))
unfolding find text_key
find-source path m h [] e = absurd cc
find-source path m h (r ∷ rs) e = elim (Bool-cases (path == r.path && takes m r.method)) [
  | inl hit ↦ (
    r,
    inl refl,
    some-injective r.handler h (sym (rw (hit) refl) ∙ e),
    (text_eqb_iff path r.path).0 (ground arith),
    takes_lem m r.method (ground arith),
  )
  | inr miss ↦
      let (s, i, same, at, how) = find-source path m h rs (sym (rw (miss) refl) ∙ e) in
      (s, inr i, same, at, how)
]

-- The body is the port and the address; the id stands in the content type.
abbrev pub decode_body : Text → Bytes → Option NodeRegistration
decode_body id [] = none
decode_body id (port ∷ ip) = some (record { id = id; ip = ip; metrics_port = port })

abbrev pub toy_axum : Axum
toy_axum = record {
  route = λ rs q. find q.path q.method rs;
  json = λ q. decode_body q.content_type q.body;
}

pub toy_axum-laws : AxumLaws toy_axum
toy_axum-laws = record {
  route_lem = λ q r i path method.
      ap (λ p. find p q.method routes) path
      ∙ ap (λ m. find r.path m routes) method
      ∙ find-routes r i;
  route_source = λ q h e. find-source q.path q.method h routes e;
}

abbrev pub toy_prometheus : Prometheus ℕ ℕ
toy_prometheus = record {
  answer = λ url query. unsent;
  as_str = λ j. none;
  parse_f64 = λ t. none;
  zero = 0;
  is_positive = λ n. false;
}

abbrev heartbeat_of : Text → Request
heartbeat_of id = record {
  method = post;
  path = literal "/heartbeat";
  content_type = id;
  body = 80 ∷ literal "ip";
}

abbrev registration : Text → NodeRegistration
registration id = record { id = id; ip = literal "ip"; metrics_port = 80 }

abbrev pub targets_request : Request
targets_request = record {
  method = get;
  path = literal "/prometheus/targets";
  content_type = [];
  body = [];
}

-- A heartbeat of node 3, and a round of the clean-up.
abbrev events : List (Event ℕ ℕ)
events = received toy_prometheus 10 (heartbeat_of (literal "3")) ∷ cleanup_due (λ i. 20) ∷ []

events-IsOnward : IsOnward 0 events 30
events-IsOnward = (
  10,
  (omega arith, omega arith),
  (20, (omega arith, λ i. omega arith, λ i. omega arith), omega arith),
)

abbrev app : App
app = final toy_axum-laws [] events

handle-IsAnswered_example :
    IsAnswered toy_axum-laws toy_prometheus 10
      (heartbeat_of (literal "-3"))
      app
      (handle toy_axum toy_prometheus 10 (heartbeat_of (literal "-3")) app)
handle-IsAnswered_example =
    handle-IsAnswered toy_axum-laws toy_prometheus 10 (heartbeat_of (literal "-3")) app refl
      (inr refl)

handle-IsOfNewest_example :
    (ts : List PrometheusTarget) × ((handle toy_axum toy_prometheus 30 targets_request app).0
      ≡ targets ts)
    × All (IsOfNewest toy_axum-laws [] events) ts
handle-IsOfNewest_example =
    handle-IsOfNewest toy_axum-laws [] toy_prometheus 0 30 events 30 targets_request events-IsOnward
      refl refl

events-Registered : Registered toy_axum events 3 10 (registration (literal "3"))
unfolding parse_u32
events-Registered =
    (toy_prometheus, heartbeat_of (literal "3"), inl refl, (refl, inr refl, refl, refl))

handle-alive_example :
    (ts : List PrometheusTarget) × (s : ℕ) × (g : NodeRegistration) × ((handle toy_axum
        toy_prometheus 30 targets_request app).0
      ≡ targets ts)
    × Registered toy_axum events 3 s g
    × (10 ≤ s)
    × IsIn (target 3 s g) ts
handle-alive_example =
    handle-alive toy_axum-laws [] toy_prometheus 0 30 events 30 targets_request 3 10
      (registration (literal "3")) events-IsOnward refl refl events-Registered (omega arith)

abbrev first_events : List (Event ℕ ℕ)
first_events = received toy_prometheus 10 (heartbeat_of (literal "3")) ∷ []

-- A round of the clean-up a minute later.
abbrev late : ℕ → ℕ
late i = 60000000020

abbrev time_of : Event ℕ ℕ → ℕ
time_of (received p now q) = now
time_of (cleanup_due clock) = clock 0

late-IsOnward : IsOnward 0 (first_events ++ cleanup_due late ∷ []) 60000000030
late-IsOnward = (
  10,
  (omega arith, omega arith),
  (60000000020, (omega arith, λ i. omega arith, λ i. omega arith), omega arith),
)

first_events-IsOver : IsOver toy_axum first_events 3 60000000020
first_events-IsOver s g (p, q, inl e, reg) = omega (arith, ap time_of e)
first_events-IsOver s g (p, q, inr i, reg) = elim i [ ]

handle-forgotten_example :
    (ts : List PrometheusTarget) × ((handle toy_axum toy_prometheus 60000000030 targets_request
        (final toy_axum-laws [] (first_events ++ cleanup_due late ∷ []))).0
      ≡ targets ts)
    × All (λ x. x.labels.node_id ≢ to_string 3) ts
handle-forgotten_example =
    handle-forgotten toy_axum-laws [] 0 first_events [] late 60000000030 3 late-IsOnward
      first_events-IsOver (λ s g (p, q, i, reg). elim i [ ]) toy_prometheus 60000000030
      targets_request (omega arith) refl refl
