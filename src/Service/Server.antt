-- ===== src/Service/Server.antt =====
-- The server of apps/mesh-registry/src/main.rs: its routes, what it answers to a request, and the
-- task that cleans up, over the registry that they share. Each handler holds the lock of the
-- registry from its first line to its end, so handlers and rounds of the clean-up follow one
-- another. axum, with its extraction of JSON, is a parameter.
pub mod Requests
pub mod Runs
pub mod History
pub mod Targets
pub mod Forgotten
use swarm_mesh.Prelude.{ℕ, List, [], ◌∷◌, Option, none, some, Result, ok, err, Bytes, Text, literal}
use swarm_mesh.Registry.{Registry, new}
use swarm_mesh.Service.{
  NodeRegistration, StatusCode, status_ok, register_node_handler, heartbeat_handler,
  cleanup_stale_nodes, PrometheusTarget, prometheus_targets_handler,
}
use swarm_mesh.Service.Prometheus.{Prometheus, GraphData}
use swarm_mesh.Service.Graph.{graph_handler}

pub data Method : Type 0 where
  get head post other_method : Method

pub record Request : Type 0 where
  pub method : Method
  pub path : Text
  pub content_type : Text
  pub body : Bytes

pub data Handler : Type 0 where
  graph prometheus_targets register heartbeat health : Handler

pub record Route : Type 0 where
  pub path : Text
  pub method : Method
  pub handler : Handler

-- The routes of `serve`.
abbrev pub routes : List Route
routes =
    record { path = literal "/graph"; method = get; handler = graph }
    ∷ record { path = literal "/prometheus/targets"; method = get; handler = prometheus_targets }
    ∷ record { path = literal "/register"; method = post; handler = register }
    ∷ record { path = literal "/heartbeat"; method = post; handler = heartbeat }
    ∷ record { path = literal "/"; method = get; handler = health }
    ∷ []

-- The handler that a router takes for a request, and the extractor `Json`. `none` is an answer of
-- axum itself.
pub record Axum : Type 0 where
  pub route : List Route → Request → Option Handler
  pub json : Request → Option NodeRegistration

pub data Response (F : Type 0) : Type 0 where
  rejected : Response F
  status : StatusCode → Response F
  targets : List PrometheusTarget → Response F
  graph_data : GraphData F → Response F

-- The client for requests to Prometheus is a parameter of what uses it.
pub record App : Type 0 where
  pub prometheus_endpoint : Text
  pub registry : Registry

-- What `main` makes, with a time to live of a minute.
unfoldable pub new_app : Text → App
new_app endpoint = record { prometheus_endpoint = endpoint; registry = new 60000000000 }

abbrev pub set_registry : App → Registry → App
set_registry app r = record app { registry = r }

module _ {F : Type 0} where
  abbrev pub of_status : Result StatusCode StatusCode → Response F
  of_status (ok s) = status s
  of_status (err s) = status s

  abbrev pub of_graph : Result StatusCode (GraphData F) → Response F
  of_graph (ok g) = graph_data g
  of_graph (err s) = status s

  -- A handler that returns a status, with the registry that it leaves.
  abbrev pub answer : Result StatusCode StatusCode × Registry → App → Response F × App
  answer (s, r) app = (of_status s, set_registry app r)

  -- A handler behind the extractor `Json`.
  abbrev pub extract :
      Option NodeRegistration → (NodeRegistration → Response F × App) → App → Response F × App
  extract none k app = (rejected, app)
  extract (some registration) k app = k registration

unfoldable pub health_check : StatusCode
health_check = status_ok

module _ {J F : Type 0} (axum : Axum) where
  -- The handler of a route. The clock reads `now`, and Prometheus answers as `p` says.
  unfoldable pub call : Handler → Prometheus J F → ℕ → Request → App → Response F × App
  call graph p now q app = (of_graph (graph_handler p app.prometheus_endpoint), app)
  call prometheus_targets p now q app = (targets (prometheus_targets_handler app.registry), app)
  call register p now q app =
      extract (axum.json q) (λ g. answer (register_node_handler now g app.registry) app) app
  call heartbeat p now q app =
      extract (axum.json q) (λ g. answer (heartbeat_handler now g app.registry) app) app
  call health p now q app = (status health_check, app)

  -- What the router of `serve` does with a request.
  unfoldable pub handle : Prometheus J F → ℕ → Request → App → Response F × App
  unfolding call
  handle p now q app = elim (axum.route routes q) [
    | none ↦ (rejected, app)
    | some h ↦ call h p now q app
  ]

-- What happens next: a request comes, or the clean-up is due.
pub data Event (J F : Type 0) : Type 0 where
  received : Prometheus J F → ℕ → Request → Event J F
  cleanup_due : (ℕ → ℕ) → Event J F

module _ {J F : Type 0} (axum : Axum) where
  unfoldable pub serve_event : Event J F → App → App
  unfolding handle
  serve_event (received p now q) app = (handle axum p now q app).1
  serve_event (cleanup_due clock) app = set_registry app (cleanup_stale_nodes clock app.registry)

  -- The events of some time, the first one first.
  unfoldable pub run : List (Event J F) → App → App
  unfolding serve_event
  run [] app = app
  run (e ∷ es) app = run es (serve_event e app)
