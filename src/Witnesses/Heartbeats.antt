-- ===== src/Witnesses/Heartbeats.antt =====
-- A node whose heartbeat the server of mesh-registry has had.
use swarm_mesh.Prelude.{
  ℕ, List, [], ◌∷◌, some-injective, ◌≡◌, ◌∙◌, sym, refl, ap, inl, inr, IsIn, arith,
}
use swarm_mesh.Noise.{noise_params}
use swarm_mesh.Service.{NodeRegistration, PrometheusTarget}
use swarm_mesh.Service.Server.{post, Request, targets, Event, received, handle}
use swarm_mesh.Service.Server.Runs.{Registered}
use swarm_mesh.Service.Server.Targets.{final}
use swarm_mesh.App.{init_node, create_multicast_socket, perform, get_local_ip, registration_of}
use swarm_mesh.App.Heartbeats.{Client, heartbeat_task, target_for, heartbeat_task-handle}
use swarm_mesh.Witnesses.Toy.{toy_snow}
use swarm_mesh.Witnesses.Dashboards.{toy_system, fresh}
use swarm_mesh.Witnesses.Servers.{toy_axum, toy_axum-laws, toy_prometheus, targets_request}

abbrev toy_client : Client
toy_client = record {
  post_json = λ url g. record {
    method = post;
    path = url;
    content_type = g.id;
    body = g.metrics_port ∷ g.ip;
  };
}

abbrev beat : Request
beat = heartbeat_task toy_client [] fresh

abbrev events : List (Event ℕ ℕ)
events = received toy_prometheus 10 beat ∷ []

abbrev request_of : Event ℕ ℕ → Request
request_of (received p now q) = q
request_of _ = beat

own : (s : ℕ) (g : NodeRegistration) → Registered toy_axum events 5 s g → g ≡ registration_of fresh
unfolding heartbeat_task
own s g (p, q, inl e, (method, path, json, parsed)) =
    some-injective g (registration_of fresh) (sym json ∙ ap (λ d. toy_axum.json (request_of d)) e)
own s g (p, q, inr i, reg) = elim i [ ]

heartbeat_task-handle_example :
    (ts : List PrometheusTarget) × ((handle toy_axum toy_prometheus 30 targets_request
        (final toy_axum-laws [] events)).0
      ≡ targets ts)
    × IsIn (target_for fresh) ts
unfolding init_node create_multicast_socket perform get_local_ip noise_params
heartbeat_task-handle_example =
    heartbeat_task-handle toy_snow toy_system toy_client toy_axum-laws [] [] fresh toy_prometheus 0
      20 10 30 events targets_request refl (omega arith) (refl, refl, refl)
      (10, (omega arith, omega arith), omega arith) (inl refl) own (omega arith) refl refl
