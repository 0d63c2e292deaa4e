-- ===== src/App/Heartbeats.antt =====
-- `heartbeat_task` of apps/node/src/main.rs, and what it does at the server of
-- apps/mesh-registry/src/main.rs. The HTTP client is a parameter.
use swarm_mesh.Prelude.{
  ℕ, ◌+◌, ◌<◌, ◌^◌, List, [], ◌∷◌, ◌++◌, some, ok, Text, literal, ◌≡◌, sym, subst, inr, IsIn,
}
use swarm_mesh.Decimal.{to_string}
use swarm_mesh.Noise.{Snow}
use swarm_mesh.Node.World.{Node}
use swarm_mesh.Service.{NodeRegistration, PrometheusTarget, target_of, heartbeat}
use swarm_mesh.Service.Prometheus.{Prometheus}
use swarm_mesh.Service.Numbers.{parse_u32-to_string}
use swarm_mesh.Service.Register.{node_of}
use swarm_mesh.Service.Server.{post, get, Request, Axum, targets, Event, received, handle}
use swarm_mesh.Service.Server.Requests.{AxumLaws, Registers}
use swarm_mesh.Service.Server.Runs.{IsOnward, Registered}
use swarm_mesh.Service.Server.Targets.{final, handle-alive}
use swarm_mesh.App.{System, init_node, get_id, get_node_ip, get_port, registration_of}
use swarm_mesh.App.Init.{init_node_lem}

-- `client.post(&url).json(&registration)`: the request that the server of the URL gets.
pub record Client : Type 0 where
  pub post_json : Text → NodeRegistration → Request

module _ {Hs Ts : Type 0} where
  -- One round of `heartbeat_task`. What comes back is only logged.
  unfoldable pub heartbeat_task : Client → Text → Node Hs Ts → Request
  heartbeat_task client mesh_registry_endpoint n =
      client.post_json (mesh_registry_endpoint ++ literal "/heartbeat") (registration_of n)

-- The endpoint is that of the server, and the server reads from the body of a heartbeat with this
-- registration what the client wrote.
abbrev pub IsReached : Client → Axum → Text → NodeRegistration → Type 0
IsReached client axum endpoint g =
    let q = client.post_json (endpoint ++ literal "/heartbeat") g in
    (q.method ≡ post) × (q.path ≡ literal "/heartbeat") × (axum.json q ≡ some g)

module _ {Hs Ts : Type 0} where
  -- What Prometheus is to be told of the node.
  abbrev pub target_for : Node Hs Ts → PrometheusTarget
  target_for n = record {
    targets = (get_node_ip n ++ literal ":" ++ to_string (get_port n)) ∷ [];
    labels = record {
      job = literal "mesh-node";
      node_id = to_string (get_id n);
      node_ip = get_node_ip n;
    };
  }

  heartbeat_task-Registers :
      (client : Client) (axum : Axum) (endpoint : Text) (n : Node Hs Ts)
      → IsReached client axum endpoint (registration_of n)
      → get_id n < 2 ^ 32
      → Registers axum (heartbeat_task client endpoint n) (get_id n) (registration_of n)
  unfolding heartbeat_task heartbeat
  heartbeat_task-Registers client axum endpoint n reached small =
      let (method, path, json) = reached in
      (method, inr path, json, parse_u32-to_string (get_id n) small)

module _ {P Hs Ts J F : Type 0} (snow : Snow P Hs Ts) (system : System P) (client : Client)
    {axum : Axum} (laws : AxumLaws axum) (registry_endpoint prometheus_endpoint : Text) where
  -- A node that init_node made, with a `u32` as id, sends its heartbeats to the server, which gets
  -- one of them less than a minute before `u`, and no registration of that id from others. Then
  -- a GET for /prometheus/targets is answered with targets, one of which has the address that
  -- get_local_ip found and the port of the node, with its id as label.
  pub heartbeat_task-handle :
      (n : Node Hs Ts) (p : Prometheus J F) (t u s now : ℕ) (es : List (Event J F)) (q : Request)
      → init_node snow system ≡ ok n
      → system.random < 2 ^ 32
      → IsReached client axum registry_endpoint (registration_of n)
      → IsOnward t es u
      → IsIn (received p s (heartbeat_task client registry_endpoint n)) es
      → ((r : ℕ) (g : NodeRegistration) → Registered axum es (get_id n) r g → g ≡ registration_of n)
      → u < s + 60000000000
      → q.method ≡ get
      → q.path ≡ literal "/prometheus/targets"
      → (ts : List PrometheusTarget) × ((handle axum p now q (final laws prometheus_endpoint es)).0
          ≡ targets ts)
        × IsIn (target_for n) ts
  unfolding target_of heartbeat
  heartbeat_task-handle n p t u s now es q made small reached on got own lt method path =
      let (_, _, _, _, _, _, _, _, _, _, _, same) = (init_node_lem snow system n).0 made in
      let small_id : get_id n < 2 ^ 32 = subst (λ m. get_id m < 2 ^ 32) (sym same) small in
      let reg : Registered axum es (get_id n) s (registration_of n) = (
        p,
        heartbeat_task client registry_endpoint n,
        got,
        heartbeat_task-Registers client axum registry_endpoint n reached small_id,
      ) in
      let (ts, r, g, answer, last, late, i) =
        handle-alive laws prometheus_endpoint p t u es now q (get_id n) s (registration_of n) on
          method path reg lt in
      (
        ts,
        answer,
        subst (λ h. IsIn (target_of (record { node = node_of (get_id n) h; seen = r })) ts)
            (own r g last) i,
      )
