-- ===== src/App/Beat.antt =====
-- The heartbeat of a node that apps/node/src/main.rs has started, at apps/mesh-registry/src/main.rs.
use swarm_mesh.Prelude.{
  ℕ, ◌^◌, ◌<◌, some, [], ◌∷◌, ◌++◌, ok, Text, literal, ◌≡◌, refl, subst, All, All-IsIn, IsIn, inl,
  inr, arith,
}
use swarm_mesh.Decimal.{to_string}
use swarm_mesh.Noise.{Snow}
use swarm_mesh.Registry.{NodeEntry, Registry, add, active_nodes}
use swarm_mesh.Registry.Purge.{IsHeap, add-IsHeap}
use swarm_mesh.Registry.Latest.{active_nodes_lem}
use swarm_mesh.Service.{
  status_ok, heartbeat_handler, target_of, prometheus_targets_handler, heartbeat,
}
use swarm_mesh.Service.Numbers.{parse_u32-to_string}
use swarm_mesh.Service.Register.{IsIn-map}
use swarm_mesh.Node.World.{Node}
use swarm_mesh.Mesh.Peer.{SocketAddr}
use swarm_mesh.App.{System, init_node, registration_of}
use swarm_mesh.App.Init.{init_node_lem}

-- The heartbeat that comes later than all entries is what Prometheus is told of its node.
newest_target :
    (now id port : ℕ) (ip : Text) (r : Registry)
    → IsHeap r
    → All (λ e. e.seen < now) r.nodes
    → IsIn
        (target_of (record { node = record { id = id; ip = ip; metrics_port = port }; seen = now }))
        (prometheus_targets_handler (add now (record { id = id; ip = ip; metrics_port = port }) r))
unfolding prometheus_targets_handler
newest_target now id port ip r h before =
    let entry : NodeEntry = record {
      node = record { id = id; ip = ip; metrics_port = port };
      seen = now;
    } in
    let grown = add now entry.node r in
    let (heap, found) = add-IsHeap now entry.node r h in
    let (f, i, same, late) = (active_nodes_lem grown).2 entry ((found entry).1 (inl refl)) in
    elim ((found f).0 ((active_nodes_lem grown).0 f i)) [
      | inl e ↦
          IsIn-map target_of entry (active_nodes grown)
            (subst (λ x. IsIn x (active_nodes grown)) e i)
      | inr j ↦ absurd (omega (arith, late, All-IsIn (λ e. e.seen < now) r.nodes before j))
    ]

heartbeat-accepted :
    (now id port : ℕ) (ip : Text) (r : Registry)
    → id < 2 ^ 32
    → heartbeat_handler now (heartbeat id ip port) r
      ≡ (ok status_ok, add now (record { id = id; ip = ip; metrics_port = port }) r)
unfolding heartbeat heartbeat_handler
heartbeat-accepted now id port ip r small =
    rw (parse_u32-to_string id small, heartbeat_handler) refl

module _ {P Hs Ts : Type 0} (snow : Snow P Hs Ts) (system : System P) where
  -- The heartbeat of a node that `init_node` made, with a `u32` as id, is accepted by a registry in
  -- heap order. If it comes later than all entries, the targets for Prometheus then have one with
  -- the address that other machines see and the port that the metrics are served on, which is
  -- the port of the unicast socket, with the id of the node as label.
  pub init_node-prometheus_targets_handler :
      (n : Node Hs Ts) (now : ℕ) (r : Registry)
      → init_node snow system ≡ ok n
      → system.random < 2 ^ 32
      → IsHeap r
      → All (λ e. e.seen < now) r.nodes
      → ((heartbeat_handler now (registration_of n) r).0 ≡ ok status_ok)
        × ((addr : SocketAddr) × (out : SocketAddr) × (system.unicast_local_addr ≡ some addr)
            × (system.outward_local_addr ≡ some out)
            × IsIn
                (record {
                  targets = (system.ip_to_string out.ip ++ literal ":" ++ to_string addr.port) ∷ [];
                  labels = record {
                    job = literal "mesh-node";
                    node_id = to_string system.random;
                    node_ip = system.ip_to_string out.ip;
                  };
                })
                (prometheus_targets_handler (heartbeat_handler now (registration_of n) r).1))
  unfolding target_of
  init_node-prometheus_targets_handler n now r made small h before =
      let (p, keys, addr, out, a, b, c₁, c₂, c₃, d, e, same) =
        (init_node_lem snow system n).0 made in
      let ip = system.ip_to_string out.ip in
      let run = heartbeat-accepted now system.random addr.port ip r small in
      let found = newest_target now system.random addr.port ip r h before in
      rw (same, run) (refl, (addr, out, d, e, found))
