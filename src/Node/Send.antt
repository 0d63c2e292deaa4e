-- ===== src/Node/Send.antt =====
-- crates/node/src/node.rs: sending, and the neighbours that messages go to.
use swarm_mesh.Prelude.{
  ℕ, List, [], ◌∷◌, Option, none, some, Result, ok, err, if◌then◌else◌, filter_map, nat_key,
}
use swarm_mesh.HashMap.{Map, get}
use swarm_mesh.Mesh.Message.{NodeId, Message, Failure, error_serializing, failed_to_send}
use swarm_mesh.Mesh.Peer.{SocketAddr, PeerInfo, PeerSession, is_transport}
use swarm_mesh.Node.World.{
  Socket, multicast_socket, unicast_socket, Packet, Delivery, delivered, io_error, elapsed, Env,
  peer_lock, session_lock, done, M, pure, gets, with_lock, ◌>>=◌, ◌>>◌,
}

-- Only the timeout is looked at: an error of `send_to` itself lies inside the `Ok`.
abbrev pub after_send : Delivery → Result Failure (Unit {0})
after_send elapsed = err failed_to_send
after_send delivered = ok tt
after_send io_error = ok tt

module _ {P F Hs Ts : Type 0} (env : Env P F Hs Ts) where
  unfoldable pub send_message : Message → SocketAddr → Socket → M Hs Ts (Result Failure (Unit {0}))
  send_message msg addr socket w = elim (env.serialize msg) [
    | none ↦ done (err error_serializing) w
    | some _ ↦
        let p : Packet = record { message = msg; dest = addr; socket = socket } in
        done (after_send (env.delivery w.sent p)) (record w { sent = p ∷ w.sent })
  ]

  unfoldable pub send_unicast_message :
      Message → ℕ → SocketAddr → M Hs Ts (Result Failure (Unit {0}))
  unfolding send_message
  send_unicast_message msg port addr = send_message msg (record addr { port = port }) unicast_socket

  unfoldable pub send_multicast_message : Message → SocketAddr → M Hs Ts (Result Failure (Unit {0}))
  unfolding send_message
  send_multicast_message msg addr = send_message msg addr multicast_socket

module _ {Hs Ts : Type 0} where
  -- A peer with a session in transport mode: its id, its unicast port and its address.
  unfoldable pub neighbor :
      Map NodeId (PeerSession Hs Ts) → NodeId × PeerInfo → Option (NodeId × ℕ × SocketAddr)
  neighbor sessions (id, info) = elim (get id sessions) [
    | none ↦ none
    | some s ↦ if is_transport s.noise then some (id, info.port, info.addr) else none
  ]

  unfoldable pub neighbor_addresses :
      Map NodeId PeerInfo → Map NodeId (PeerSession Hs Ts) → List (NodeId × ℕ × SocketAddr)
  unfolding neighbor
  neighbor_addresses peers sessions = filter_map (neighbor sessions) peers

  unfoldable pub get_neighbor_addresses : M Hs Ts (List (NodeId × ℕ × SocketAddr))
  unfolding neighbor_addresses
  get_neighbor_addresses =
      with_lock peer_lock
        (with_lock session_lock (gets (λ w. neighbor_addresses w.peer_db w.session_db)))

module _ {P F Hs Ts : Type 0} (env : Env P F Hs Ts) where
  -- The loop of `send_to_all_neighbors`: an error is logged, and the loop goes on.
  unfoldable pub send_each : Message → List (NodeId × ℕ × SocketAddr) → M Hs Ts (Unit {0})
  send_each msg [] = pure tt
  send_each msg ((id, port, addr) ∷ rest) = do
    send_unicast_message env msg port addr
    send_each msg rest

  unfoldable pub send_to_all_neighbors : Message → M Hs Ts (Unit {0})
  send_to_all_neighbors msg = do neighbors ← get_neighbor_addresses; send_each msg neighbors
