-- ===== src/Node/Tasks.antt =====
-- crates/node/src/node.rs: one round of each periodic task.
pub mod Stale
use swarm_mesh.Prelude.{
  ℕ, ◌+◌, ◌-◌, ◌%◌, ◌^◌, Bool, List, [], ◌∷◌, Option, none, some, Result, ltb, if◌then◌else◌,
  nat_key, filter_map,
}
use swarm_mesh.HashMap.{Map, remove}
use swarm_mesh.Mesh.Message.{NodeId, Message, hello, Failure}
use swarm_mesh.Mesh.Peer.{SocketAddr, PeerInfo}
use swarm_mesh.Node.World.{
  Env, Lock, peer_lock, session_lock, World, Outcome, M, pure, gets, modify, with_lock, ◌>>=◌, ◌>>◌,
  set_peer_db, set_session_db,
}
use swarm_mesh.Node.Send.{send_multicast_message, get_neighbor_addresses}
use swarm_mesh.Node.LinkState.{broadcast_lsa}
use swarm_mesh.Node.Ping.{from_secs, clean_stale_pings, send_ping}

abbrev pub if_stale : ℕ → NodeId × PeerInfo → Option NodeId
if_stale now (id, info) = if ltb (from_secs 60) (now - info.last_seen) then some id else none

unfoldable pub stale_peers : ℕ → Map NodeId PeerInfo → List NodeId
stale_peers now peers = filter_map (if_stale now) peers

module _ {V : Type 0} where
  unfoldable pub remove_each : List NodeId → Map NodeId V → Map NodeId V
  remove_each [] m = m
  remove_each (id ∷ ids) m = remove_each ids (remove id m)

module _ {P F Hs Ts : Type 0} (env : Env P F Hs Ts) where
  -- One round of `broadcast`.
  unfoldable pub broadcast : SocketAddr → M Hs Ts (Unit {0})
  broadcast addr w =
      (send_multicast_message env (hello (record { node_id = w.id; unicast_port = w.unicast_port }))
            addr
          >> pure tt)
        w

  unfoldable pub ping_each : ℕ → List (NodeId × ℕ × SocketAddr) → M Hs Ts (Unit {0})
  ping_each sequence [] = pure tt
  ping_each sequence ((id, port, addr) ∷ rest) = do
    send_ping env id port sequence addr
    ping_each sequence rest

  -- One round of `ping_peers`. It selects the peers as `get_neighbor_addresses` does.
  unfoldable pub ping_peers : M Hs Ts (Unit {0})
  ping_peers = do
    modify (λ w. record w { ping_sequence = (w.ping_sequence + 1) % 2 ^ 64 })
    clean_stale_pings
    peers ← get_neighbor_addresses
    sequence ← gets (λ w. w.ping_sequence)
    ping_each sequence peers

  -- The second half of `remove_stale_peers`; both guards live to the end of the function.
  unfoldable pub remove_peers : List NodeId → M Hs Ts (Unit {0})
  remove_peers ids = with_lock peer_lock (
      with_lock session_lock do
        modify (λ w. set_peer_db (remove_each ids w.peer_db) w)
        modify (λ w. set_session_db (remove_each ids w.session_db) w)
        broadcast_lsa env)

  unfoldable pub remove_if_any : List NodeId → M Hs Ts (Unit {0})
  remove_if_any [] = pure tt
  remove_if_any (id ∷ ids) = remove_peers (id ∷ ids)

  -- One round of `monitor_peers`.
  unfoldable pub remove_stale_peers : M Hs Ts (Unit {0})
  remove_stale_peers = do
    stale ← with_lock peer_lock (gets (λ w. stale_peers w.now w.peer_db))
    remove_if_any stale
