-- ===== src/Node/LinkState.antt =====
-- crates/node/src/node.rs: link state advertisements.
pub mod Flood
pub mod Merge
pub mod Echo
pub mod Own
pub mod Converge
use swarm_mesh.Prelude.{
  ℕ, ◌+◌, ◌-◌, ◌%◌, ◌^◌, Bool, true, false, ◌&&◌, ◌||◌, List, [], ◌∷◌, Option, none, some, Result,
  ok, ltb, nat_eqb, ◌==◌, not, if◌then◌else◌, filter_map, nat_key,
}
use swarm_mesh.HashMap.{Map, get, insert, retain}
use swarm_mesh.Mesh.Message.{NodeId, Message, link_state, LinkStatePayload, Failure}
use swarm_mesh.Mesh.Peer.{SocketAddr, addr_key, PeerSession, is_transport}
use swarm_mesh.Node.World.{
  Env, Lock, session_lock, link_state_lock, lsa_sequence_lock, World, Outcome, done, M, pure, gets,
  modify, with_lock, ◌>>=◌, ◌>>◌, set_link_state_db,
}
use swarm_mesh.Node.Send.{get_neighbor_addresses, send_unicast_message, send_to_all_neighbors}

-- The freshness check of `handle_lsa`.
unfoldable pub is_newer : LinkStatePayload → Option LinkStatePayload → Bool
is_newer payload none = true
is_newer payload (some existing) =
    ltb existing.sequence payload.sequence
    || (nat_eqb payload.sequence existing.sequence && ltb existing.timestamp payload.timestamp)

abbrev pub is_fresh_lsa : ℕ → NodeId × LinkStatePayload → Bool
is_fresh_lsa now (id, lsa) = not (ltb 180 (now - lsa.timestamp))

module _ {Hs Ts : Type 0} where
  abbrev pub if_transport : NodeId × PeerSession Hs Ts → Option NodeId
  if_transport (id, s) = if is_transport s.noise then some id else none

  unfoldable pub established : Map NodeId (PeerSession Hs Ts) → List NodeId
  established sessions = filter_map if_transport sessions

  unfoldable pub get_established_neighbors : M Hs Ts (List NodeId)
  unfolding established
  get_established_neighbors = with_lock session_lock (gets (λ w. established w.session_db))

  -- `*sequence_guard += 1` on a `u64`, which wraps in a release build.
  abbrev pub bump_sequence : World Hs Ts → World Hs Ts
  bump_sequence w = record w {
    node = record w.node { lsa_sequence = (w.lsa_sequence + 1) % 2 ^ 64 };
  }

  unfoldable pub generate_lsa : M Hs Ts LinkStatePayload
  generate_lsa = do
    sequence ← with_lock lsa_sequence_lock (modify bump_sequence >> gets (λ w. w.lsa_sequence))
    neighbors ← get_established_neighbors
    id ← gets (λ w. w.id)
    timestamp ← gets (λ w. w.unix_now)
    pure
        (record { node_id = id; sequence = sequence; timestamp = timestamp; neighbors = neighbors })

  abbrev pub store_lsa : NodeId → LinkStatePayload → World Hs Ts → World Hs Ts
  store_lsa id lsa w = set_link_state_db (insert id lsa w.link_state_db) w

  -- The part of `handle_lsa` under the lock: store a newer advertisement, and say if it is one.
  unfoldable pub accept_lsa : LinkStatePayload → M Hs Ts Bool
  accept_lsa payload w =
      if is_newer payload (get payload.node_id w.link_state_db)
      then done true (store_lsa payload.node_id payload w)
      else done false w

module _ {P F Hs Ts : Type 0} (env : Env P F Hs Ts) where
  unfoldable pub broadcast_lsa : M Hs Ts (Unit {0})
  broadcast_lsa = do
    lsa ← generate_lsa
    id ← gets (λ w. w.id)
    with_lock link_state_lock (modify (store_lsa id lsa))
    send_to_all_neighbors env (link_state lsa)

  -- The loop of `flood_lsa_except_sender`.
  unfoldable pub flood_each :
      Message → SocketAddr → List (NodeId × ℕ × SocketAddr) → M Hs Ts (Unit {0})
  flood_each msg sender [] = pure tt
  flood_each msg sender ((id, port, addr) ∷ rest) = do
    if addr == sender then pure tt else (send_unicast_message env msg port addr >> pure tt)
    flood_each msg sender rest

  unfoldable pub flood_lsa_except_sender : LinkStatePayload → SocketAddr → M Hs Ts (Unit {0})
  flood_lsa_except_sender lsa sender = do
    neighbors ← get_neighbor_addresses
    flood_each (link_state lsa) sender neighbors

  unfoldable pub handle_lsa : LinkStatePayload → SocketAddr → M Hs Ts (Result Failure (Unit {0}))
  handle_lsa payload src = do
    should_flood ← with_lock link_state_lock (accept_lsa payload)
    if should_flood then flood_lsa_except_sender payload src else pure tt
    pure (ok tt)

module _ {Hs Ts : Type 0} where
  unfoldable pub cleanup_stale_lsas : M Hs Ts (Unit {0})
  cleanup_stale_lsas =
      with_lock link_state_lock
        (modify (λ w. set_link_state_db (retain (is_fresh_lsa w.unix_now) w.link_state_db) w))
