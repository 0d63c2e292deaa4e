-- ===== src/Node/System/Parts.antt =====
-- The parts of crates/node/src/node.rs that return, whatever they find.
use swarm_mesh.Prelude.{
  ℕ, ◌-◌, List, [], ◌∷◌, none, some, Result, ok, refl, Option-cases, Bool-cases, inl, inr, nat_key,
  pair_key,
}
use swarm_mesh.HashMap.{get, insert, remove}
use swarm_mesh.Mesh.Message.{Message, Failure, PingPongPayload, LinkStatePayload, NodeId}
use swarm_mesh.Mesh.Peer.{SocketAddr}
use swarm_mesh.Node.World.{
  Env, Socket, unicast_socket, multicast_socket, Held, none_held, done, set_peer_db, set_ping_db, M,
  peer_lock, session_lock, ping_lock, link_state_lock, lsa_sequence_lock, with_lock, modify, pure,
  ◌>>◌,
}
use swarm_mesh.Node.World.Returns.{
  Returns, Returns-pure, Returns-gets, Returns-if, Returns-lock, Returns-modify, Returns-bind,
}
use swarm_mesh.Node.Send.{
  get_neighbor_addresses, send_message, send_unicast_message, send_multicast_message, send_each,
  send_to_all_neighbors,
}
use swarm_mesh.Node.Ping.{
  can_take_ping, handle_ping, can_take_pong, can_take_pong_of, handle_pong, record_rtt,
  clean_stale_pings, send_ping,
}
use swarm_mesh.Node.LinkState.{
  bump_sequence, get_established_neighbors, generate_lsa, broadcast_lsa, accept_lsa, is_newer,
  flood_each, flood_lsa_except_sender, handle_lsa, cleanup_stale_lsas,
}
use swarm_mesh.Node.Tasks.{broadcast, ping_each, ping_peers}

module _ {Hs Ts : Type 0} where
  -- From a world in which no lock is held, the action returns, and none is held.
  abbrev pub Frees : {A : Type 0} → M Hs Ts A → Type 0
  Frees m = Returns none_held m

module _ {P F Hs Ts : Type 0} (env : Env P F Hs Ts) (h : Held) where
  Returns-send_message :
      (msg : Message) (addr : SocketAddr) (socket : Socket)
      → Returns h (send_message env msg addr socket)
  unfolding send_message
  Returns-send_message msg addr socket = record {
    at = λ w q. elim (Option-cases (env.serialize msg)) [
      | inl e ↦ rw (e, send_message) (_, _, refl, q)
      | inr (b, e) ↦ rw (e, send_message) (_, _, refl, q)
    ];
  }

  pub Returns-unicast :
      (msg : Message) (port : ℕ) (addr : SocketAddr)
      → Returns h (send_unicast_message env msg port addr)
  unfolding send_unicast_message
  Returns-unicast msg port addr = Returns-send_message msg _ unicast_socket

  pub Returns-multicast :
      (msg : Message) (addr : SocketAddr) → Returns h (send_multicast_message env msg addr)
  unfolding send_multicast_message
  Returns-multicast msg addr = Returns-send_message msg addr multicast_socket

  Returns-send_each :
      (msg : Message) (xs : List (NodeId × ℕ × SocketAddr)) → Returns h (send_each env msg xs)
  unfolding send_each
  Returns-send_each msg [] = Returns-pure h tt
  Returns-send_each msg ((id, port, addr) ∷ xs) =
      Returns-bind h _ _ (Returns-unicast msg port addr) (λ r. Returns-send_each msg xs)

module _ {Hs Ts : Type 0} where
  Returns-neighbors : Frees {Hs = Hs} {Ts = Ts} get_neighbor_addresses
  unfolding get_neighbor_addresses
  Returns-neighbors =
      Returns-lock none_held peer_lock _ refl
        (Returns-lock _ session_lock _ refl (Returns-gets _ _))

  pub Returns-clean : Frees {Hs = Hs} {Ts = Ts} clean_stale_pings
  unfolding clean_stale_pings
  Returns-clean = Returns-lock none_held ping_lock _ refl (Returns-modify _ _ (λ w. refl))

  pub Returns-cleanup : Frees {Hs = Hs} {Ts = Ts} cleanup_stale_lsas
  unfolding cleanup_stale_lsas
  Returns-cleanup = Returns-lock none_held link_state_lock _ refl (Returns-modify _ _ (λ w. refl))

  Returns-generate : Frees {Hs = Hs} {Ts = Ts} generate_lsa
  unfolding generate_lsa get_established_neighbors
  Returns-generate =
      Returns-bind none_held _ _
        (Returns-lock none_held lsa_sequence_lock _ refl
          (Returns-bind _ _ _ (Returns-modify _ bump_sequence (λ w. refl)) (λ u. Returns-gets _ _)))
        λ sequence.
          Returns-bind none_held _ _ (Returns-lock none_held session_lock _ refl (Returns-gets _ _))
            λ neighbors.
              Returns-bind none_held _ _ (Returns-gets _ _)
                λ id. Returns-bind none_held _ _ (Returns-gets _ _) λ timestamp. Returns-pure _ _

  Returns-accept : (h : Held) (p : LinkStatePayload) → Returns {Hs = Hs} {Ts = Ts} h (accept_lsa p)
  unfolding accept_lsa
  Returns-accept h p = record {
    at = λ w q. elim (Bool-cases (is_newer p (get p.node_id w.link_state_db))) [
      | inl e ↦ rw e (_, _, refl, q)
      | inr e ↦ rw e (_, _, refl, q)
    ];
  }

  Returns-can_take_ping : (p : PingPongPayload) → Frees {Hs = Hs} {Ts = Ts} (can_take_ping p)
  unfolding can_take_ping
  Returns-can_take_ping p =
      Returns-bind none_held _ _ (Returns-lock none_held peer_lock _ refl (Returns-gets _ _))
        λ known.
          Returns-if none_held known _ _
            (Returns-lock none_held session_lock _ refl (Returns-gets _ _))
            (Returns-pure none_held _)

  pub Returns-handle_ping : (p : PingPongPayload) → Frees {Hs = Hs} {Ts = Ts} (handle_ping p)
  unfolding handle_ping
  Returns-handle_ping p = Returns-bind none_held _ _ (Returns-can_take_ping p) λ takes.
      Returns-if none_held takes _ _ (Returns-lock none_held peer_lock _ refl (Returns-gets _ _))
        (Returns-pure none_held _)

  Returns-can_take_pong_of : (p : PingPongPayload) → Frees {Hs = Hs} {Ts = Ts} (can_take_pong_of p)
  unfolding can_take_pong_of
  Returns-can_take_pong_of p =
      Returns-bind none_held _ _ (Returns-lock none_held session_lock _ refl (Returns-gets _ _))
        λ secure.
          Returns-if none_held secure _ _
            (Returns-lock none_held ping_lock _ refl (Returns-gets _ _)) (Returns-pure none_held _)

  Returns-can_take_pong : (p : PingPongPayload) → Frees {Hs = Hs} {Ts = Ts} (can_take_pong p)
  unfolding can_take_pong
  Returns-can_take_pong p =
      Returns-bind none_held _ _ (Returns-lock none_held peer_lock _ refl (Returns-gets _ _))
        λ known.
          Returns-if none_held known _ _ (Returns-can_take_pong_of p) (Returns-pure none_held _)

module _ {P F Hs Ts : Type 0} (env : Env P F Hs Ts) where
  Returns-found :
      (k : NodeId × ℕ) (ping_ts : ℕ)
      → Frees {Hs = Hs} {Ts = Ts} {A = Result Failure (Unit {0})} (
          with_lock peer_lock λ w. elim (get k.0 w.peer_db) [
            | none ↦ done (ok tt) w
            | some p ↦
                (do
                  modify (set_peer_db (insert k.0 (record_rtt env (w.now - ping_ts) p) w.peer_db))
                  with_lock ping_lock (modify (λ v. set_ping_db (remove k v.ping_db) v))
                  pure (ok tt))
                  w
          ])
  Returns-found k ping_ts = Returns-lock none_held peer_lock _ refl (record {
    at = λ w q. elim (Option-cases (get k.0 w.peer_db)) [
      | inl e ↦ rw (e) (_, _, refl, q)
      | inr (info, e) ↦ rw (e) (
          (Returns-bind _ _ _ (Returns-modify _ _ (λ v. refl)) λ u.
              Returns-bind _ _ _ (Returns-lock _ ping_lock _ refl (Returns-modify _ _ (λ v. refl)))
                (λ u. Returns-pure _ _)).at
            w q)
    ];
  })

  pub Returns-handle_pong : (p : PingPongPayload) → Frees (handle_pong env p)
  unfolding handle_pong
  Returns-handle_pong p = Returns-bind none_held _ _ (Returns-can_take_pong p) λ taken. record {
    at = λ w q. elim (Option-cases taken) [
      | inl e ↦ rw (e) ((Returns-pure none_held _).at w q)
      | inr ((k, ping_ts), e) ↦ rw (e) ((Returns-found k ping_ts).at w q)
    ];
  }

  Returns-send_to_all : (msg : Message) → Frees (send_to_all_neighbors env msg)
  unfolding send_to_all_neighbors
  Returns-send_to_all msg =
      Returns-bind none_held _ _ Returns-neighbors (λ xs. Returns-send_each env none_held msg xs)

  pub Returns-broadcast_lsa : Frees (broadcast_lsa env)
  unfolding broadcast_lsa
  Returns-broadcast_lsa = Returns-bind none_held _ _ Returns-generate λ lsa.
      Returns-bind none_held _ _ (Returns-gets _ _) λ id.
        Returns-bind none_held _ _
          (Returns-lock none_held link_state_lock _ refl (Returns-modify _ _ (λ w. refl)))
          (λ u. Returns-send_to_all _)

  Returns-flood_each :
      (msg : Message) (sender : SocketAddr) (xs : List (NodeId × ℕ × SocketAddr))
      → Frees (flood_each env msg sender xs)
  unfolding flood_each
  Returns-flood_each msg sender [] = Returns-pure none_held tt
  Returns-flood_each msg sender ((id, port, addr) ∷ xs) =
      Returns-bind none_held _ _
        (Returns-if none_held _ _ _ (Returns-pure none_held tt) (
          Returns-bind none_held _ _ (Returns-unicast env none_held msg port addr)
            (λ r. Returns-pure none_held tt)))
        (λ u. Returns-flood_each msg sender xs)

  pub Returns-handle_lsa : (p : LinkStatePayload) (src : SocketAddr) → Frees (handle_lsa env p src)
  unfolding handle_lsa flood_lsa_except_sender
  Returns-handle_lsa p src =
      Returns-bind none_held _ _
        (Returns-lock none_held link_state_lock _ refl (Returns-accept _ p))
        λ b.
          Returns-bind none_held _ _
            (Returns-if none_held b _ _
              (Returns-bind none_held _ _ Returns-neighbors (λ xs. Returns-flood_each _ src xs))
              (Returns-pure none_held tt))
            (λ u. Returns-pure none_held _)

  Returns-ping_each :
      (sequence : ℕ) (xs : List (NodeId × ℕ × SocketAddr)) → Frees (ping_each env sequence xs)
  unfolding ping_each send_ping
  Returns-ping_each sequence [] = Returns-pure none_held tt
  Returns-ping_each sequence ((id, port, addr) ∷ xs) =
      Returns-bind none_held _ _
        (Returns-bind none_held _ _
          (Returns-lock none_held ping_lock _ refl (Returns-modify _ _ (λ w. refl)))
          λ u.
            Returns-bind none_held _ _ (Returns-gets none_held _)
              λ own. Returns-unicast env none_held _ port addr)
        (λ r. Returns-ping_each sequence xs)

  pub Returns-ping_peers : Frees (ping_peers env)
  unfolding ping_peers
  Returns-ping_peers = Returns-bind none_held _ _ (Returns-modify none_held _ (λ w. refl)) λ u.
      Returns-bind none_held _ _ Returns-clean λ u.
        Returns-bind none_held _ _ Returns-neighbors λ xs.
          Returns-bind none_held _ _ (Returns-gets none_held _)
            (λ sequence. Returns-ping_each sequence xs)

  pub Returns-broadcast : (addr : SocketAddr) → Frees (broadcast env addr)
  unfolding broadcast
  Returns-broadcast addr = record {
    at = λ w q.
        (Returns-bind none_held _ _ (Returns-multicast env none_held _ addr)
            (λ r. Returns-pure none_held tt)).at
          w q;
  }
