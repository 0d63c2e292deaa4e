-- ===== src/Node/Order/Parts.antt =====
-- The order of the locks in what the tasks of crates/node/src/node.rs share.
use swarm_mesh.Prelude.{
  ℕ, ◌-◌, true, false, List, [], ◌∷◌, none, some, Result, ok, ◌≡◌, refl, Option-cases, inl, inr,
  nat_key, pair_key,
}
use swarm_mesh.HashMap.{get, insert, remove}
use swarm_mesh.Mesh.Message.{NodeId, Message, Failure, PingPongPayload}
use swarm_mesh.Mesh.Peer.{SocketAddr}
use swarm_mesh.Node.World.{
  Env, Socket, unicast_socket, multicast_socket, Held, none_held, is_held, done, set_peer_db,
  set_ping_db, M, peer_lock, session_lock, ping_lock, with_lock, modify, pure, ◌>>◌,
}
use swarm_mesh.Node.World.Keeps.{Any}
use swarm_mesh.Node.Order.{is_after}
use swarm_mesh.Node.Order.Climbs.{
  Climbs, Climbs-pure, Climbs-gets, Climbs-if, Climbs-lock, Climbs-modify, Climbs-bind,
}
use swarm_mesh.Node.Send.{
  get_neighbor_addresses, send_message, send_unicast_message, send_multicast_message, send_each,
}
use swarm_mesh.Node.Ping.{
  can_take_ping, handle_ping, can_take_pong, can_take_pong_of, handle_pong, record_rtt,
  clean_stale_pings, send_ping,
}
use swarm_mesh.Node.Tasks.{ping_each, ping_peers}

module _ {Hs Ts : Type 0} where
  -- With no lock of its own to begin with.
  abbrev pub Starts : {A : Type 0} → M Hs Ts A → Type 0
  Starts m = Climbs Any none_held m

module _ {P F Hs Ts : Type 0} (env : Env P F Hs Ts) (own : Held) where
  Climbs-send_message :
      (msg : Message) (addr : SocketAddr) (socket : Socket)
      → Climbs Any own (send_message env msg addr socket)
  unfolding send_message
  Climbs-send_message msg addr socket = record {
    at = λ w theirs q. elim (Option-cases (env.serialize msg)) [
      | inl e ↦ rw (e, send_message) (tt, q, refl, refl)
      | inr (b, e) ↦ rw (e, send_message) (tt, q, refl, refl)
    ];
  }

  pub Climbs-unicast :
      (msg : Message) (port : ℕ) (addr : SocketAddr)
      → Climbs Any own (send_unicast_message env msg port addr)
  unfolding send_unicast_message
  Climbs-unicast msg port addr = Climbs-send_message msg _ unicast_socket

  pub Climbs-multicast :
      (msg : Message) (addr : SocketAddr) → Climbs Any own (send_multicast_message env msg addr)
  unfolding send_multicast_message
  Climbs-multicast msg addr = Climbs-send_message msg addr multicast_socket

module _ {Hs Ts : Type 0} where
  pub Climbs-neighbors : Starts {Hs = Hs} {Ts = Ts} get_neighbor_addresses
  unfolding get_neighbor_addresses
  Climbs-neighbors =
      Climbs-lock none_held peer_lock _ refl refl
        (Climbs-lock _ session_lock _ refl refl (Climbs-gets _ _ (λ w h. refl) (λ w. tt)))

  Climbs-clean : Starts {Hs = Hs} {Ts = Ts} clean_stale_pings
  unfolding clean_stale_pings
  Climbs-clean =
      Climbs-lock none_held ping_lock _ refl refl (Climbs-modify _ _ (λ w. refl) (λ w h. refl))

  Climbs-can_take_ping : (p : PingPongPayload) → Starts {Hs = Hs} {Ts = Ts} (can_take_ping p)
  unfolding can_take_ping
  Climbs-can_take_ping p =
      Climbs-bind {R = Any} none_held _ _
        (Climbs-lock none_held peer_lock _ refl refl (Climbs-gets _ _ (λ w h. refl) (λ w. tt)))
        λ known _.
          Climbs-if none_held known _ _
            (Climbs-lock none_held session_lock _ refl refl
              (Climbs-gets _ _ (λ w h. refl) (λ w. tt)))
            (Climbs-pure none_held _ tt)

  pub Climbs-handle_ping : (p : PingPongPayload) → Starts {Hs = Hs} {Ts = Ts} (handle_ping p)
  unfolding handle_ping
  Climbs-handle_ping p = Climbs-bind none_held _ _ (Climbs-can_take_ping p) λ takes _.
      Climbs-if none_held takes _ _
        (Climbs-lock none_held peer_lock _ refl refl (Climbs-gets _ _ (λ w h. refl) (λ w. tt)))
        (Climbs-pure none_held _ tt)

  Climbs-can_take_pong_of : (p : PingPongPayload) → Starts {Hs = Hs} {Ts = Ts} (can_take_pong_of p)
  unfolding can_take_pong_of
  Climbs-can_take_pong_of p =
      Climbs-bind {R = Any} none_held _ _
        (Climbs-lock none_held session_lock _ refl refl (Climbs-gets _ _ (λ w h. refl) (λ w. tt)))
        λ secure _.
          Climbs-if none_held secure _ _
            (Climbs-lock none_held ping_lock _ refl refl (Climbs-gets _ _ (λ w h. refl) (λ w. tt)))
            (Climbs-pure none_held _ tt)

  Climbs-can_take_pong : (p : PingPongPayload) → Starts {Hs = Hs} {Ts = Ts} (can_take_pong p)
  unfolding can_take_pong
  Climbs-can_take_pong p =
      Climbs-bind {R = Any} none_held _ _
        (Climbs-lock none_held peer_lock _ refl refl (Climbs-gets _ _ (λ w h. refl) (λ w. tt)))
        λ known _.
          Climbs-if none_held known _ _ (Climbs-can_take_pong_of p) (Climbs-pure none_held _ tt)

module _ {P F Hs Ts : Type 0} (env : Env P F Hs Ts) where
  Climbs-found :
      (own : Held) (k : NodeId × ℕ) (ping_ts : ℕ)
      → is_after ping_lock own ≡ true
      → is_held ping_lock own ≡ false
      → Climbs {Hs = Hs} {Ts = Ts} {A = Result Failure (Unit {0})} Any own (λ w.
        elim (get k.0 w.peer_db) [
          | none ↦ done (ok tt) w
          | some p ↦
              (do
                modify (set_peer_db (insert k.0 (record_rtt env (w.now - ping_ts) p) w.peer_db))
                with_lock ping_lock (modify (λ v. set_ping_db (remove k v.ping_db) v))
                pure (ok tt))
                w
        ])
  Climbs-found own k ping_ts after free = record {
    at = λ w theirs q. elim (Option-cases (get k.0 w.peer_db)) [
      | inl e ↦ rw (e) (tt, q, refl, refl)
      | inr (info, e) ↦ rw (e) (
          (Climbs-bind own _ _ (Climbs-modify own _ (λ v. refl) (λ w h. refl)) λ u _.
              Climbs-bind {R = Any} own _ _
                (Climbs-lock own ping_lock _ after free
                  (Climbs-modify _ _ (λ v. refl) (λ w h. refl)))
                (λ u _. Climbs-pure own _ tt)).at
            w theirs q)
    ];
  }

  pub Climbs-handle_pong : (p : PingPongPayload) → Starts (handle_pong env p)
  unfolding handle_pong pure
  Climbs-handle_pong p = Climbs-bind none_held _ _ (Climbs-can_take_pong p) λ taken _. record {
    at = λ w theirs q. elim (Option-cases taken) [
      | inl e ↦ rw (e) (tt, q, refl, refl)
      | inr ((k, ping_ts), e) ↦ rw (e) (
          (Climbs-lock none_held peer_lock _ refl refl (Climbs-found _ k ping_ts refl refl)).at w
            theirs q)
    ];
  }

  pub Climbs-send_each :
      (msg : Message) (xs : List (NodeId × ℕ × SocketAddr)) → Starts (send_each env msg xs)
  unfolding send_each
  Climbs-send_each msg [] = Climbs-pure none_held tt tt
  Climbs-send_each msg ((id, port, addr) ∷ xs) =
      Climbs-bind none_held _ _ (Climbs-unicast env none_held msg port addr)
        (λ r _. Climbs-send_each msg xs)

  Climbs-ping_each :
      (sequence : ℕ) (xs : List (NodeId × ℕ × SocketAddr)) → Starts (ping_each env sequence xs)
  unfolding ping_each send_ping
  Climbs-ping_each sequence [] = Climbs-pure none_held tt tt
  Climbs-ping_each sequence ((id, port, addr) ∷ xs) =
      Climbs-bind {R = Any} none_held _ _
        (Climbs-bind {R = Any} none_held _ _
          (Climbs-lock none_held ping_lock _ refl refl
            (Climbs-modify _ _ (λ w. refl) (λ w h. refl)))
          λ u _.
            Climbs-bind {R = Any} none_held _ _ (Climbs-gets none_held _ (λ w h. refl) (λ w. tt))
              λ own _. Climbs-unicast env none_held _ port addr)
        (λ r _. Climbs-ping_each sequence xs)

  pub Climbs-ping_peers : Starts (ping_peers env)
  unfolding ping_peers
  Climbs-ping_peers =
      Climbs-bind none_held _ _ (Climbs-modify none_held _ (λ w. refl) (λ w h. refl)) λ u _.
        Climbs-bind none_held _ _ Climbs-clean λ u _.
          Climbs-bind none_held _ _ Climbs-neighbors λ xs _.
            Climbs-bind {R = Any} none_held _ _ (Climbs-gets none_held _ (λ w h. refl) (λ w. tt))
              (λ sequence _. Climbs-ping_each sequence xs)
