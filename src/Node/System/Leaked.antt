-- ===== src/Node/System/Leaked.antt =====
-- What a node (crates/node/src/node.rs) still does once the lock of its sessions is never given back.
use swarm_mesh.Prelude.{
  ℕ, true, false, List, [], ◌∷◌, ◌++◌, none, ok, ◌≡◌, refl, sym, ap, ◌∙◌, subst, nat_eqb, nat_key,
  All, Option-cases, Bool-cases, inl, inr,
}
use swarm_mesh.HashMap.{get}
use swarm_mesh.Mesh.Message.{
  Message, hello, handshake, ping, pong, link_state, encrypted_data, HelloPayload, PingPongPayload,
  LinkStatePayload,
}
use swarm_mesh.Mesh.Peer.{SocketAddr}
use swarm_mesh.Node.World.{
  Env, multicast_socket, Packet, World, M, Lock, Held, peer_lock, session_lock, ping_lock,
  link_state_lock, lsa_sequence_lock, acquire, with_lock, pure, ◌>>=◌,
}
use swarm_mesh.Node.World.Keeps.{
  Any, Ends, Keeps, Keeps-pure, Keeps-panic, Keeps-gets, Keeps-bind, Keeps-then, Keeps-modify,
  Keeps-if, Keeps-with_lock, Keeps-with_session_lock,
}
use swarm_mesh.Node.Send.{get_neighbor_addresses, send_message, send_multicast_message}
use swarm_mesh.Node.Ping.{
  can_take_ping, handle_ping, can_take_pong, can_take_pong_of, handle_pong, clean_stale_pings,
}
use swarm_mesh.Node.LinkState.{
  bump_sequence, get_established_neighbors, generate_lsa, broadcast_lsa, accept_lsa, is_newer,
  flood_lsa_except_sender, handle_lsa, cleanup_stale_lsas,
}
use swarm_mesh.Node.Handshake.{handle_handshake}
use swarm_mesh.Node.Receive.{Datagram, decode, reply_pong, unless_own, on_hello, dispatch, receive}
use swarm_mesh.Node.Tasks.{broadcast, ping_peers, remove_peers, remove_if_any, remove_stale_peers}
use swarm_mesh.Node.System.{
  Event, arrives, hello_due, ping_due, monitor_due, lsa_refresh_due, lsa_cleanup_due, time_passes,
  sockets_fail, round, Step, returns, hangs, dies, Reach, here, next,
}

abbrev pub IsHello : Message → Type 0
IsHello (hello p) = Unit
IsHello _ = ⊥

abbrev Nothing : {A : Type 0} → A → Type 0
Nothing a = ⊥

module _ {Hs Ts : Type 0} where
  -- The lock of the sessions is held, no peer and no session has changed, and only Hello messages
  -- have been sent since.
  abbrev pub IsDeafSince : World Hs Ts → World Hs Ts → Type 0
  IsDeafSince w v =
      (v.held.session ≡ true)
      × (v.peer_db ≡ w.peer_db)
      × (v.session_db ≡ w.session_db)
      × ((xs : List Packet) × (v.sent ≡ xs ++ w.sent) × All (λ p. IsHello p.message) xs)

module _ {Hs Ts : Type 0} (start : World Hs Ts) where
  abbrev KeepsDeaf : {A : Type 0} → (A → Type 0) → M Hs Ts A → Type 0
  KeepsDeaf R m = Keeps (IsDeafSince start) (IsDeafSince start) R m

  deaf_lock :
      {A : Type 0} {R : A → Type 0} (l : Lock) (m : M Hs Ts A)
      → ((h : Held) → (acquire l h).session ≡ h.session)
      → KeepsDeaf R m
      → KeepsDeaf R (with_lock l m)
  deaf_lock l m same k = Keeps-with_lock l m same (λ w h e q. (e ∙ q.0, q.1, q.2, q.3)) (λ w p. p) k

  -- Nobody gets past the lock of the sessions.
  wall : {A : Type 0} {R : A → Type 0} (m : M Hs Ts A) → KeepsDeaf R (with_lock session_lock m)
  wall m =
      Keeps-with_session_lock (λ w. ⊥) m (λ w p. p)
        (λ w p e. let bad : true ≡ false = sym p.0 ∙ e in absurd cc) (λ w h t. elim t [ ])
        (record { at = λ w t. elim t [ ] })

  deaf_neighbors : KeepsDeaf Nothing get_neighbor_addresses
  unfolding get_neighbor_addresses
  deaf_neighbors = deaf_lock peer_lock _ (λ h. refl) (wall _)

  deaf_can_take_ping : (p : PingPongPayload) → KeepsDeaf (λ b. b ≡ false) (can_take_ping p)
  unfolding can_take_ping
  deaf_can_take_ping p =
      Keeps-bind _ _ (deaf_lock peer_lock _ (λ h. refl) (Keeps-gets {R = Any} _ (λ w q. tt)))
        λ known _. Keeps-if known _ _ (wall _) (Keeps-pure false refl)

  deaf_handle_ping : (p : PingPongPayload) → KeepsDeaf (λ r. r ≡ ok none) (handle_ping p)
  unfolding handle_ping
  deaf_handle_ping p =
      Keeps-bind _ _ (deaf_can_take_ping p) (λ b e. rw e (Keeps-pure (ok none) refl))

  deaf_can_take_pong : (p : PingPongPayload) → KeepsDeaf (λ r. r ≡ none) (can_take_pong p)
  unfolding can_take_pong can_take_pong_of
  deaf_can_take_pong p =
      Keeps-bind _ _ (deaf_lock peer_lock _ (λ h. refl) (Keeps-gets {R = Any} _ (λ w q. tt)))
        λ known _.
          Keeps-if known _ _ (Keeps-bind _ _ (wall {R = Nothing} _) (λ b t. elim t [ ]))
            (Keeps-pure none refl)

  deaf_clean : KeepsDeaf Any clean_stale_pings
  unfolding clean_stale_pings
  deaf_clean = deaf_lock ping_lock _ (λ h. refl) (Keeps-modify _ (λ w p. (p, refl)))

  deaf_cleanup : KeepsDeaf Any cleanup_stale_lsas
  unfolding cleanup_stale_lsas
  deaf_cleanup = deaf_lock link_state_lock _ (λ h. refl) (Keeps-modify _ (λ w p. (p, refl)))

  deaf_accept : (p : LinkStatePayload) → KeepsDeaf Any (accept_lsa p)
  unfolding accept_lsa ◌>>=◌
  deaf_accept p = record {
    at = λ w q. elim (Bool-cases (is_newer p (get p.node_id w.link_state_db))) [
      | inl e ↦ rw e (tt, q, refl)
      | inr e ↦ rw e (tt, q, refl)
    ];
  }

  deaf_unless_own :
      {P F : Type 0} (env : Env P F Hs Ts) (id : ℕ) (m : M Hs Ts (Unit {0}))
      → KeepsDeaf Any m
      → KeepsDeaf Any (unless_own env id m)
  deaf_unless_own env id m k = record {
    at = λ w q. elim (Bool-cases (nat_eqb id w.id)) [
      | inl e ↦ rw e ((Keeps-pure tt tt).at w q)
      | inr e ↦ rw e (k.at w q)
    ];
  }

module _ {P F Hs Ts : Type 0} (env : Env P F Hs Ts) (start : World Hs Ts) where
  deaf_handle_pong : (p : PingPongPayload) → KeepsDeaf start Any (handle_pong env p)
  unfolding handle_pong
  deaf_handle_pong p =
      Keeps-bind _ _ (deaf_can_take_pong start p) (λ r e. rw e (Keeps-pure (ok tt) tt))

  deaf_broadcast_lsa : KeepsDeaf start Any (broadcast_lsa env)
  unfolding broadcast_lsa generate_lsa get_established_neighbors
  deaf_broadcast_lsa =
      Keeps-bind _ _
        (Keeps-bind {R = Any} {T = Nothing} _ _
          (deaf_lock start lsa_sequence_lock _ (λ h. refl)
            (Keeps-then _ _ (Keeps-modify bump_sequence (λ w p. (p, refl)))
              (Keeps-gets {R = Any} _ (λ w p. tt))))
          (λ sequence _. Keeps-bind _ _ (wall start {R = Nothing} _) (λ xs t. elim t [ ])))
        (λ lsa t. elim t [ ])

  deaf_handle_lsa :
      (p : LinkStatePayload) (src : SocketAddr) → KeepsDeaf start Any (handle_lsa env p src)
  unfolding handle_lsa flood_lsa_except_sender
  deaf_handle_lsa p src =
      Keeps-bind _ _ (deaf_lock start link_state_lock _ (λ h. refl) (deaf_accept start p)) λ b _.
        Keeps-then _ _
          (Keeps-if {R = Any} b _ _ (Keeps-bind _ _ (deaf_neighbors start) (λ xs t. elim t [ ]))
            (Keeps-pure tt tt))
          (Keeps-pure _ tt)

  deaf_on_hello : (p : HelloPayload) (src : SocketAddr) → KeepsDeaf start Any (on_hello env p src)
  unfolding on_hello
  deaf_on_hello p src = Keeps-bind _ _ (wall start {R = Nothing} _) (λ known t. elim t [ ])

  deaf_dispatch : (msg : Message) (src : SocketAddr) → KeepsDeaf start Any (dispatch env msg src)
  unfolding dispatch reply_pong handle_handshake
  deaf_dispatch (ping p) src =
      deaf_unless_own start env p.node_id _
        (Keeps-bind _ _ (deaf_handle_ping start p) (λ r e. rw e (Keeps-pure tt tt)))
  deaf_dispatch (pong p) src =
      deaf_unless_own start env p.node_id _
        (Keeps-bind _ _ (deaf_handle_pong p) (λ r _. Keeps-pure tt tt))
  deaf_dispatch (hello p) src = deaf_unless_own start env p.node_id _ (deaf_on_hello p src)
  deaf_dispatch (handshake p) src =
      deaf_unless_own start env p.node_id _
        (Keeps-bind _ _ (wall start {R = Nothing} _) (λ r t. elim t [ ]))
  deaf_dispatch (link_state p) src =
      deaf_unless_own start env p.node_id _
        (Keeps-bind _ _ (deaf_handle_lsa p src) (λ r _. Keeps-pure tt tt))
  deaf_dispatch (encrypted_data bytes) src = Keeps-pure tt tt

  deaf_receive : (d : Datagram) → KeepsDeaf start Any (receive env d)
  unfolding receive
  deaf_receive d = elim (Option-cases (decode env d)) [
    | inl e ↦ rw (e, receive) (Keeps-pure tt tt)
    | inr (msg, e) ↦ rw (e, receive) (deaf_dispatch msg d.src)
  ]

  deaf_broadcast : (addr : SocketAddr) → KeepsDeaf start Any (broadcast env addr)
  unfolding broadcast send_multicast_message send_message ◌>>=◌ pure
  deaf_broadcast addr = record {
    at = λ w q.
        elim (Option-cases
          (env.serialize (hello (record { node_id = w.id; unicast_port = w.unicast_port })))) [
            | inl e ↦ rw (e, send_message) (tt, q, refl)
            | inr (b, e) ↦
                let (xs, s, all) = q.3 in
                let greeting : Packet = record {
                  message = hello (record { node_id = w.id; unicast_port = w.unicast_port });
                  dest = addr;
                  socket = multicast_socket;
                } in
                rw (e, send_message)
                  (
                    tt,
                    (q.0, q.1, q.2, (greeting ∷ xs, ap (λ ys. greeting ∷ ys) s, (tt, all))),
                    refl,
                  )
          ];
  }

  deaf_ping_peers : KeepsDeaf start Any (ping_peers env)
  unfolding ping_peers
  deaf_ping_peers = Keeps-bind _ _ (Keeps-modify _ (λ w q. (q, refl))) λ _ _.
      Keeps-bind _ _ (deaf_clean start)
        λ _ _. Keeps-bind _ _ (deaf_neighbors start) (λ xs t. elim t [ ])

  deaf_remove_if_any : (ids : List ℕ) → KeepsDeaf start Any (remove_if_any env ids)
  unfolding remove_if_any remove_peers
  deaf_remove_if_any [] = Keeps-pure tt tt
  deaf_remove_if_any (id ∷ ids) = deaf_lock start peer_lock _ (λ h. refl) (wall start _)

  deaf_remove_stale : KeepsDeaf start Any (remove_stale_peers env)
  unfolding remove_stale_peers
  deaf_remove_stale =
      Keeps-bind _ _ (deaf_lock start peer_lock _ (λ h. refl) (Keeps-gets {R = Any} _ (λ w q. tt)))
        (λ ids _. deaf_remove_if_any ids)

  deaf_round : (e : Event) → KeepsDeaf start Any (round env e)
  unfolding round
  deaf_round (arrives d) = deaf_receive d
  deaf_round (hello_due addr) = deaf_broadcast addr
  deaf_round ping_due = deaf_ping_peers
  deaf_round monitor_due = deaf_remove_stale
  deaf_round lsa_refresh_due = deaf_broadcast_lsa
  deaf_round sockets_fail = Keeps-panic
  deaf_round lsa_cleanup_due = deaf_cleanup start
  deaf_round (time_passes ns s) = Keeps-modify _ (λ w q. (q, refl))

  Step-IsDeafSince : {w v : World Hs Ts} → Step env w v → IsDeafSince start w → IsDeafSince start v
  Step-IsDeafSince {w} (returns e r) q =
      (subst (Ends (IsDeafSince start) (IsDeafSince start) Any w.held) r ((deaf_round e).at w q)).1
  Step-IsDeafSince {w} (hangs e r) q =
      subst (Ends (IsDeafSince start) (IsDeafSince start) Any w.held) r ((deaf_round e).at w q)
  Step-IsDeafSince {w} (dies e r) q =
      (subst (Ends (IsDeafSince start) (IsDeafSince start) Any w.held) r ((deaf_round e).at w q)).0

module _ {P F Hs Ts : Type 0} (env : Env P F Hs Ts) where
  -- Once the lock of the sessions is held between rounds, it is held for ever. Whatever arrives and
  -- in whatever order the tasks run, the peers and the sessions stay as they are, and nothing but
  -- Hello messages is sent any more.
  pub Reach-IsDeafSince :
      (w v : World Hs Ts) → w.held.session ≡ true → Reach env w v → IsDeafSince w v
  Reach-IsDeafSince w v q here = (q, refl, refl, ([], refl, tt))
  Reach-IsDeafSince w v q (next r st) = Step-IsDeafSince env w st (Reach-IsDeafSince w _ q r)
