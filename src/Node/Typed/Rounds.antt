-- ===== src/Node/Typed/Rounds.antt =====
-- Every round of a node of crates/node/src/node.rs keeps the types, if what `deserialize` returns has
-- them, and a node that apps/node/src/main.rs has made has them.
use swarm_mesh.Prelude.{
  ℕ, true, false, List, [], ◌∷◌, Option, none, some, Bytes, Result, ok, err, ◌≡◌, ◌≢◌, refl, sym,
  ◌∙◌, subst, nat_eqb, nat_eqb_iff, take, Option-cases, Bool-cases, inl, inr, nat_key, arith,
}
use swarm_mesh.Mesh.Message.{
  NodeId, Message, hello, handshake, ping, pong, link_state, encrypted_data, HelloPayload, Failure,
}
use swarm_mesh.Mesh.Peer.{SocketAddr, new_peer, update_peer}
use swarm_mesh.Node.World.{
  Env, Socket, multicast_socket, unicast_socket, World, Held, Outcome, done, stuck, panicked, M,
  peer_lock, session_lock,
}
use swarm_mesh.Node.World.Keeps.{
  Any, Ends, Keeps-pure, Keeps-panic, Keeps-gets, Keeps-bind, Keeps-then, Keeps-modify, Keeps-if,
}
use swarm_mesh.Node.Receive.{
  Datagram, accept, decode, reply, reply_pong, unless_own, on_hello, dispatch, receive,
}
use swarm_mesh.Node.Tasks.{
  broadcast, ping_each, ping_peers, remove_peers, remove_if_any, remove_stale_peers,
}
use swarm_mesh.Node.System.{
  Event, arrives, hello_due, ping_due, monitor_due, lsa_refresh_due, lsa_cleanup_due, time_passes,
  sockets_fail, round, Step, returns, hangs, dies, Reach, here, next, left,
}
use swarm_mesh.Node.Typed.{Ids, IsOther, IsPeer, IsSession, IsSequence, IsTypedMessage, IsTyped}
use swarm_mesh.Node.Typed.Tables.{IsTable-modify_or_insert, IsTable-remove_each}
use swarm_mesh.Node.Typed.Sends.{
  KeepsTyped, AreOthers, typed_lock, typed_gets, typed_send_unicast, typed_send_multicast,
  typed_neighbors, typed_broadcast, typed_handle_lsa, typed_cleanup,
}
use swarm_mesh.Node.Typed.Handles.{IsTypedReply, typed_hello, typed_handshake}
use swarm_mesh.Node.Typed.Pings.{
  IsTypedPong, typed_handle_ping, typed_handle_pong, typed_clean, typed_send_ping,
}

module _ {P F Hs Ts : Type 0} (env : Env P F Hs Ts) (ids : Ids) where
  typed_reply :
      {E : Type 0} (r : Result E (Option Message)) (port : ℕ) (src : SocketAddr)
      → IsTypedReply ids r
      → KeepsTyped ids Any (reply env r port src)
  unfolding reply
  typed_reply (ok (some msg)) port src t =
      Keeps-bind _ _ (typed_send_unicast env ids msg port src t) (λ _ _. Keeps-pure tt tt)
  typed_reply (ok none) port src t = Keeps-pure tt tt
  typed_reply (err e) port src t = Keeps-pure tt tt

  typed_reply_pong :
      (r : Result Failure (Option (ℕ × Message))) (src : SocketAddr)
      → IsTypedPong ids r
      → KeepsTyped ids Any (reply_pong env r src)
  unfolding reply_pong
  typed_reply_pong (ok (some (port, msg))) src t =
      Keeps-bind _ _ (typed_send_unicast env ids msg port src t) (λ _ _. Keeps-pure tt tt)
  typed_reply_pong (ok none) src t = Keeps-pure tt tt
  typed_reply_pong (err e) src t = Keeps-pure tt tt

  typed_on_hello :
      (p : HelloPayload) (src : SocketAddr)
      → IsOther ids p.node_id
      → ids.IsAt p.node_id p.unicast_port
      → KeepsTyped ids Any (on_hello env p src)
  unfolding on_hello new_peer update_peer
  typed_on_hello p src o t =
      Keeps-bind _ _ (typed_lock ids session_lock _ (typed_gets ids _)) λ known _.
        Keeps-if known _ _
          (typed_lock ids peer_lock _ (
            Keeps-modify _ λ w (a, b, c, d, e, f, g). (
              (
                a,
                b,
                IsTable-modify_or_insert (IsPeer ids) p.node_id _ _ w.peer_db (o, t, tt)
                    (λ i q. (o, t, q.2)) c,
                d,
                e,
                f,
                g,
              ),
              refl,
            )))
          (Keeps-bind _ _ (typed_hello env ids p src o) (λ r d. typed_reply r p.unicast_port src d))

  typed_unless_own :
      (id : ℕ) (m : M Hs Ts (Unit {0}))
      → (id ≢ ids.own → KeepsTyped ids Any m)
      → KeepsTyped ids Any (unless_own env id m)
  typed_unless_own id m k = record {
    at = λ w q. elim (Bool-cases (nat_eqb id w.id)) [
      | inl e ↦ rw e ((Keeps-pure {P = IsTyped ids} {S = IsTyped ids} {R = Any} tt tt).at w q)
      | inr e ↦ rw e (
          (k (λ same.
              let bad : true ≡ false = sym ((nat_eqb_iff id w.id).1 (same ∙ sym q.0.0)) ∙ e in
              absurd cc)).at
            w q)
    ];
  }

  typed_dispatch :
      (msg : Message) (src : SocketAddr)
      → IsTypedMessage ids msg
      → KeepsTyped ids Any (dispatch env msg src)
  unfolding dispatch
  typed_dispatch (ping p) src t =
      typed_unless_own p.node_id _
        λ o. Keeps-bind _ _ (typed_handle_ping ids p t.1) (λ r a. typed_reply_pong r src a)
  typed_dispatch (pong p) src t =
      typed_unless_own p.node_id _
        λ o. Keeps-bind _ _ (typed_handle_pong env ids p) (λ r _. Keeps-pure tt tt)
  typed_dispatch (hello p) src t =
      typed_unless_own p.node_id _
        (λ o. typed_on_hello p src (ids.at_known p.node_id p.unicast_port t, o) t)
  typed_dispatch (handshake p) src t = typed_unless_own p.node_id _ λ o.
      Keeps-bind _ _ (typed_handshake env ids p src (ids.at_known p.node_id p.unicast_port t, o))
        (λ r a. typed_reply r p.unicast_port src a)
  typed_dispatch (link_state p) src t =
      typed_unless_own p.node_id _
        λ o. Keeps-bind _ _ (typed_handle_lsa env ids p src t) (λ r _. Keeps-pure tt tt)
  typed_dispatch (encrypted_data bytes) src t = Keeps-pure tt tt

  typed_ping_each :
      (sequence : ℕ) (xs : List (NodeId × ℕ × SocketAddr))
      → IsSequence sequence
      → AreOthers ids xs
      → KeepsTyped ids Any (ping_each env sequence xs)
  unfolding ping_each
  typed_ping_each sequence [] s o = Keeps-pure tt tt
  typed_ping_each sequence ((id, port, addr) ∷ xs) s o =
      Keeps-then {R = Any} _ _ (typed_send_ping env ids id port sequence addr o.0 s)
        (typed_ping_each sequence xs s o.1)

  typed_ping_peers : KeepsTyped ids Any (ping_peers env)
  unfolding ping_peers
  typed_ping_peers =
      Keeps-then {R = Any} _ _
        (Keeps-modify _ λ w (a, b, c, d, e, f, g). ((a, (b.0, omega arith), c, d, e, f, g), refl))
        (Keeps-then {R = Any} _ _ (typed_clean ids) (
          Keeps-bind _ _ (typed_neighbors ids) λ xs o.
            Keeps-bind {R = IsSequence} _ _ (Keeps-gets _ (λ w q. q.1.1))
              (λ sequence s. typed_ping_each sequence xs s o)))

  typed_remove_if_any : (peers : List ℕ) → KeepsTyped ids Any (remove_if_any env peers)
  unfolding remove_if_any remove_peers
  typed_remove_if_any [] = Keeps-pure tt tt
  typed_remove_if_any (id ∷ peers) = typed_lock ids peer_lock _ (
      typed_lock ids session_lock _ (
        Keeps-then {R = Any} _ _
          (Keeps-modify _ λ w (a, b, c, d, e, f, g).
            ((a, b, IsTable-remove_each (IsPeer ids) (id ∷ peers) w.peer_db c, d, e, f, g), refl))
          (Keeps-then {R = Any} _ _
            (Keeps-modify _ λ w (a, b, c, d, e, f, g). (
              (a, b, c, IsTable-remove_each (IsSession ids) (id ∷ peers) w.session_db d, e, f, g),
              refl,
            ))
            (typed_broadcast env ids))))

  typed_remove_stale : KeepsTyped ids Any (remove_stale_peers env)
  unfolding remove_stale_peers
  typed_remove_stale =
      Keeps-bind _ _ (typed_lock ids peer_lock _ (typed_gets ids _))
        (λ peers _. typed_remove_if_any peers)

pub accept-source :
    (s : Socket) (o : Option Message) (msg : Message) → accept s o ≡ some msg → o ≡ some msg
accept-source multicast_socket none msg e = absurd cc
accept-source multicast_socket (some (hello p)) msg e = e
accept-source multicast_socket (some (handshake p)) msg e = absurd cc
accept-source multicast_socket (some (ping p)) msg e = absurd cc
accept-source multicast_socket (some (pong p)) msg e = absurd cc
accept-source multicast_socket (some (link_state p)) msg e = absurd cc
accept-source multicast_socket (some (encrypted_data b)) msg e = absurd cc
accept-source unicast_socket o msg e = e

module _ {P F Hs Ts : Type 0} (env : Env P F Hs Ts) (ids : Ids) where
  -- The predicates hold of a message that arrives.
  abbrev pub IsTypedEvent : Event → Type 0
  IsTypedEvent (arrives d) = (msg : Message) → decode env d ≡ some msg → IsTypedMessage ids msg
  IsTypedEvent _ = Unit {0}

  typed_receive : (d : Datagram) → IsTypedEvent (arrives d) → KeepsTyped ids Any (receive env d)
  unfolding receive
  typed_receive d t = elim (Option-cases (decode env d)) [
    | inl e ↦ rw (e, receive) (Keeps-pure tt tt)
    | inr (msg, e) ↦ rw (e, receive) (typed_dispatch env ids msg d.src (t msg e))
  ]

  typed_round : (e : Event) → IsTypedEvent e → KeepsTyped ids Any (round env e)
  unfolding round broadcast
  typed_round (arrives d) t = typed_receive d t
  typed_round (hello_due addr) t = record {
    at = λ w q.
        (Keeps-bind {T = Any} _ _
            (typed_send_multicast env ids _ addr
              (subst (λ i. ids.IsAt i w.unicast_port) (sym q.0.0) q.0.1))
            (λ _ _. Keeps-pure tt tt)).at
          w q;
  }
  typed_round ping_due t = typed_ping_peers env ids
  typed_round monitor_due t = typed_remove_stale env ids
  typed_round lsa_refresh_due t = typed_broadcast env ids
  typed_round sockets_fail t = Keeps-panic
  typed_round lsa_cleanup_due t = typed_cleanup ids
  typed_round (time_passes ns s) t = Keeps-modify _ (λ w q. (q, refl))

  IsTyped-left :
      (h : Held) (o : Outcome Hs Ts (Unit {0}))
      → Ends (IsTyped ids) (IsTyped ids) Any h o
      → IsTyped ids (left o)
  IsTyped-left h (done a w) e = e.1
  IsTyped-left h (stuck w) e = e
  IsTyped-left h (panicked w) e = e.0

  pub round-IsTyped :
      (e : Event) (w : World Hs Ts)
      → IsTypedEvent e
      → IsTyped ids w
      → IsTyped ids (left (round env e w))
  round-IsTyped e w t q = IsTyped-left w.held (round env e w) ((typed_round e t).at w q)

-- The predicates hold of all that `deserialize` returns.
abbrev pub IsTypedEnv : {P F Hs Ts : Type 0} → Env P F Hs Ts → Ids → Type 0
IsTypedEnv env ids =
    (b : Bytes) (msg : Message) → env.deserialize b ≡ some msg → IsTypedMessage ids msg

module _ {P F Hs Ts : Type 0} (env : Env P F Hs Ts) (ids : Ids) (typed : IsTypedEnv env ids) where
  every_event : (e : Event) → IsTypedEvent env ids e
  unfolding decode
  every_event (arrives d) = λ msg e. typed (take 1500 d.bytes) msg (accept-source d.socket _ msg e)
  every_event (hello_due addr) = tt
  every_event ping_due = tt
  every_event monitor_due = tt
  every_event lsa_refresh_due = tt
  every_event sockets_fail = tt
  every_event lsa_cleanup_due = tt
  every_event (time_passes ns s) = tt

  Step-IsTyped : {w v : World Hs Ts} → Step env w v → IsTyped ids w → IsTyped ids v
  Step-IsTyped {w} (returns e r) q =
      subst (λ o. IsTyped ids (left o)) r (round-IsTyped env ids e w (every_event e) q)
  Step-IsTyped {w} (hangs e r) q =
      subst (λ o. IsTyped ids (left o)) r (round-IsTyped env ids e w (every_event e) q)
  Step-IsTyped {w} (dies e r) q =
      subst (λ o. IsTyped ids (left o)) r (round-IsTyped env ids e w (every_event e) q)

  pub Reach-IsTyped : {w v : World Hs Ts} → Reach env w v → IsTyped ids w → IsTyped ids v
  Reach-IsTyped here q = q
  Reach-IsTyped (next r st) q = Step-IsTyped st (Reach-IsTyped r q)
