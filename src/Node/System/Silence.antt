-- ===== src/Node/System/Silence.antt =====
-- Every round of a node (crates/node/src/node.rs) keeps the invariant of Quiet, so every reachable
-- state has it.
use swarm_mesh.Prelude.{
  ℕ, false, List, [], ◌∷◌, Option, none, some, Result, ok, err, ◌≡◌, refl, subst, nat_eqb,
  Option-cases, Bool-cases, inl, inr,
}
use swarm_mesh.Mesh.Message.{
  Message, hello, handshake, ping, pong, link_state, encrypted_data, HelloPayload, PingPongPayload,
}
use swarm_mesh.Mesh.Peer.{SocketAddr}
use swarm_mesh.Node.World.{Env, World, M, peer_lock, ping_lock}
use swarm_mesh.Node.World.Keeps.{
  Any, Ends, Keeps-pure, Keeps-panic, Keeps-gets, Keeps-bind, Keeps-modify, Keeps-if,
}
use swarm_mesh.Node.Ping.{
  can_take_ping, handle_ping, can_take_pong, can_take_pong_of, handle_pong, clean_stale_pings,
}
use swarm_mesh.Node.Receive.{
  Datagram, decode, reply, reply_pong, unless_own, on_hello, dispatch, receive,
}
use swarm_mesh.Node.Tasks.{
  broadcast, ping_each, ping_peers, remove_peers, remove_if_any, remove_stale_peers,
}
use swarm_mesh.Node.Handshake.Deadlock.{broadcast_lsa-stuck_any}
use swarm_mesh.Node.System.{
  Event, arrives, hello_due, ping_due, monitor_due, lsa_refresh_due, lsa_cleanup_due, time_passes,
  sockets_fail, round, Step, returns, hangs, dies, Reach, here, next,
}
use swarm_mesh.Node.System.Quiet.{IsQuiet, NoTransport-remove_each, has_transport-NoTransport}
use swarm_mesh.Node.System.Shared.{
  KeepsQuiet, quiet_lock, quiet_session_lock, quiet_read, quiet_send_unicast, quiet_send_multicast,
  quiet_neighbors, quiet_broadcast, quiet_handle_lsa, quiet_cleanup,
}
use swarm_mesh.Node.System.Handlers.{RepliesDiscovery, quiet_hello, quiet_handshake}

module _ {Hs Ts : Type 0} where
  quiet_can_take_ping :
      (p : PingPongPayload) → KeepsQuiet {Hs = Hs} {Ts = Ts} (λ b. b ≡ false) (can_take_ping p)
  unfolding can_take_ping
  quiet_can_take_ping p =
      Keeps-bind _ _ (quiet_lock peer_lock _ (λ h. refl) (Keeps-gets {R = Any} _ (λ w q. tt)))
        λ known _.
          Keeps-if known _ _
            (quiet_read _ (λ w n. has_transport-NoTransport p.node_id w.session_db n))
            (Keeps-pure false refl)

  quiet_handle_ping :
      (p : PingPongPayload) → KeepsQuiet {Hs = Hs} {Ts = Ts} (λ r. r ≡ ok none) (handle_ping p)
  unfolding handle_ping
  quiet_handle_ping p =
      Keeps-bind _ _ (quiet_can_take_ping p) (λ b e. rw e (Keeps-pure (ok none) refl))

  quiet_can_take_pong_of :
      (p : PingPongPayload) → KeepsQuiet {Hs = Hs} {Ts = Ts} (λ r. r ≡ none) (can_take_pong_of p)
  unfolding can_take_pong_of
  quiet_can_take_pong_of p =
      Keeps-bind _ _
        (quiet_read {R = λ b. b ≡ false} _
          (λ w n. has_transport-NoTransport p.node_id w.session_db n))
        (λ b e. rw e (Keeps-pure none refl))

  quiet_can_take_pong :
      (p : PingPongPayload) → KeepsQuiet {Hs = Hs} {Ts = Ts} (λ r. r ≡ none) (can_take_pong p)
  unfolding can_take_pong
  quiet_can_take_pong p =
      Keeps-bind _ _ (quiet_lock peer_lock _ (λ h. refl) (Keeps-gets {R = Any} _ (λ w q. tt)))
        (λ known _. Keeps-if known _ _ (quiet_can_take_pong_of p) (Keeps-pure none refl))

  quiet_clean : KeepsQuiet {Hs = Hs} {Ts = Ts} Any clean_stale_pings
  unfolding clean_stale_pings
  quiet_clean = quiet_lock ping_lock _ (λ h. refl) (Keeps-modify _ (λ w p. (p, refl)))

module _ {P F Hs Ts : Type 0} (env : Env P F Hs Ts) where
  quiet_handle_pong : (p : PingPongPayload) → KeepsQuiet Any (handle_pong env p)
  unfolding handle_pong
  quiet_handle_pong p = Keeps-bind _ _ (quiet_can_take_pong p) (λ r e. rw e (Keeps-pure (ok tt) tt))

  quiet_reply :
      {E : Type 0} (r : Result E (Option Message)) (port : ℕ) (src : SocketAddr)
      → RepliesDiscovery r
      → KeepsQuiet Any (reply env r port src)
  unfolding reply
  quiet_reply (ok (some msg)) port src d =
      Keeps-bind _ _ (quiet_send_unicast env msg port src d) (λ _ _. Keeps-pure tt tt)
  quiet_reply (ok none) port src d = Keeps-pure tt tt
  quiet_reply (err e) port src d = Keeps-pure tt tt

  quiet_on_hello : (p : HelloPayload) (src : SocketAddr) → KeepsQuiet Any (on_hello env p src)
  unfolding on_hello
  quiet_on_hello p src = Keeps-bind _ _ (quiet_read {R = Any} _ (λ w n. tt)) λ known _.
      Keeps-if known _ _ (quiet_lock peer_lock _ (λ h. refl) (Keeps-modify _ (λ w q. (q, refl))))
        (Keeps-bind _ _ (quiet_hello env p src) (λ r d. quiet_reply r p.unicast_port src d))

  quiet_unless_own :
      (id : ℕ) (m : M Hs Ts (Unit {0})) → KeepsQuiet Any m → KeepsQuiet Any (unless_own env id m)
  quiet_unless_own id m k = record {
    at = λ w q. elim (Bool-cases (nat_eqb id w.id)) [
      | inl e ↦ rw e ((Keeps-pure tt tt).at w q)
      | inr e ↦ rw e (k.at w q)
    ];
  }

  quiet_dispatch : (msg : Message) (src : SocketAddr) → KeepsQuiet Any (dispatch env msg src)
  unfolding dispatch reply_pong
  quiet_dispatch (ping p) src =
      quiet_unless_own p.node_id _
        (Keeps-bind _ _ (quiet_handle_ping p) (λ r e. rw e (Keeps-pure tt tt)))
  quiet_dispatch (pong p) src =
      quiet_unless_own p.node_id _ (Keeps-bind _ _ (quiet_handle_pong p) (λ r _. Keeps-pure tt tt))
  quiet_dispatch (hello p) src = quiet_unless_own p.node_id _ (quiet_on_hello p src)
  quiet_dispatch (handshake p) src =
      quiet_unless_own p.node_id _
        (Keeps-bind _ _ (quiet_handshake env p src) (λ r d. quiet_reply r p.unicast_port src d))
  quiet_dispatch (link_state p) src =
      quiet_unless_own p.node_id _
        (Keeps-bind _ _ (quiet_handle_lsa env p src) (λ r _. Keeps-pure tt tt))
  quiet_dispatch (encrypted_data bytes) src = Keeps-pure tt tt

  quiet_receive : (d : Datagram) → KeepsQuiet Any (receive env d)
  unfolding receive
  quiet_receive d = elim (Option-cases (decode env d)) [
    | inl e ↦ rw (e, receive) (Keeps-pure tt tt)
    | inr (msg, e) ↦ rw (e, receive) (quiet_dispatch msg d.src)
  ]

  quiet_ping_peers : KeepsQuiet Any (ping_peers env)
  unfolding ping_peers ping_each
  quiet_ping_peers = Keeps-bind _ _ (Keeps-modify _ (λ w q. (q, refl))) λ _ _.
      Keeps-bind _ _ quiet_clean λ _ _.
        Keeps-bind _ _ quiet_neighbors
          λ xs e. Keeps-bind _ _ (Keeps-gets {R = Any} _ (λ w q. tt)) λ s _. rw e (Keeps-pure tt tt)

  -- The removal of stale peers does not return.
  quiet_remove_peers : (ids : List ℕ) → KeepsQuiet Any (remove_peers env ids)
  unfolding remove_peers
  quiet_remove_peers ids =
      quiet_lock peer_lock _ (λ h. refl)
        (quiet_session_lock _ (
          Keeps-bind _ _ (Keeps-modify _ (λ w q. (q, refl))) λ _ _.
            Keeps-bind _ _
              (Keeps-modify _
                (λ w q. ((q.0, NoTransport-remove_each ids w.session_db q.1, q.2), refl)))
              λ _ _. record {
                at = λ w q.
                    let (v, b, sent, held) = broadcast_lsa-stuck_any env w q.2 in
                    rw (b) (rw (sent, held) (q.0, inr q.2));
              }))

  quiet_remove_if_any : (ids : List ℕ) → KeepsQuiet Any (remove_if_any env ids)
  unfolding remove_if_any
  quiet_remove_if_any [] = Keeps-pure tt tt
  quiet_remove_if_any (id ∷ ids) = quiet_remove_peers (id ∷ ids)

  quiet_remove_stale : KeepsQuiet Any (remove_stale_peers env)
  unfolding remove_stale_peers
  quiet_remove_stale =
      Keeps-bind _ _ (quiet_lock peer_lock _ (λ h. refl) (Keeps-gets {R = Any} _ (λ w q. tt)))
        (λ ids _. quiet_remove_if_any ids)

  quiet_round : (e : Event) → KeepsQuiet Any (round env e)
  unfolding round broadcast
  quiet_round (arrives d) = quiet_receive d
  quiet_round (hello_due addr) = record {
    at = λ w q.
        (Keeps-bind _ _ (quiet_send_multicast env _ addr tt) (λ _ _. Keeps-pure tt tt)).at w q;
  }
  quiet_round ping_due = quiet_ping_peers
  quiet_round monitor_due = quiet_remove_stale
  quiet_round lsa_refresh_due = quiet_broadcast env
  quiet_round sockets_fail = Keeps-panic
  quiet_round lsa_cleanup_due = quiet_cleanup
  quiet_round (time_passes ns s) = Keeps-modify _ (λ w q. (q, refl))

  pub Step-IsQuiet : {w v : World Hs Ts} → Step env w v → IsQuiet w → IsQuiet v
  Step-IsQuiet {w} (returns e r) q =
      (subst (Ends IsQuiet IsQuiet Any w.held) r ((quiet_round e).at w q)).1
  Step-IsQuiet {w} (hangs e r) q =
      subst (Ends IsQuiet IsQuiet Any w.held) r ((quiet_round e).at w q)
  Step-IsQuiet {w} (dies e r) q =
      (subst (Ends IsQuiet IsQuiet Any w.held) r ((quiet_round e).at w q)).0

  -- In every state that a node reaches from one in which it has sent nothing but Hello and
  -- handshake messages and no session is in transport mode, whatever arrives and in whatever order
  -- its tasks run: it has still sent nothing but Hello and handshake messages (no ping, no pong, no
  -- link state advertisement), and there is a session in transport mode only while the lock of the
  -- sessions is held.
  pub Reach-IsQuiet : {w v : World Hs Ts} → Reach env w v → IsQuiet w → IsQuiet v
  Reach-IsQuiet here q = q
  Reach-IsQuiet (next r st) q = Step-IsQuiet st (Reach-IsQuiet r q)
