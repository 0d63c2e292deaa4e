-- ===== src/Node/Order/Rounds.antt =====
-- Every task of a node (crates/node/src/node.rs, apps/node/src/main.rs) takes its locks in one order.
use swarm_mesh.Prelude.{
  ℕ, List, [], ◌∷◌, Option, none, some, Result, ok, err, ◌≡◌, refl, sym, ap, ◌∙◌, subst, ◌⊎◌,
  nat_eqb, Option-cases, Bool-cases, inl, inr,
}
use swarm_mesh.Mesh.Message.{
  Message, hello, handshake, ping, pong, link_state, encrypted_data, HelloPayload, Failure,
}
use swarm_mesh.Mesh.Peer.{SocketAddr}
use swarm_mesh.Node.World.{
  Env, Held, none_held, acquire, World, Outcome, done, panicked, stuck, M, peer_lock, session_lock,
}
use swarm_mesh.Node.World.Keeps.{Any}
use swarm_mesh.Node.Receive.{
  Datagram, decode, reply, reply_pong, unless_own, on_hello, dispatch, receive,
}
use swarm_mesh.Node.Tasks.{broadcast, remove_peers, remove_if_any, remove_stale_peers}
use swarm_mesh.Node.System.{
  Event, arrives, hello_due, ping_due, monitor_due, lsa_refresh_due, lsa_cleanup_due, time_passes,
  sockets_fail, round,
}
use swarm_mesh.Node.Order.{IsOrdered}
use swarm_mesh.Node.Order.Climbs.{
  Stops, Climbs-panic, Climbs-pure, Climbs-gets, Climbs-if, Climbs-lock, Climbs-modify, Climbs-bind,
}
use swarm_mesh.Node.Order.Parts.{
  Starts, Climbs-unicast, Climbs-multicast, Climbs-handle_ping, Climbs-handle_pong,
  Climbs-ping_peers,
}
use swarm_mesh.Node.Order.Adverts.{
  Climbs-cleanup, Climbs-broadcast_lsa, Climbs-broadcast_self, Climbs-handle_lsa,
}
use swarm_mesh.Node.Order.Handshakes.{Climbs-handle_hello, Climbs-handle_handshake}

module _ {Hs Ts : Type 0} where
  Stops-IsOrdered :
      (theirs : Held) (u : World Hs Ts) (o : Outcome Hs Ts (Unit {0}))
      → Stops Any none_held theirs o (done tt u)
      → (o ≡ done tt (record u { held = theirs }))
        ⊎ ((v : World Hs Ts) × (o ≡ stuck v) × IsOrdered theirs v)
  Stops-IsOrdered theirs u (done tt v) (r, held, same, world) = inl (
      ap (λ h. done tt (record v { held = h })) held
      ∙ ap (λ x. done tt (record x { held = theirs })) (sym world))
  Stops-IsOrdered theirs u (stuck v) i = inr (v, refl, i)
  Stops-IsOrdered theirs u (panicked v) never = absurd never

module _ {P F Hs Ts : Type 0} (env : Env P F Hs Ts) where
  Climbs-reply :
      {E : Type 0} (r : Result E (Option Message)) (port : ℕ) (src : SocketAddr)
      → Starts (reply env r port src)
  unfolding reply
  Climbs-reply (ok (some msg)) port src =
      Climbs-bind none_held _ _ (Climbs-unicast env none_held msg port src)
        (λ r _. Climbs-pure none_held tt tt)
  Climbs-reply (ok none) port src = Climbs-pure none_held tt tt
  Climbs-reply (err e) port src = Climbs-pure none_held tt tt

  Climbs-reply_pong :
      (r : Result Failure (Option (ℕ × Message))) (src : SocketAddr) → Starts (reply_pong env r src)
  unfolding reply_pong
  Climbs-reply_pong (ok (some (port, msg))) src =
      Climbs-bind none_held _ _ (Climbs-unicast env none_held msg port src)
        (λ r _. Climbs-pure none_held tt tt)
  Climbs-reply_pong (ok none) src = Climbs-pure none_held tt tt
  Climbs-reply_pong (err e) src = Climbs-pure none_held tt tt

  Climbs-on_hello : (p : HelloPayload) (src : SocketAddr) → Starts (on_hello env p src)
  unfolding on_hello
  Climbs-on_hello p src =
      Climbs-bind {R = Any} none_held _ _
        (Climbs-lock none_held session_lock _ refl refl (Climbs-gets _ _ (λ w h. refl) (λ w. tt)))
        λ known _.
          Climbs-if none_held known _ _
            (Climbs-lock none_held peer_lock _ refl refl
              (Climbs-modify _ _ (λ w. refl) (λ w h. refl)))
            (Climbs-bind none_held _ _ (Climbs-handle_hello env p src)
              (λ r _. Climbs-reply r p.unicast_port src))

  Climbs-unless_own : (id : ℕ) (m : M Hs Ts (Unit {0})) → Starts m → Starts (unless_own env id m)
  Climbs-unless_own id m c = record {
    at = λ w theirs q. elim (Bool-cases (nat_eqb id w.id)) [
      | inl e ↦ rw e ((Climbs-pure {R = Any} none_held tt tt).at w theirs q)
      | inr e ↦ rw e (c.at w theirs q)
    ];
  }

  Climbs-dispatch : (msg : Message) (src : SocketAddr) → Starts (dispatch env msg src)
  unfolding dispatch
  Climbs-dispatch (ping p) src =
      Climbs-unless_own p.node_id _
        (Climbs-bind none_held _ _ (Climbs-handle_ping p) (λ r _. Climbs-reply_pong r src))
  Climbs-dispatch (pong p) src =
      Climbs-unless_own p.node_id _
        (Climbs-bind none_held _ _ (Climbs-handle_pong env p) (λ r _. Climbs-pure none_held tt tt))
  Climbs-dispatch (hello p) src = Climbs-unless_own p.node_id _ (Climbs-on_hello p src)
  Climbs-dispatch (handshake p) src = Climbs-unless_own p.node_id _ (
      Climbs-bind none_held _ _ (Climbs-handle_handshake env p src)
        (λ r _. Climbs-reply r p.unicast_port src))
  Climbs-dispatch (link_state p) src =
      Climbs-unless_own p.node_id _ (
        Climbs-bind none_held _ _ (Climbs-handle_lsa env p src)
          (λ r _. Climbs-pure none_held tt tt))
  Climbs-dispatch (encrypted_data bytes) src = Climbs-pure none_held tt tt

  Climbs-receive : (d : Datagram) → Starts (receive env d)
  unfolding receive
  Climbs-receive d = elim (Option-cases (decode env d)) [
    | inl e ↦ rw (e, receive) (Climbs-pure none_held tt tt)
    | inr (msg, e) ↦ rw (e, receive) (Climbs-dispatch msg d.src)
  ]

  -- The removal of stale peers waits for the lock of the sessions that it holds.
  Climbs-remove_if_any : (ids : List ℕ) → Starts (remove_if_any env ids)
  unfolding remove_if_any remove_peers
  Climbs-remove_if_any [] = Climbs-pure none_held tt tt
  Climbs-remove_if_any (id ∷ ids) =
      let inner : Held = acquire session_lock (acquire peer_lock none_held) in
      Climbs-lock none_held peer_lock _ refl refl (
        Climbs-lock _ session_lock _ refl refl (
          Climbs-bind inner _ _ (Climbs-modify inner _ (λ w. refl) (λ w h. refl)) λ u _.
            Climbs-bind inner _ _ (Climbs-modify inner _ (λ w. refl) (λ w h. refl))
              λ u _. Climbs-broadcast_self env Any inner refl refl refl))

  Climbs-remove_stale : Starts (remove_stale_peers env)
  unfolding remove_stale_peers
  Climbs-remove_stale =
      Climbs-bind {R = Any} none_held _ _
        (Climbs-lock none_held peer_lock _ refl refl (Climbs-gets _ _ (λ w h. refl) (λ w. tt)))
        (λ ids _. Climbs-remove_if_any ids)

  Climbs-round : (e : Event) → Starts (round env e)
  unfolding round broadcast
  Climbs-round (arrives d) = Climbs-receive d
  Climbs-round (hello_due addr) = record {
    at = λ w theirs q.
        (Climbs-bind {T = Any} none_held _ _ (Climbs-multicast env none_held _ addr)
            (λ r _. Climbs-pure none_held tt tt)).at
          w theirs q;
  }
  Climbs-round ping_due = Climbs-ping_peers env
  Climbs-round monitor_due = Climbs-remove_stale
  Climbs-round lsa_refresh_due = Climbs-broadcast_lsa env
  Climbs-round sockets_fail = Climbs-panic none_held
  Climbs-round lsa_cleanup_due = Climbs-cleanup
  Climbs-round (time_passes ns s) = Climbs-modify none_held _ (λ w. refl) (λ w h. refl)

  -- A round that returns when no lock is held, begun while other tasks hold some locks: it returns the
  -- same world, but for the locks that are held, or it is blocked at one of theirs, and that lock comes
  -- after all the locks that the round holds itself, in the order peers, sessions, pings, sequence
  -- number, advertisements.
  pub round-IsOrdered :
      (e : Event) (w u : World Hs Ts)
      → round env e (record w { held = none_held }) ≡ done tt u
      → (round env e w ≡ done tt (record u { held = w.held }))
        ⊎ ((v : World Hs Ts) × (round env e w ≡ stuck v) × IsOrdered w.held v)
  round-IsOrdered e w u returned = Stops-IsOrdered w.held u (round env e w) (
      subst (Stops Any none_held w.held (round env e w)) returned
        ((Climbs-round e).at w w.held refl))
