-- ===== src/Node/System/Terminates.antt =====
-- Which rounds of a node (crates/node/src/node.rs) return.
use swarm_mesh.Prelude.{
  ℕ, true, false, List, [], ◌∷◌, Option, none, some, Bytes, literal, Result, ok, err, ◌≡◌, refl,
  sym, ◌∙◌, nat_eqb, ltb, nat_key, Option-cases, Bool-cases, inl, inr, ◌⊎◌,
}
use swarm_mesh.Mesh.Message.{
  Message, NodeId, hello, handshake, ping, pong, link_state, encrypted_data, HelloPayload, Failure,
}
use swarm_mesh.Mesh.Peer.{SocketAddr, expecting_initiator, handshaking}
use swarm_mesh.Noise.{noise_params, start_handshake}
use swarm_mesh.Node.World.{
  Env, World, none_held, M, done, stuck, panicked, panic, peer_lock, session_lock, acquire, pure,
  gets, modify, with_lock, ◌>>=◌, ◌>>◌,
}
use swarm_mesh.Node.World.Runs.{with_lock-done, bind-done, bind-stuck, is_held-none_held}
use swarm_mesh.Node.World.Returns.{
  EndsWith, Returns-pure, Returns-gets, Returns-if, Returns-lock, Returns-modify, EndsWith-bind,
  Returns-bind,
}
use swarm_mesh.Node.Ping.{handle_ping, handle_pong}
use swarm_mesh.Node.LinkState.{handle_lsa}
use swarm_mesh.Node.Handshake.{initiate, handle_hello, handle_handshake}
use swarm_mesh.Node.Receive.{
  Datagram, decode, reply, reply_pong, unless_own, on_hello, dispatch, receive,
}
use swarm_mesh.Node.Tasks.{stale_peers, remove_if_any, remove_stale_peers}
use swarm_mesh.Node.Tasks.Stale.{removed, remove_stale_peers-removed}
use swarm_mesh.Node.System.{
  Event, arrives, hello_due, ping_due, monitor_due, lsa_refresh_due, lsa_cleanup_due, time_passes,
  sockets_fail, round,
}
use swarm_mesh.Node.System.Completes.{
  is_some_peer, completes_message, completes_or_removes, Returns-set, ends_handshake,
  stuck_handshake,
}
use swarm_mesh.Node.System.Parts.{
  Frees, Returns-unicast, Returns-handle_ping, Returns-handle_pong, Returns-handle_lsa,
  Returns-broadcast_lsa, Returns-cleanup, Returns-ping_peers, Returns-broadcast,
}

module _ {P F Hs Ts : Type 0} (env : Env P F Hs Ts) where
  Returns-reply :
      {E : Type 0} (r : Result E (Option Message)) (port : ℕ) (src : SocketAddr)
      → Frees (reply env r port src)
  unfolding reply
  Returns-reply (ok (some msg)) port src =
      Returns-bind none_held _ _ (Returns-unicast env none_held msg port src)
        (λ r. Returns-pure none_held tt)
  Returns-reply (ok none) port src = Returns-pure none_held tt
  Returns-reply (err e) port src = Returns-pure none_held tt

  Returns-reply_pong :
      (r : Result Failure (Option (ℕ × Message))) (src : SocketAddr) → Frees (reply_pong env r src)
  unfolding reply_pong
  Returns-reply_pong (ok (some (port, msg))) src =
      Returns-bind none_held _ _ (Returns-unicast env none_held msg port src)
        (λ r. Returns-pure none_held tt)
  Returns-reply_pong (ok none) src = Returns-pure none_held tt
  Returns-reply_pong (err e) src = Returns-pure none_held tt

  ends_unless_own :
      (id : ℕ) (m : M Hs Ts (Unit {0})) (w : World Hs Ts)
      → w.held ≡ none_held
      → (nat_eqb id w.id ≡ false → EndsWith none_held m w)
      → EndsWith none_held (unless_own env id m) w
  unfolding pure
  ends_unless_own id m w q r = elim (Bool-cases (nat_eqb id w.id)) [
    | inl e ↦ rw e (_, _, refl, q)
    | inr e ↦ rw e (r e)
  ]

  Returns-initiate : (peer : NodeId) (r : Result Failure (Hs × Bytes)) → Frees (initiate env peer r)
  unfolding initiate
  Returns-initiate peer (err e) = Returns-pure none_held _
  Returns-initiate peer (ok (st, msg)) =
      Returns-bind none_held _ _
        (Returns-lock none_held session_lock _ refl (Returns-set env _ peer (handshaking st)))
        (λ u. Returns-gets none_held _)

  no_peer : (ids : List NodeId) → is_some_peer env ids ≡ false → ids ≡ []
  no_peer [] c = refl
  no_peer (id ∷ ids) c = absurd cc

  some_peer :
      (ids : List NodeId)
      → is_some_peer env ids ≡ true
      → (id : NodeId) × (rest : List NodeId) × (ids ≡ id ∷ rest)
  some_peer [] c = absurd cc
  some_peer (id ∷ ids) c = (id, ids, refl)

  stuck_dispatch :
      (msg : Message) (src : SocketAddr) (w : World Hs Ts)
      → completes_message env msg w ≡ true
      → w.held ≡ none_held
      → (v : World Hs Ts) × (dispatch env msg src w ≡ stuck v) × (v.held.session ≡ true)
  unfolding dispatch
  stuck_dispatch (handshake p) src w c q =
      let (foreign, (v, run, locked)) = stuck_handshake env p src w c q in
      (v, rw (foreign, dispatch) (bind-stuck (handle_handshake env p src) _ w v run), locked)
  stuck_dispatch (ping p) src w c q = absurd cc
  stuck_dispatch (pong p) src w c q = absurd cc
  stuck_dispatch (hello p) src w c q = absurd cc
  stuck_dispatch (link_state p) src w c q = absurd cc
  stuck_dispatch (encrypted_data bytes) src w c q = absurd cc

module _ {P F Hs Ts : Type 0} (env : Env P F Hs Ts) (params : P)
    (parsed : env.snow.parse_params (literal "Noise_XXpsk3_25519_ChaChaPoly_BLAKE2s")
      ≡ some params) where
  Returns-hello : (p : HelloPayload) (src : SocketAddr) → Frees (handle_hello env p src)
  unfolding handle_hello start_handshake noise_params
  Returns-hello p src = record {
    at = λ w q. elim (Bool-cases (ltb w.id p.node_id)) [
      | inl e ↦ rw e (
          (Returns-bind none_held _ _
              (Returns-lock none_held session_lock _ refl
                (Returns-set env _ p.node_id expecting_initiator))
              (λ u. Returns-pure none_held _)).at
            w q)
      | inr e ↦ rw (e) (rw (parsed) ((Returns-initiate env p.node_id _).at w q))
    ];
  }

  Returns-on_hello : (p : HelloPayload) (src : SocketAddr) → Frees (on_hello env p src)
  unfolding on_hello
  Returns-on_hello p src =
      Returns-bind none_held _ _ (Returns-lock none_held session_lock _ refl (Returns-gets _ _))
        λ known.
          Returns-if none_held known _ _
            (Returns-lock none_held peer_lock _ refl (Returns-modify _ _ (λ w. refl)))
            (Returns-bind none_held _ _ (Returns-hello p src)
              (λ r. Returns-reply env r p.unicast_port src))

  ends_dispatch :
      (msg : Message) (src : SocketAddr) (w : World Hs Ts)
      → completes_message env msg w ≡ false
      → w.held ≡ none_held
      → EndsWith none_held (dispatch env msg src) w
  unfolding dispatch
  ends_dispatch (ping p) src w c q =
      ends_unless_own env p.node_id (handle_ping p >>= λ r. reply_pong env r src) w q (λ e.
        (Returns-bind none_held _ _ (Returns-handle_ping p) (λ r. Returns-reply_pong env r src)).at
          w q)
  ends_dispatch (pong p) src w c q =
      ends_unless_own env p.node_id (handle_pong env p >> pure tt) w q (λ e.
        (Returns-bind none_held _ _ (Returns-handle_pong env p) (λ r. Returns-pure none_held tt)).at
          w q)
  ends_dispatch (hello p) src w c q =
      ends_unless_own env p.node_id (on_hello env p src) w q (λ e. (Returns-on_hello p src).at w q)
  ends_dispatch (handshake p) src w c q =
      ends_unless_own env p.node_id
        (handle_handshake env p src >>= λ r. reply env r p.unicast_port src) w q
        (λ e.
          EndsWith-bind none_held (handle_handshake env p src) _ w
            (ends_handshake env p src w e c q) (λ r. Returns-reply env r p.unicast_port src))
  ends_dispatch (link_state p) src w c q =
      ends_unless_own env p.node_id (handle_lsa env p src >> pure tt) w q (λ e.
        (Returns-bind none_held _ _ (Returns-handle_lsa env p src)
            (λ r. Returns-pure none_held tt)).at
          w q)
  ends_dispatch (encrypted_data bytes) src w c q = (Returns-pure none_held tt).at w q

  ends_receive :
      (d : Datagram) (w : World Hs Ts)
      → completes_or_removes env (arrives d) w ≡ false
      → w.held ≡ none_held
      → EndsWith none_held (receive env d) w
  unfolding receive
  ends_receive d w c q = elim (Option-cases (decode env d)) [
    | inl e ↦ rw (e, receive) ((Returns-pure none_held tt).at w q)
    | inr (msg, e) ↦
        rw (e, receive) (ends_dispatch msg d.src w (sym (rw (e, completes_or_removes) refl) ∙ c) q)
  ]

  ends_remove_stale :
      (w : World Hs Ts)
      → completes_or_removes env monitor_due w ≡ false
      → w.held ≡ none_held
      → EndsWith none_held (remove_stale_peers env) w
  unfolding remove_stale_peers remove_if_any gets pure
  ends_remove_stale w c q =
      let stale = stale_peers w.now w.peer_db in
      let look = with_lock peer_lock (gets (λ w. stale_peers w.now w.peer_db)) in
      let found : look w ≡ done stale w =
        with_lock-done peer_lock (gets (λ w. stale_peers w.now w.peer_db)) w
          (record w { held = acquire peer_lock w.held }) stale
          (is_held-none_held peer_lock w.held q) refl in
      (tt, w, bind-done look (remove_if_any env) w w stale found ∙ rw (no_peer env stale c) refl, q)

  round_returns :
      (e : Event) (w : World Hs Ts)
      → w.held ≡ none_held
      → completes_or_removes env e w ≡ false
      → ((v : World Hs Ts) × (round env e w ≡ done tt v) × (v.held ≡ none_held))
        ⊎ ((e ≡ sockets_fail) × (round env e w ≡ panicked w))
  unfolding round modify panic
  round_returns (arrives d) w q c = let (u, v, e, k) = ends_receive d w c q in inl (v, e, k)
  round_returns (hello_due addr) w q c =
      let (u, v, e, k) = (Returns-broadcast env addr).at w q in inl (v, e, k)
  round_returns ping_due w q c = let (u, v, e, k) = (Returns-ping_peers env).at w q in inl (v, e, k)
  round_returns monitor_due w q c = let (u, v, e, k) = ends_remove_stale w c q in inl (v, e, k)
  round_returns lsa_refresh_due w q c =
      let (u, v, e, k) = (Returns-broadcast_lsa env).at w q in inl (v, e, k)
  round_returns sockets_fail w q c = inr (refl, refl)
  round_returns lsa_cleanup_due w q c = let (u, v, e, k) = Returns-cleanup.at w q in inl (v, e, k)
  round_returns (time_passes ns s) w q c = inl (_, refl, q)

  stuck_receive :
      (d : Datagram) (w : World Hs Ts)
      → completes_or_removes env (arrives d) w ≡ true
      → w.held ≡ none_held
      → (v : World Hs Ts) × (receive env d w ≡ stuck v) × (v.held.session ≡ true)
  unfolding receive
  stuck_receive d w c q = elim (Option-cases (decode env d)) [
    | inl e ↦ let bad : false ≡ true = sym (rw (e, completes_or_removes) refl) ∙ c in absurd cc
    | inr (msg, e) ↦
        rw (e, receive)
          (stuck_dispatch env msg d.src w (sym (rw (e, completes_or_removes) refl) ∙ c) q)
  ]

  stuck_round :
      (e : Event) (w : World Hs Ts)
      → w.held ≡ none_held
      → completes_or_removes env e w ≡ true
      → (v : World Hs Ts) × (round env e w ≡ stuck v) × (v.held.session ≡ true)
  unfolding round
  stuck_round (arrives d) w q c = stuck_receive d w c q
  stuck_round monitor_due w q c =
      let (id, ids, e) = some_peer env (stale_peers w.now w.peer_db) c in
      (removed env (id ∷ ids) w, remove_stale_peers-removed env w id ids q e, refl)
  stuck_round (hello_due addr) w q c = absurd cc
  stuck_round ping_due w q c = absurd cc
  stuck_round lsa_refresh_due w q c = absurd cc
  stuck_round sockets_fail w q c = absurd cc
  stuck_round lsa_cleanup_due w q c = absurd cc
  stuck_round (time_passes ns s) w q c = absurd cc

  -- Where no lock is held, and snow parses the parameters of the handshake: a round that completes a
  -- handshake or removes a stale peer never returns, and the lock of the sessions stays held; any
  -- other round returns, and no lock is held, but for the one in which both sockets fail: that one
  -- panics and changes nothing.
  pub round_lem :
      (e : Event) (w : World Hs Ts)
      → w.held ≡ none_held
      → ((completes_or_removes env e w ≡ true)
          × ((v : World Hs Ts) × (round env e w ≡ stuck v) × (v.held.session ≡ true)))
        ⊎ ((completes_or_removes env e w ≡ false)
            × (((v : World Hs Ts) × (round env e w ≡ done tt v) × (v.held ≡ none_held))
                ⊎ ((e ≡ sockets_fail) × (round env e w ≡ panicked w))))
  round_lem e w q = elim (Bool-cases (completes_or_removes env e w)) [
    | inl c ↦ inl (c, stuck_round e w q c)
    | inr c ↦ inr (c, round_returns e w q c)
  ]
