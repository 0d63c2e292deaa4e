-- ===== src/Node/Handshake/Wedge.antt =====
-- Handshakes that fail in `handle_handshake` of crates/node/src/node.rs: `mem::replace` has left
-- `Transitioning` in the session, and the error returns before anything else is put there.
use swarm_mesh.Prelude.{ℕ, true, Option, none, some, Bytes, Result, err, ◌≡◌, refl, ◌∙◌, nat_key}
use swarm_mesh.HashMap.{get, contains_key, modify_or_insert}
use swarm_mesh.HashMap.Laws.{get-insert_self, contains_key-get}
use swarm_mesh.Mesh.Message.{
  Message, HelloPayload, HandshakePayload, Failure, unable_to_read, unexpected_noise_state,
}
use swarm_mesh.Mesh.Peer.{
  SocketAddr, NoiseState, expecting_initiator, handshaking, transport, transitioning, PeerSession,
  new_peer, update_peer,
}
use swarm_mesh.Node.World.{Env, World, done, none_held, session_lock, acquire, set_peer_db, ◌>>=◌}
use swarm_mesh.Node.World.Runs.{if_free, is_held-none_held, with_lock-done}
use swarm_mesh.Node.Handshake.{set_noise, proceed, advance, with_session, handle_handshake}
use swarm_mesh.Node.Handshake.Deadlock.{with_session-handshaking}
use swarm_mesh.Node.Receive.{on_hello}

module _ {P F Hs Ts : Type 0} (env : Env P F Hs Ts) where
  handle_handshake-with_session :
      (p : HandshakePayload) (src : SocketAddr) (w v : World Hs Ts) (s : PeerSession Hs Ts)
      (r : Result Failure (Option Message))
      → w.held ≡ none_held
      → get p.node_id w.session_db ≡ some s
      → with_session env p.node_id p.msg (record w { held = acquire session_lock w.held })
        ≡ done r v
      → handle_handshake env p src w ≡ done r (record v { held = w.held })
  unfolding handle_handshake
  handle_handshake-with_session p src w v s r free g run =
      with_lock-done session_lock _ w v r (is_held-none_held session_lock w.held free)
        (rw (contains_key-get p.node_id s w.session_db g) run)

  -- The session `noise` of a peer, put back by the branch for an unexpected message.
  abbrev pub put_back : ℕ → NoiseState Hs Ts → World Hs Ts → World Hs Ts
  put_back peer noise w = set_noise peer noise (set_noise peer transitioning w)

  -- No handshake message is taken in such a state.
  abbrev pub IsSettled : NoiseState Hs Ts → Type 0
  IsSettled expecting_initiator = ⊥
  IsSettled (handshaking st) = ⊥
  IsSettled (transport ts) = Unit {0}
  IsSettled transitioning = Unit {0}

  advance-settled :
      (peer : ℕ) (msg : Bytes) (noise : NoiseState Hs Ts) (w : World Hs Ts)
      → IsSettled noise
      → advance env peer msg noise w ≡ done (err unexpected_noise_state) (set_noise peer noise w)
  unfolding advance ◌>>=◌
  advance-settled peer msg (transport ts) w i = refl
  advance-settled peer msg transitioning w i = refl
  advance-settled peer msg expecting_initiator w i = absurd i
  advance-settled peer msg (handshaking st) w i = absurd i

  with_session-settled :
      (peer : ℕ) (msg : Bytes) (noise : NoiseState Hs Ts) (w : World Hs Ts)
      → IsSettled noise
      → get peer w.session_db ≡ some (record { noise = noise })
      → with_session env peer msg w ≡ done (err unexpected_noise_state) (put_back peer noise w)
  unfolding with_session ◌>>=◌
  with_session-settled peer msg noise w i g =
      rw (g, with_session) (advance-settled peer msg noise (set_noise peer transitioning w) i)

  -- Where no lock is held, a handshake message of a peer whose session is in transport mode or
  -- `Transitioning` is an error, the session stays in its state, and nothing is sent.
  pub handle_handshake-settled :
      (p : HandshakePayload) (src : SocketAddr) (noise : NoiseState Hs Ts) (w : World Hs Ts)
      → w.held ≡ none_held
      → IsSettled noise
      → get p.node_id w.session_db ≡ some (record { noise = noise })
      → (v : World Hs Ts) × (handle_handshake env p src w ≡ done (err unexpected_noise_state) v)
        × (v.held ≡ none_held)
        × (v.sent ≡ w.sent)
        × (get p.node_id v.session_db ≡ some (record { noise = noise }))
  handle_handshake-settled p src noise w free i g =
      let u = record w { held = acquire session_lock w.held } in
      (
        put_back p.node_id noise w,
        handle_handshake-with_session p src w (put_back p.node_id noise u) _ _ free g
            (with_session-settled p.node_id p.msg noise u i g),
        free,
        refl,
        get-insert_self p.node_id _ _,
      )

  on_hello-known :
      (h : HelloPayload) (src : SocketAddr) (w : World Hs Ts)
      → w.held ≡ none_held
      → contains_key h.node_id w.session_db ≡ true
      → on_hello env h src w
        ≡ done tt (
            set_peer_db
              (modify_or_insert h.node_id
                (update_peer w.now src h.unicast_port)
                (new_peer w.now src h.unicast_port)
                w.peer_db)
              w)
  unfolding on_hello ◌>>=◌
  on_hello-known h src =
      if_free
        (λ w.
          contains_key h.node_id w.session_db ≡ true
          → on_hello env h src w
            ≡ done tt (
                set_peer_db
                  (modify_or_insert h.node_id (update_peer w.now src h.unicast_port)
                    (new_peer w.now src h.unicast_port) w.peer_db)
                  w))
        (λ w c. rw c)

  proceed-unreadable :
      (peer : ℕ) (msg : Bytes) (st : Hs) (w : World Hs Ts)
      → env.snow.read_message st msg 1024 ≡ none
      → proceed env peer msg st w ≡ done (err unable_to_read) w
  unfolding proceed ◌>>=◌
  proceed-unreadable peer msg st w e = rw (e, proceed)

  -- One handshake message that snow cannot read, where no lock is held, spoils a session that
  -- is `Handshaking`: the handler returns the error and leaves the session `Transitioning`. Whatever
  -- handshake message of that sender comes next is an error and leaves it so, and if a Hello of that
  -- sender comes next, it changes no session and nothing is sent.
  pub handle_handshake-unreadable :
      (p : HandshakePayload) (src : SocketAddr) (st : Hs) (w : World Hs Ts) (msg : Bytes)
      (port hello_port : ℕ) (from : SocketAddr)
      → w.held ≡ none_held
      → get p.node_id w.session_db ≡ some (record { noise = handshaking st })
      → env.snow.read_message st p.msg 1024 ≡ none
      → let again : HandshakePayload = record {
        msg = msg;
        node_id = p.node_id;
        unicast_port = port;
      } in
        let hello : HelloPayload = record { node_id = p.node_id; unicast_port = hello_port } in
        (v : World Hs Ts) × (handle_handshake env p src w ≡ done (err unable_to_read) v)
        × (get p.node_id v.session_db ≡ some (record { noise = transitioning }))
        × ((u : World Hs Ts) × (handle_handshake env again from v
              ≡ done (err unexpected_noise_state) u)
            × (u.sent ≡ v.sent)
            × (get p.node_id u.session_db ≡ some (record { noise = transitioning })))
        × ((u : World Hs Ts) × (on_hello env hello from v ≡ done tt u)
            × (u.sent ≡ v.sent)
            × (u.session_db ≡ v.session_db))
  handle_handshake-unreadable p src st w msg port hello_port from free g e =
      let u = record w { held = acquire session_lock w.held } in
      let v = set_noise p.node_id transitioning w in
      let left : get p.node_id v.session_db ≡ some (record { noise = transitioning }) =
        get-insert_self p.node_id _ w.session_db in
      let again : HandshakePayload = record {
        msg = msg;
        node_id = p.node_id;
        unicast_port = port;
      } in
      let (r, run, held, sent, kept) =
        handle_handshake-settled again from transitioning v free tt left in
      (
        v,
        handle_handshake-with_session p src w (set_noise p.node_id transitioning u) _ _ free g (
            with_session-handshaking env u p.node_id p.msg st g
            ∙ proceed-unreadable p.node_id p.msg st (set_noise p.node_id transitioning u) e),
        left,
        (r, run, sent, kept),
        (
          _,
          on_hello-known (record { node_id = p.node_id; unicast_port = hello_port }) from v free
              (contains_key-get p.node_id _ v.session_db left),
          refl,
          refl,
        ),
      )
