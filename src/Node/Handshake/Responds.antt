-- ===== src/Node/Handshake/Responds.antt =====
-- The first handshake message that arrives from a peer, in `handle_handshake` of
-- crates/node/src/node.rs.
use swarm_mesh.Prelude.{
  ℕ, ◌<◌, true, [], Option, none, some, Bytes, Result, ok, ltb, ◌≡◌, refl, ◌∙◌, nat_key, arith,
}
use swarm_mesh.HashMap.{get, contains_key}
use swarm_mesh.HashMap.Laws.{get-insert_self}
use swarm_mesh.Mesh.Message.{Message, HandshakePayload, Failure}
use swarm_mesh.Mesh.Peer.{SocketAddr, expecting_initiator, handshaking, transitioning}
use swarm_mesh.Noise.{build_responder}
use swarm_mesh.Node.World.{Env, World, done, none_held, session_lock, acquire, ◌>>=◌}
use swarm_mesh.Node.World.Runs.{if_free}
use swarm_mesh.Node.Handshake.{
  set_noise, handshake_message, respond, advance, with_session, handle_handshake,
}

module _ {P F Hs Ts : Type 0} (env : Env P F Hs Ts) where
  respond-answers :
      (peer : ℕ) (msg : Bytes) (w : World Hs Ts) (st st₁ st₂ : Hs) (out : Bytes)
      → build_responder env.snow w.static_keys w.network_key ≡ ok st
      → env.snow.read_message st msg 1024 ≡ some st₁
      → env.snow.write_message st₁ [] 1024 ≡ some (st₂, out)
      → respond env peer msg w
        ≡ done (ok (some (handshake_message out w))) (set_noise peer (handshaking st₂) w)
  unfolding respond ◌>>=◌
  respond-answers peer msg w st st₁ st₂ out b r o = rw (b, r, o, respond) refl

  with_session-expecting :
      (peer : ℕ) (msg : Bytes) (w : World Hs Ts)
      → get peer w.session_db ≡ some (record { noise = expecting_initiator })
      → with_session env peer msg w ≡ respond env peer msg (set_noise peer transitioning w)
  unfolding with_session advance ◌>>=◌
  with_session-expecting peer msg w g = rw (g, with_session)

  -- Unknown, and with a greater id.
  handle_handshake-new :
      (p : HandshakePayload) (src : SocketAddr) (r : Result Failure (Option Message))
      (v w : World Hs Ts)
      → w.held ≡ none_held
      → get p.node_id w.session_db ≡ none
      → ltb w.id p.node_id ≡ true
      → with_session env p.node_id p.msg (
          set_noise p.node_id expecting_initiator (record w { held = acquire session_lock w.held }))
        ≡ done r v
      → handle_handshake env p src w ≡ done r (record v { held = w.held })
  unfolding handle_handshake contains_key ◌>>=◌
  handle_handshake-new p src r v =
      if_free
        (λ w.
          get p.node_id w.session_db ≡ none
          → ltb w.id p.node_id ≡ true
          → with_session env p.node_id p.msg (
              set_noise p.node_id expecting_initiator
                (record w { held = acquire session_lock w.held }))
            ≡ done r v
          → handle_handshake env p src w ≡ done r (record v { held = w.held }))
        (λ w g l run. rw (g, contains_key, l, run) refl)

  -- The first handshake message of a peer with a greater id that has no session, where no lock is
  -- held: if snow builds a responder, reads the message and writes an answer, the handler returns
  -- the answer and releases its lock, and the session is Handshaking with the state that snow has
  -- reached.
  pub handle_handshake-responds :
      (p : HandshakePayload) (src : SocketAddr) (w : World Hs Ts) (st st₁ st₂ : Hs) (out : Bytes)
      → w.held ≡ none_held
      → get p.node_id w.session_db ≡ none
      → w.id < p.node_id
      → build_responder env.snow w.static_keys w.network_key ≡ ok st
      → env.snow.read_message st p.msg 1024 ≡ some st₁
      → env.snow.write_message st₁ [] 1024 ≡ some (st₂, out)
      → (v : World Hs Ts) × (handle_handshake env p src w
          ≡ done (ok (some (handshake_message out w))) v)
        × (v.held ≡ none_held)
        × (get p.node_id v.session_db ≡ some (record { noise = handshaking st₂ }))
  handle_handshake-responds p src w st st₁ st₂ out free g lt b r o =
      let u =
        set_noise p.node_id expecting_initiator (record w { held = acquire session_lock w.held }) in
      let x = set_noise p.node_id transitioning u in
      (
        record (set_noise p.node_id (handshaking st₂) x) { held = w.held },
        handle_handshake-new p src (ok (some (handshake_message out w)))
            (set_noise p.node_id (handshaking st₂) x) w free g (ground arith)
            (with_session-expecting p.node_id p.msg u (get-insert_self p.node_id _ w.session_db)
              ∙ respond-answers p.node_id p.msg x st st₁ st₂ out b r o),
        free,
        get-insert_self p.node_id _ _,
      )
