-- ===== src/Node/System/Handlers.antt =====
-- The invariant of Quiet, kept by the handlers of Hello, handshake, ping and pong messages.
use swarm_mesh.Prelude.{
  false, [], Option, none, some, Bytes, Result, ok, err, ◌≡◌, refl, ltb, nat_key, Option-cases,
  Bool-cases, Result-cases, inl, inr,
}
use swarm_mesh.HashMap.{get, contains_key}
use swarm_mesh.Mesh.Message.{NodeId, Message, HelloPayload, HandshakePayload, Failure}
use swarm_mesh.Mesh.Peer.{
  SocketAddr, NoiseState, expecting_initiator, handshaking, transport, transitioning, is_transport,
}
use swarm_mesh.Noise.{start_handshake, build_responder}
use swarm_mesh.Node.World.{Env, M, gets, modify, pure, ◌>>=◌, ◌>>◌}
use swarm_mesh.Node.World.Keeps.{
  Any, Keeps, Keeps-pure, Keeps-gets, Keeps-bind, Keeps-modify, Keeps-panic,
}
use swarm_mesh.Node.Handshake.Deadlock.{broadcast_lsa-stuck_any}
use swarm_mesh.Node.Handshake.{
  set_noise, handshake_message, initiate, handle_hello, finish, respond, proceed, advance,
  with_session, handle_handshake,
}
use swarm_mesh.Node.System.Quiet.{
  IsDiscovery, IsQuiet, IsQuietInside, NoTransport-insert, get-NoTransport,
}
use swarm_mesh.Node.System.Shared.{KeepsQuiet, quiet_session_lock}

-- A handler that returns a message returns a Hello or a handshake message.
abbrev pub RepliesDiscovery : {E : Type 0} → Result E (Option Message) → Type 0
RepliesDiscovery (ok (some msg)) = IsDiscovery msg
RepliesDiscovery (ok none) = Unit
RepliesDiscovery (err e) = Unit

module _ {Hs Ts : Type 0} where
  -- A run inside the lock of the sessions.
  abbrev KeepsInside : {A : Type 0} → (A → Type 0) → M Hs Ts A → Type 0
  KeepsInside R m = Keeps IsQuietInside IsQuiet R m

  inside_set_noise :
      (id : NodeId) (n : NoiseState Hs Ts)
      → is_transport n ≡ false
      → KeepsInside Any (modify (set_noise id n))
  inside_set_noise id n e =
      Keeps-modify _ λ w q. ((q.0, NoTransport-insert id _ w.session_db e q.1, q.2), refl)

module _ {P F Hs Ts : Type 0} (env : Env P F Hs Ts) where
  quiet_initiate :
      (peer : NodeId) (r : Result Failure (Hs × Bytes))
      → KeepsQuiet RepliesDiscovery (initiate env peer r)
  unfolding initiate
  quiet_initiate peer (err e) = Keeps-pure _ tt
  quiet_initiate peer (ok (st, msg)) =
      Keeps-bind _ _ (quiet_session_lock _ (inside_set_noise peer (handshaking st) refl))
        λ _ _. Keeps-gets _ (λ w p. tt)

  pub quiet_hello :
      (p : HelloPayload) (src : SocketAddr) → KeepsQuiet RepliesDiscovery (handle_hello env p src)
  unfolding handle_hello
  quiet_hello p src = record {
    at = λ w q. elim (Bool-cases (ltb w.id p.node_id)) [
      | inl e ↦ rw e (
          (Keeps-bind _ _
              (quiet_session_lock _ (inside_set_noise p.node_id expecting_initiator refl))
              (λ _ _. Keeps-pure _ tt)).at
            w q)
      | inr e ↦ rw e (elim (Option-cases (start_handshake env.snow w.static_keys w.network_key)) [
        | inl g ↦ rw g (Keeps-panic.at w q)
        | inr (r, g) ↦ rw g ((quiet_initiate p.node_id r).at w q)
      ])
    ];
  }

  -- A handshake that is finished does not return.
  inside_finish :
      (peer : NodeId) (st : Hs) (reply : Option Message)
      → KeepsInside RepliesDiscovery (finish env peer st reply)
  unfolding finish ◌>>=◌
  inside_finish peer st reply = record {
    at = λ w q. elim (Option-cases (env.snow.into_transport_mode st)) [
      | inl e ↦ rw (e, finish) (tt, q, refl)
      | inr (ts, e) ↦
          let (v, b, sent, held) =
            broadcast_lsa-stuck_any env (set_noise peer (transport ts) w) q.2 in
          rw (e, finish, b) (rw (sent, held) (q.0, inr q.2))
    ];
  }

  -- The answer to a message that does not end the handshake.
  inside_answer :
      (peer : NodeId) (st : Hs) (out : Bytes)
      → KeepsInside {Hs = Hs} {Ts = Ts} {A = Result Failure (Option Message)} RepliesDiscovery (
          modify (set_noise peer (handshaking st))
          >> gets (λ v. ok (some (handshake_message out v))))
  inside_answer peer st out =
      Keeps-bind _ _ (inside_set_noise peer (handshaking st) refl) (λ _ _. Keeps-gets _ (λ w p. tt))

  inside_respond :
      (peer : NodeId) (msg : Bytes) → KeepsInside RepliesDiscovery (respond env peer msg)
  unfolding respond pure
  inside_respond peer msg = record {
    at = λ w q. elim (Result-cases (build_responder env.snow w.static_keys w.network_key)) [
      | inl (f, e) ↦ rw (e, respond) (tt, q, refl)
      | inr (st, e) ↦ elim (Option-cases (env.snow.read_message st msg 1024)) [
        | inl f ↦ rw (e, respond, f) (tt, q, refl)
        | inr (st₁, f) ↦ elim (Option-cases (env.snow.write_message st₁ [] 1024)) [
          | inl g ↦ rw (e, respond, f, g) (tt, q, refl)
          | inr (r, g) ↦ rw (e, respond, f, g) ((inside_answer peer r.0 r.1).at w q)
        ]
      ]
    ];
  }

  inside_proceed :
      (peer : NodeId) (msg : Bytes) (st : Hs)
      → KeepsInside RepliesDiscovery (proceed env peer msg st)
  unfolding proceed pure
  inside_proceed peer msg st = record {
    at = λ w q. elim (Option-cases (env.snow.read_message st msg 1024)) [
      | inl e ↦ rw (e, proceed) (tt, q, refl)
      | inr (st₁, e) ↦ elim (Bool-cases (env.snow.is_handshake_finished st₁)) [
        | inl b ↦ rw (e, proceed, b) ((inside_finish peer st₁ none).at w q)
        | inr b ↦ elim (Option-cases (env.snow.write_message st₁ [] 1024)) [
          | inl f ↦ rw (e, proceed, b, f) (tt, q, refl)
          | inr (r, f) ↦ elim (Bool-cases (env.snow.is_handshake_finished r.0)) [
            | inl c ↦
                rw (e, proceed, b, f, c)
                  ((inside_finish peer r.0 (some (handshake_message r.1 w))).at w q)
            | inr c ↦ rw (e, proceed, b, f, c) ((inside_answer peer r.0 r.1).at w q)
          ]
        ]
      ]
    ];
  }

  inside_advance :
      (peer : NodeId) (msg : Bytes) (n : NoiseState Hs Ts)
      → is_transport n ≡ false
      → KeepsInside RepliesDiscovery (advance env peer msg n)
  unfolding advance
  inside_advance peer msg expecting_initiator e = inside_respond peer msg
  inside_advance peer msg (handshaking st) e = inside_proceed peer msg st
  inside_advance peer msg (transport ts) e = cc
  inside_advance peer msg transitioning e =
      Keeps-bind _ _ (inside_set_noise peer transitioning refl) (λ _ _. Keeps-pure _ tt)

  inside_with_session :
      (peer : NodeId) (msg : Bytes) → KeepsInside RepliesDiscovery (with_session env peer msg)
  unfolding with_session
  inside_with_session peer msg = record {
    at = λ w q. elim (Option-cases (get peer w.session_db)) [
      | inl e ↦ rw (e, with_session) (Keeps-panic.at w q)
      | inr (s, e) ↦
          rw (e, with_session)
            ((Keeps-bind _ _ (inside_set_noise peer transitioning refl) λ _ _.
                inside_advance peer msg s.noise (get-NoTransport peer s w.session_db q.1 e)).at
              w q)
    ];
  }

  pub quiet_handshake :
      (p : HandshakePayload) (src : SocketAddr)
      → KeepsQuiet RepliesDiscovery (handle_handshake env p src)
  unfolding handle_handshake
  quiet_handshake p src = quiet_session_lock _ (record {
    at = λ w q. elim (Bool-cases (contains_key p.node_id w.session_db)) [
      | inl e ↦ rw e ((inside_with_session p.node_id p.msg).at w q)
      | inr e ↦ elim (Bool-cases (ltb w.id p.node_id)) [
        | inl f ↦
            rw (e, f)
              ((Keeps-bind _ _ (inside_set_noise p.node_id expecting_initiator refl)
                  (λ _ _. inside_with_session p.node_id p.msg)).at
                w q)
        | inr f ↦ rw (e, f) ((Keeps-pure _ tt).at w q)
      ]
    ];
  })
