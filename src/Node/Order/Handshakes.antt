-- ===== src/Node/Order/Handshakes.antt =====
-- The order of the locks in the handshakes of crates/node/src/node.rs.
use swarm_mesh.Prelude.{
  [], Option, none, some, Bytes, Result, ok, err, ltb, refl, Option-cases, Bool-cases, Result-cases,
  inl, inr, nat_key,
}
use swarm_mesh.HashMap.{get, contains_key}
use swarm_mesh.Mesh.Message.{NodeId, Message, HelloPayload, HandshakePayload, Failure}
use swarm_mesh.Mesh.Peer.{
  SocketAddr, NoiseState, expecting_initiator, handshaking, transport, transitioning,
}
use swarm_mesh.Noise.{start_handshake, build_responder}
use swarm_mesh.Node.World.{Env, Held, none_held, acquire, M, session_lock, modify, pure, gets, ◌>>◌}
use swarm_mesh.Node.World.Keeps.{Any}
use swarm_mesh.Node.Order.Climbs.{
  Climbs, Climbs-pure, Climbs-gets, Climbs-panic, Climbs-lock, Climbs-modify, Climbs-bind,
}
use swarm_mesh.Node.Order.Parts.{Starts}
use swarm_mesh.Node.Order.Adverts.{Climbs-broadcast_self}
use swarm_mesh.Node.Handshake.{
  set_noise, handshake_message, initiate, handle_hello, finish, respond, proceed, advance,
  with_session, handle_handshake,
}

abbrev session_held : Held
session_held = acquire session_lock none_held

module _ {Hs Ts : Type 0} where
  -- In the scope of the lock of the sessions.
  abbrev Inside : {A : Type 0} → M Hs Ts A → Type 0
  Inside m = Climbs Any session_held m

  Climbs-set_noise : (id : NodeId) (n : NoiseState Hs Ts) → Inside (modify (set_noise id n))
  Climbs-set_noise id n = Climbs-modify _ _ (λ w. refl) (λ w h. refl)

  Climbs-answer :
      (peer : NodeId) (st : Hs) (out : Bytes)
      → Inside {A = Result Failure (Option Message)} (
          modify (set_noise peer (handshaking st))
          >> gets (λ v. ok (some (handshake_message out v))))
  Climbs-answer peer st out =
      Climbs-bind _ _ _ (Climbs-set_noise peer (handshaking st))
        (λ u _. Climbs-gets _ _ (λ w h. refl) (λ w. tt))

module _ {P F Hs Ts : Type 0} (env : Env P F Hs Ts) where
  Climbs-initiate : (peer : NodeId) (r : Result Failure (Hs × Bytes)) → Starts (initiate env peer r)
  unfolding initiate
  Climbs-initiate peer (err e) = Climbs-pure _ _ tt
  Climbs-initiate peer (ok (st, msg)) =
      Climbs-bind none_held _ _
        (Climbs-lock none_held session_lock _ refl refl (Climbs-set_noise peer (handshaking st)))
        (λ u _. Climbs-gets _ _ (λ w h. refl) (λ w. tt))

  pub Climbs-handle_hello : (p : HelloPayload) (src : SocketAddr) → Starts (handle_hello env p src)
  unfolding handle_hello
  Climbs-handle_hello p src = record {
    at = λ w theirs q. elim (Bool-cases (ltb w.id p.node_id)) [
      | inl e ↦ rw e (
          (Climbs-bind none_held _ _
              (Climbs-lock none_held session_lock _ refl refl
                (Climbs-set_noise p.node_id expecting_initiator))
              (λ u _. Climbs-pure {R = Any} _ _ tt)).at
            w theirs q)
      | inr e ↦ rw e (elim (Option-cases (start_handshake env.snow w.static_keys w.network_key)) [
        | inl g ↦ rw g ((Climbs-panic {R = Any} none_held).at w theirs q)
        | inr (r, g) ↦ rw g ((Climbs-initiate p.node_id r).at w theirs q)
      ])
    ];
  }

  -- A handshake that is finished waits for the lock that it holds.
  Climbs-finish :
      (peer : NodeId) (st : Hs) (reply : Option Message) → Inside (finish env peer st reply)
  unfolding finish pure
  Climbs-finish peer st reply = record {
    at = λ w theirs q. elim (Option-cases (env.snow.into_transport_mode st)) [
      | inl e ↦ rw (e, finish) (tt, q, refl, refl)
      | inr (ts, e) ↦
          rw (e, finish)
            ((Climbs-bind session_held _ _ (Climbs-set_noise peer (transport ts)) λ u _.
                Climbs-bind session_held _ _
                  (Climbs-broadcast_self env (λ u. ⊥) session_held refl refl refl)
                  (λ u never. elim never [ ])).at
              w theirs q)
    ];
  }

  Climbs-respond : (peer : NodeId) (msg : Bytes) → Inside (respond env peer msg)
  unfolding respond pure
  Climbs-respond peer msg = record {
    at = λ w theirs q. elim (Result-cases (build_responder env.snow w.static_keys w.network_key)) [
      | inl (f, e) ↦ rw (e, respond) (tt, q, refl, refl)
      | inr (st, e) ↦ elim (Option-cases (env.snow.read_message st msg 1024)) [
        | inl f ↦ rw (e, respond, f) (tt, q, refl, refl)
        | inr (st₁, f) ↦ elim (Option-cases (env.snow.write_message st₁ [] 1024)) [
          | inl g ↦ rw (e, respond, f, g) (tt, q, refl, refl)
          | inr (r, g) ↦ rw (e, respond, f, g) ((Climbs-answer peer r.0 r.1).at w theirs q)
        ]
      ]
    ];
  }

  Climbs-proceed : (peer : NodeId) (msg : Bytes) (st : Hs) → Inside (proceed env peer msg st)
  unfolding proceed pure
  Climbs-proceed peer msg st = record {
    at = λ w theirs q. elim (Option-cases (env.snow.read_message st msg 1024)) [
      | inl e ↦ rw (e, proceed) (tt, q, refl, refl)
      | inr (st₁, e) ↦ elim (Bool-cases (env.snow.is_handshake_finished st₁)) [
        | inl b ↦ rw (e, proceed, b) ((Climbs-finish peer st₁ none).at w theirs q)
        | inr b ↦ elim (Option-cases (env.snow.write_message st₁ [] 1024)) [
          | inl f ↦ rw (e, proceed, b, f) (tt, q, refl, refl)
          | inr (r, f) ↦ elim (Bool-cases (env.snow.is_handshake_finished r.0)) [
            | inl c ↦
                rw (e, proceed, b, f, c)
                  ((Climbs-finish peer r.0 (some (handshake_message r.1 w))).at w theirs q)
            | inr c ↦ rw (e, proceed, b, f, c) ((Climbs-answer peer r.0 r.1).at w theirs q)
          ]
        ]
      ]
    ];
  }

  Climbs-advance :
      (peer : NodeId) (msg : Bytes) (n : NoiseState Hs Ts) → Inside (advance env peer msg n)
  unfolding advance
  Climbs-advance peer msg expecting_initiator = Climbs-respond peer msg
  Climbs-advance peer msg (handshaking st) = Climbs-proceed peer msg st
  Climbs-advance peer msg (transport ts) =
      Climbs-bind _ _ _ (Climbs-set_noise peer (transport ts)) (λ u _. Climbs-pure _ _ tt)
  Climbs-advance peer msg transitioning =
      Climbs-bind _ _ _ (Climbs-set_noise peer transitioning) (λ u _. Climbs-pure _ _ tt)

  Climbs-with_session : (peer : NodeId) (msg : Bytes) → Inside (with_session env peer msg)
  unfolding with_session
  Climbs-with_session peer msg = record {
    at = λ w theirs q. elim (Option-cases (get peer w.session_db)) [
      | inl e ↦ rw (e, with_session) ((Climbs-panic {R = Any} session_held).at w theirs q)
      | inr (s, e) ↦
          rw (e, with_session)
            ((Climbs-bind session_held _ _ (Climbs-set_noise peer transitioning)
                (λ u _. Climbs-advance peer msg s.noise)).at
              w theirs q)
    ];
  }

  pub Climbs-handle_handshake :
      (p : HandshakePayload) (src : SocketAddr) → Starts (handle_handshake env p src)
  unfolding handle_handshake
  Climbs-handle_handshake p src = Climbs-lock none_held session_lock _ refl refl (record {
    at = λ w theirs q. elim (Bool-cases (contains_key p.node_id w.session_db)) [
      | inl e ↦ rw e ((Climbs-with_session p.node_id p.msg).at w theirs q)
      | inr e ↦ elim (Bool-cases (ltb w.id p.node_id)) [
        | inl f ↦
            rw (e, f)
              ((Climbs-bind session_held _ _ (Climbs-set_noise p.node_id expecting_initiator)
                  (λ u _. Climbs-with_session p.node_id p.msg)).at
                w theirs q)
        | inr f ↦ rw (e, f) ((Climbs-pure {R = Any} session_held _ tt).at w theirs q)
      ]
    ];
  })
