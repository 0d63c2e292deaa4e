-- ===== src/Node/Typed/Handles.antt =====
-- The types of what the handlers of handshakes in crates/node/src/node.rs answer, and of
-- the tables that they leave.
use swarm_mesh.Prelude.{
  [], Option, none, some, Bytes, Result, ok, err, refl, sym, subst, ltb, Option-cases, Bool-cases,
  Result-cases, inl, inr, nat_key, pair_key,
}
use swarm_mesh.HashMap.{get, contains_key}
use swarm_mesh.Mesh.Message.{NodeId, Message, HelloPayload, HandshakePayload, Failure}
use swarm_mesh.Mesh.Peer.{
  SocketAddr, NoiseState, expecting_initiator, handshaking, transport, transitioning,
}
use swarm_mesh.Noise.{start_handshake, build_responder}
use swarm_mesh.Node.World.{Env, World, session_lock, modify, gets, pure, ◌>>◌}
use swarm_mesh.Node.World.Keeps.{Any, Keeps-pure, Keeps-gets, Keeps-bind, Keeps-modify, Keeps-panic}
use swarm_mesh.Node.Handshake.{
  set_noise, handshake_message, initiate, handle_hello, finish, respond, proceed, advance,
  with_session, handle_handshake,
}
use swarm_mesh.Node.Typed.{Ids, IsOther, IsSession, IsTypedMessage, IsTyped}
use swarm_mesh.Node.Typed.Tables.{IsTable-insert}
use swarm_mesh.Node.Typed.Sends.{KeepsTyped, typed_lock, typed_broadcast}

-- The answer is in range, if there is one.
abbrev pub IsTypedOption : Ids → Option Message → Type 0
IsTypedOption ids none = Unit {0}
IsTypedOption ids (some msg) = IsTypedMessage ids msg

abbrev pub IsTypedReply : {E : Type 0} → Ids → Result E (Option Message) → Type 0
IsTypedReply ids (ok r) = IsTypedOption ids r
IsTypedReply ids (err e) = Unit {0}

module _ {Hs Ts : Type 0} (ids : Ids) where
  typed_set_noise :
      (id : NodeId) (n : NoiseState Hs Ts)
      → IsOther ids id
      → KeepsTyped ids Any (modify (set_noise id n))
  typed_set_noise id n o = Keeps-modify _ λ w (a, b, c, d, e, f, g). (
    (a, b, c, IsTable-insert (IsSession ids) id (record { noise = n }) w.session_db o d, e, f, g),
    refl,
  )

  handshake_message-IsTyped :
      (out : Bytes) (w : World Hs Ts) → IsTyped ids w → IsTypedMessage ids (handshake_message out w)
  handshake_message-IsTyped out w q = subst (λ i. ids.IsAt i w.unicast_port) (sym q.0.0) q.0.1

  -- A session with what is sent for it.
  typed_answer :
      (E : Type 0) (peer : NodeId) (st : Hs) (out : Bytes)
      → IsOther ids peer
      → KeepsTyped {Hs = Hs} {Ts = Ts} ids {A = Result E (Option Message)} (IsTypedReply ids) (
          modify (set_noise peer (handshaking st))
          >> gets (λ v. ok (some (handshake_message out v))))
  typed_answer E peer st out o =
      Keeps-bind _ _ (typed_set_noise peer (handshaking st) o)
        (λ _ _. Keeps-gets _ (λ w q. handshake_message-IsTyped out w q))

module _ {P F Hs Ts : Type 0} (env : Env P F Hs Ts) (ids : Ids) (peer : NodeId)
    (o : IsOther ids peer) where
  typed_initiate :
      (r : Result Failure (Hs × Bytes)) → KeepsTyped ids (IsTypedReply ids) (initiate env peer r)
  unfolding initiate
  typed_initiate (err e) = Keeps-pure _ tt
  typed_initiate (ok (st, msg)) =
      Keeps-bind _ _ (typed_lock ids session_lock _ (typed_set_noise ids peer (handshaking st) o))
        (λ _ _. Keeps-gets _ (λ w q. handshake_message-IsTyped ids msg w q))

  typed_finish :
      (st : Hs) (reply : Option Message)
      → IsTypedOption ids reply
      → KeepsTyped ids (IsTypedReply ids) (finish env peer st reply)
  unfolding finish
  typed_finish st reply t = record {
    at = λ w q. elim (Option-cases (env.snow.into_transport_mode st)) [
      | inl e ↦
          rw (e, finish)
            ((Keeps-pure {P = IsTyped ids} {S = IsTyped ids} {R = IsTypedReply ids} _ tt).at w q)
      | inr (ts, e) ↦
          rw (e, finish)
            ((Keeps-bind _ _ (typed_set_noise ids peer (transport ts) o)
                λ _ _. Keeps-bind _ _ (typed_broadcast env ids) (λ _ _. Keeps-pure _ t)).at
              w q)
    ];
  }

  typed_respond : (msg : Bytes) → KeepsTyped ids (IsTypedReply ids) (respond env peer msg)
  unfolding respond pure
  typed_respond msg = record {
    at = λ w q. elim (Result-cases (build_responder env.snow w.static_keys w.network_key)) [
      | inl (f, e) ↦ rw (e, respond) (tt, q, refl)
      | inr (st, e) ↦ elim (Option-cases (env.snow.read_message st msg 1024)) [
        | inl f ↦ rw (e, respond, f) (tt, q, refl)
        | inr (st₁, f) ↦ elim (Option-cases (env.snow.write_message st₁ [] 1024)) [
          | inl g ↦ rw (e, respond, f, g) (tt, q, refl)
          | inr (r, g) ↦ rw (e, respond, f, g) ((typed_answer ids Failure peer r.0 r.1 o).at w q)
        ]
      ]
    ];
  }

  typed_proceed :
      (msg : Bytes) (st : Hs) → KeepsTyped ids (IsTypedReply ids) (proceed env peer msg st)
  unfolding proceed pure
  typed_proceed msg st = record {
    at = λ w q. elim (Option-cases (env.snow.read_message st msg 1024)) [
      | inl e ↦ rw (e, proceed) (tt, q, refl)
      | inr (st₁, e) ↦ elim (Bool-cases (env.snow.is_handshake_finished st₁)) [
        | inl b ↦ rw (e, proceed, b) ((typed_finish st₁ none tt).at w q)
        | inr b ↦ elim (Option-cases (env.snow.write_message st₁ [] 1024)) [
          | inl f ↦ rw (e, proceed, b, f) (tt, q, refl)
          | inr (r, f) ↦ elim (Bool-cases (env.snow.is_handshake_finished r.0)) [
            | inl c ↦
                rw (e, proceed, b, f, c)
                  ((typed_finish r.0 (some (handshake_message r.1 w))
                      (handshake_message-IsTyped ids r.1 w q)).at
                    w q)
            | inr c ↦ rw (e, proceed, b, f, c) ((typed_answer ids Failure peer r.0 r.1 o).at w q)
          ]
        ]
      ]
    ];
  }

  typed_advance :
      (msg : Bytes) (n : NoiseState Hs Ts)
      → KeepsTyped ids (IsTypedReply ids) (advance env peer msg n)
  unfolding advance
  typed_advance msg expecting_initiator = typed_respond msg
  typed_advance msg (handshaking st) = typed_proceed msg st
  typed_advance msg (transport ts) =
      Keeps-bind _ _ (typed_set_noise ids peer (transport ts) o) (λ _ _. Keeps-pure _ tt)
  typed_advance msg transitioning =
      Keeps-bind _ _ (typed_set_noise ids peer transitioning o) (λ _ _. Keeps-pure _ tt)

  typed_with_session : (msg : Bytes) → KeepsTyped ids (IsTypedReply ids) (with_session env peer msg)
  unfolding with_session
  typed_with_session msg = record {
    at = λ w q. elim (Option-cases (get peer w.session_db)) [
      | inl e ↦
          rw (e, with_session)
            ((Keeps-panic {P = IsTyped ids} {S = IsTyped ids} {R = IsTypedReply ids}).at w q)
      | inr (s, e) ↦
          rw (e, with_session)
            ((Keeps-bind _ _ (typed_set_noise ids peer transitioning o)
                (λ _ _. typed_advance msg s.noise)).at
              w q)
    ];
  }

module _ {P F Hs Ts : Type 0} (env : Env P F Hs Ts) (ids : Ids) where
  pub typed_hello :
      (p : HelloPayload) (src : SocketAddr)
      → IsOther ids p.node_id
      → KeepsTyped ids (IsTypedReply ids) (handle_hello env p src)
  unfolding handle_hello
  typed_hello p src o = record {
    at = λ w q. elim (Bool-cases (ltb w.id p.node_id)) [
      | inl e ↦ rw e (
          (Keeps-bind _ _
              (typed_lock ids session_lock _ (typed_set_noise ids p.node_id expecting_initiator o))
              (λ _ _. Keeps-pure _ tt)).at
            w q)
      | inr e ↦ rw e (elim (Option-cases (start_handshake env.snow w.static_keys w.network_key)) [
        | inl g ↦
            rw g ((Keeps-panic {P = IsTyped ids} {S = IsTyped ids} {R = IsTypedReply ids}).at w q)
        | inr (r, g) ↦ rw g ((typed_initiate env ids p.node_id o r).at w q)
      ])
    ];
  }

  pub typed_handshake :
      (p : HandshakePayload) (src : SocketAddr)
      → IsOther ids p.node_id
      → KeepsTyped ids (IsTypedReply ids) (handle_handshake env p src)
  unfolding handle_handshake
  typed_handshake p src o = typed_lock ids session_lock _ (record {
    at = λ w q. elim (Bool-cases (contains_key p.node_id w.session_db)) [
      | inl e ↦ rw e ((typed_with_session env ids p.node_id o p.msg).at w q)
      | inr e ↦ elim (Bool-cases (ltb w.id p.node_id)) [
        | inl f ↦
            rw (e, f)
              ((Keeps-bind _ _ (typed_set_noise ids p.node_id expecting_initiator o)
                  (λ _ _. typed_with_session env ids p.node_id o p.msg)).at
                w q)
        | inr f ↦
            rw (e, f)
              ((Keeps-pure {P = IsTyped ids} {S = IsTyped ids} {R = IsTypedReply ids} _ tt).at w q)
      ]
    ];
  })
