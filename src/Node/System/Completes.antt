-- ===== src/Node/System/Completes.antt =====
-- When `handle_handshake` of crates/node/src/node.rs returns: unless the message completes the handshake.
use swarm_mesh.Prelude.{
  true, false, Bool, ◌&&◌, not, List, [], ◌∷◌, Option, none, some, Bytes, Result, ok, err, ◌≡◌,
  refl, sym, ap, ◌∙◌, nat_eqb, ltb, nat_key, if◌then◌else◌, Option-cases, Bool-cases, Result-cases,
  inl, inr,
}
use swarm_mesh.HashMap.{get, contains_key}
use swarm_mesh.HashMap.Laws.{get-insert_self}
use swarm_mesh.Mesh.Message.{
  unsolicited_handshake, Message, NodeId, handshake, HandshakePayload, Failure,
}
use swarm_mesh.Mesh.Peer.{
  SocketAddr, NoiseState, PeerSession, expecting_initiator, handshaking, transport, transitioning,
}
use swarm_mesh.Noise.{build_responder}
use swarm_mesh.Node.World.{
  Env, World, Held, none_held, stuck, session_lock, acquire, pure, gets, modify, ◌>>=◌, ◌>>◌,
}
use swarm_mesh.Node.World.Returns.{
  EndsWith, Returns, Returns-pure, Returns-gets, EndsWith-lock, Returns-modify, Returns-bind,
}
use swarm_mesh.Node.Handshake.Deadlock.{completes, secured, handle_handshake-stuck}
use swarm_mesh.Node.Handshake.{
  set_noise, handshake_message, finish, respond, proceed, advance, with_session, handle_handshake,
}
use swarm_mesh.Node.Receive.{decode}
use swarm_mesh.Node.Tasks.{stale_peers}
use swarm_mesh.Node.System.{Event, arrives, monitor_due}

abbrev is_full : {A : Type 0} → Option A → Bool
is_full none = false
is_full (some a) = true

full-none : {A : Type 0} (o : Option A) → is_full o ≡ false → o ≡ none
full-none none c = refl
full-none (some a) c = absurd cc

full-some : {A : Type 0} (o : Option A) → is_full o ≡ true → (a : A) × (o ≡ some a)
full-some none c = absurd cc
full-some (some a) c = (a, refl)

module _ {P F Hs Ts : Type 0} (env : Env P F Hs Ts) where
  abbrev pub completes_session : NoiseState Hs Ts → Bytes → Bool
  completes_session (handshaking st) msg = is_full (completes env st msg)
  completes_session _ msg = false

  abbrev pub completes_message : Message → World Hs Ts → Bool
  completes_message (handshake p) w = elim (get p.node_id w.session_db) [
    | none ↦ false
    | some s ↦ not (nat_eqb p.node_id w.id) && completes_session s.noise p.msg
  ]
  completes_message _ w = false

  abbrev pub is_some_peer : List NodeId → Bool
  is_some_peer [] = false
  is_some_peer (id ∷ ids) = true

  -- The round completes a handshake or removes a stale peer.
  abbrev pub completes_or_removes : Event → World Hs Ts → Bool
  completes_or_removes (arrives d) w = elim (decode env d) [
    | none ↦ false
    | some msg ↦ completes_message msg w
  ]
  completes_or_removes monitor_due w = is_some_peer (stale_peers w.now w.peer_db)
  completes_or_removes _ w = false

  -- Inside the lock of the sessions.
  abbrev inside : Held
  inside = acquire session_lock none_held

  pub Returns-set :
      (h : Held) (id : NodeId) (n : NoiseState Hs Ts) → Returns h (modify (set_noise id n))
  Returns-set h id n = Returns-modify h _ (λ w. refl)

  Returns-finish :
      (peer : NodeId) (st : Hs) (answer : Option Message)
      → env.snow.into_transport_mode st ≡ none
      → Returns inside (finish env peer st answer)
  unfolding finish
  Returns-finish peer st answer e = record {
    at = λ w q. rw (e, finish) ((Returns-pure inside _).at w q);
  }

  Returns-answer :
      (peer : NodeId) (st : Hs) (out : Bytes)
      → Returns {Hs = Hs} {Ts = Ts} {A = Result Failure (Option Message)} inside (
          modify (set_noise peer (handshaking st))
          >> gets (λ v. ok (some (handshake_message out v))))
  Returns-answer peer st out =
      Returns-bind inside _ _ (Returns-set inside peer (handshaking st))
        (λ u. Returns-gets inside _)

  Returns-respond : (peer : NodeId) (msg : Bytes) → Returns inside (respond env peer msg)
  unfolding respond pure
  Returns-respond peer msg = record {
    at = λ w q. elim (Result-cases (build_responder env.snow w.static_keys w.network_key)) [
      | inl (f, e) ↦ rw (e, respond) (_, _, refl, q)
      | inr (st, e) ↦ elim (Option-cases (env.snow.read_message st msg 1024)) [
        | inl f ↦ rw (e, respond, f) (_, _, refl, q)
        | inr (st₁, f) ↦ elim (Option-cases (env.snow.write_message st₁ [] 1024)) [
          | inl g ↦ rw (e, respond, f, g) (_, _, refl, q)
          | inr (r, g) ↦ rw (e, respond, f, g) ((Returns-answer peer r.0 r.1).at w q)
        ]
      ]
    ];
  }

  Returns-proceed :
      (peer : NodeId) (msg : Bytes) (st : Hs)
      → completes env st msg ≡ none
      → Returns inside (proceed env peer msg st)
  unfolding proceed pure completes
  Returns-proceed peer msg st c = record {
    at = λ w q. elim (Option-cases (env.snow.read_message st msg 1024)) [
      | inl e ↦ rw (e, proceed) (_, _, refl, q)
      | inr (st₁, e) ↦ elim (Bool-cases (env.snow.is_handshake_finished st₁)) [
        | inl b ↦
            let k : env.snow.into_transport_mode st₁ ≡ none = sym (rw (e, completes, b) refl) ∙ c in
            rw (e, proceed, b) ((Returns-finish peer st₁ none k).at w q)
        | inr b ↦ elim (Option-cases (env.snow.write_message st₁ [] 1024)) [
          | inl f ↦ rw (e, proceed, b, f) (_, _, refl, q)
          | inr (r, f) ↦ elim (Bool-cases (env.snow.is_handshake_finished r.0)) [
            | inl d ↦
                let k : env.snow.into_transport_mode r.0 ≡ none =
                  sym (rw (e, completes, b, f, d) refl) ∙ c in
                rw (e, proceed, b, f, d)
                  ((Returns-finish peer r.0 (some (handshake_message r.1 w)) k).at w q)
            | inr d ↦ rw (e, proceed, b, f, d) ((Returns-answer peer r.0 r.1).at w q)
          ]
        ]
      ]
    ];
  }

  Returns-advance :
      (peer : NodeId) (msg : Bytes) (n : NoiseState Hs Ts)
      → completes_session n msg ≡ false
      → Returns inside (advance env peer msg n)
  unfolding advance
  Returns-advance peer msg expecting_initiator c = Returns-respond peer msg
  Returns-advance peer msg (handshaking st) c =
      Returns-proceed peer msg st (full-none (completes env st msg) c)
  Returns-advance peer msg (transport ts) c =
      Returns-bind inside _ _ (Returns-set inside peer (transport ts)) (λ u. Returns-pure inside _)
  Returns-advance peer msg transitioning c =
      Returns-bind inside _ _ (Returns-set inside peer transitioning) (λ u. Returns-pure inside _)

  EndsWith-session :
      (peer : NodeId) (msg : Bytes) (s : PeerSession Hs Ts) (w : World Hs Ts)
      → get peer w.session_db ≡ some s
      → completes_session s.noise msg ≡ false
      → w.held ≡ inside
      → EndsWith inside (with_session env peer msg) w
  unfolding with_session
  EndsWith-session peer msg s w e c q =
      rw (e, with_session)
        ((Returns-bind inside _ _ (Returns-set inside peer transitioning)
            (λ u. Returns-advance peer msg s.noise c)).at
          w q)

  ends_inside :
      (p : HandshakePayload) (w : World Hs Ts)
      → nat_eqb p.node_id w.id ≡ false
      → completes_message (handshake p) w ≡ false
      → w.held ≡ inside
      → EndsWith inside
          (λ w.
            if contains_key p.node_id w.session_db
            then with_session env p.node_id p.msg w
            else if ltb w.id p.node_id
            then (modify (set_noise p.node_id expecting_initiator)
                  >> with_session env p.node_id p.msg)
                w
            else pure (err (unsolicited_handshake p.node_id)) w)
          w
  unfolding contains_key modify ◌>>=◌ pure
  ends_inside p w foreign c q = elim (Option-cases (get p.node_id w.session_db)) [
    | inr (s, e) ↦
        rw (e, contains_key)
          (EndsWith-session p.node_id p.msg s w e
            (sym (rw (e, completes_message, foreign) refl) ∙ c) q)
    | inl e ↦ elim (Bool-cases (ltb w.id p.node_id)) [
      | inl lt ↦
          rw (e, contains_key, lt)
            (EndsWith-session p.node_id p.msg _ (set_noise p.node_id expecting_initiator w)
              (get-insert_self p.node_id _ w.session_db) refl q)
      | inr ge ↦ rw (e, contains_key, ge) (_, _, refl, q)
    ]
  ]

  pub ends_handshake :
      (p : HandshakePayload) (src : SocketAddr) (w : World Hs Ts)
      → nat_eqb p.node_id w.id ≡ false
      → completes_message (handshake p) w ≡ false
      → w.held ≡ none_held
      → EndsWith none_held (handle_handshake env p src) w
  unfolding handle_handshake
  ends_handshake p src w foreign c q = EndsWith-lock none_held session_lock _ w refl q (
      ends_inside p (record w { held = acquire session_lock w.held }) foreign c
        (ap (acquire session_lock) q))

  session_handshaking :
      (n : NoiseState Hs Ts) (msg : Bytes)
      → completes_session n msg ≡ true
      → (st : Hs) × (ts : Ts) × (n ≡ handshaking st) × (completes env st msg ≡ some ts)
  session_handshaking expecting_initiator msg c = absurd cc
  session_handshaking (handshaking st) msg c =
      let (ts, e) = full-some (completes env st msg) c in (st, ts, refl, e)
  session_handshaking (transport ts) msg c = absurd cc
  session_handshaking transitioning msg c = absurd cc

  -- A message that completes the handshake comes from another node and does not let the handler return.
  pub stuck_handshake :
      (p : HandshakePayload) (src : SocketAddr) (w : World Hs Ts)
      → completes_message (handshake p) w ≡ true
      → w.held ≡ none_held
      → (nat_eqb p.node_id w.id ≡ false)
        × ((v : World Hs Ts) × (handle_handshake env p src w ≡ stuck v) × (v.held.session ≡ true))
  stuck_handshake p src w c q = elim (Option-cases (get p.node_id w.session_db)) [
    | inl e ↦ let bad : false ≡ true = sym (rw (e, completes_message) refl) ∙ c in absurd cc
    | inr (s, e) ↦
        let both : not (nat_eqb p.node_id w.id) && completes_session s.noise p.msg ≡ true =
          sym (rw (e, completes_message) refl) ∙ c in
        elim (Bool-cases (nat_eqb p.node_id w.id)) [
          | inl own ↦ let bad : false ≡ true = sym (rw (own) refl) ∙ both in absurd cc
          | inr foreign ↦
              let (st, ts, n, done_with) =
                session_handshaking s.noise p.msg (sym (rw (foreign) refl) ∙ both) in
              let (run, sent, secure, locked) =
                handle_handshake-stuck env w p src st ts q
                  (e ∙ ap (λ x. some (record { noise = x })) n) done_with in
              (foreign, (secured env p ts w, run, locked))
        ]
  ]
