-- ===== src/Node/Handshake/Deadlock.antt =====
-- The end of a handshake in `handle_handshake` of crates/node/src/node.rs: `broadcast_lsa` locks
-- `session_db` while the handler holds it.
use swarm_mesh.Prelude.{
  ℕ, true, false, [], Option, none, some, Bytes, ◌≡◌, refl, if◌then◌else◌, nat_key, arith,
  Option-cases, Bool-cases, inl, inr, ap, ◌∙◌,
}
use swarm_mesh.HashMap.{get}
use swarm_mesh.HashMap.Laws.{get-insert_self, contains_key-get}
use swarm_mesh.Mesh.Message.{Message, HandshakePayload}
use swarm_mesh.Mesh.Peer.{SocketAddr, handshaking, transport, transitioning}
use swarm_mesh.Node.World.{Env, World, stuck, none_held, acquire, is_held, session_lock, ◌>>=◌}
use swarm_mesh.Node.LinkState.{
  bump_sequence, generate_lsa, get_established_neighbors, broadcast_lsa,
}
use swarm_mesh.Node.Handshake.{
  set_noise, handshake_message, proceed, finish, advance, with_session, handle_handshake,
}

module _ {P F Hs Ts : Type 0} (env : Env P F Hs Ts) where
  open env.snow use {read_message, write_message, is_handshake_finished, into_transport_mode}

  in_transport : Hs → Option Ts
  in_transport st = if is_handshake_finished st then into_transport_mode st else none

  -- The transport state in which snow ends a handshake that is in the state `st`, by this message
  -- alone or by this message and the answer to it.
  unfoldable pub completes : Hs → Bytes → Option Ts
  unfolding in_transport
  completes st msg = elim (read_message st msg 1024) [
    | none ↦ none
    | some st₁ ↦
        if is_handshake_finished st₁
        then into_transport_mode st₁
        else elim (write_message st₁ [] 1024) [ none ↦ none | some (st₂, out) ↦ in_transport st₂ ]
  ]

  -- Under the guard of `session_db` an advertisement gets no further than its sequence number.
  pub broadcast_lsa-stuck :
      (w : World Hs Ts)
      → w.held.session ≡ true
      → w.held.lsa_sequence ≡ false
      → broadcast_lsa env w ≡ stuck (bump_sequence w)
  unfolding broadcast_lsa generate_lsa get_established_neighbors ◌>>=◌
  broadcast_lsa-stuck w s l = rw (l, s)

  pub broadcast_lsa-stuck_any :
      (w : World Hs Ts)
      → w.held.session ≡ true
      → (v : World Hs Ts) × (broadcast_lsa env w ≡ stuck v) × (v.sent ≡ w.sent) × (v.held ≡ w.held)
  unfolding broadcast_lsa generate_lsa ◌>>=◌
  broadcast_lsa-stuck_any w s = elim (Bool-cases w.held.lsa_sequence) [
    | inl e ↦ (w, rw e, refl, refl)
    | inr e ↦ (bump_sequence w, broadcast_lsa-stuck w s e, refl, refl)
  ]

  -- The session is secured, and nothing is sent.
  abbrev pub secured : HandshakePayload → Ts → World Hs Ts → World Hs Ts
  secured p ts w = bump_sequence (
      set_noise p.node_id (transport ts)
        (set_noise p.node_id transitioning (record w { held = acquire session_lock w.held })))

  finish-stuck :
      (w : World Hs Ts) (peer : ℕ) (st : Hs) (reply : Option Message) (ts : Ts)
      → w.held.session ≡ true
      → w.held.lsa_sequence ≡ false
      → into_transport_mode st ≡ some ts
      → finish env peer st reply w ≡ stuck (bump_sequence (set_noise peer (transport ts) w))
  unfolding finish ◌>>=◌
  finish-stuck w peer st reply ts s l e =
      rw (e, finish) (rw (broadcast_lsa-stuck (set_noise peer (transport ts) w) s l))

  proceed-stuck :
      (w : World Hs Ts) (peer : ℕ) (msg : Bytes) (st : Hs) (ts : Ts)
      → w.held.session ≡ true
      → w.held.lsa_sequence ≡ false
      → completes st msg ≡ some ts
      → proceed env peer msg st w ≡ stuck (bump_sequence (set_noise peer (transport ts) w))
  unfolding proceed completes
  proceed-stuck w peer msg st ts s l e = elim (Option-cases (read_message st msg 1024)) [
    | inl q ↦ absurd (ground arith)
    | inr (st₁, q) ↦ elim (Option-cases (write_message st₁ [] 1024)) [
      | inl n ↦ rw (q, proceed) (ground (arith, finish-stuck w peer st₁ none ts s l))
      | inr (r, n) ↦
          rw (q, proceed)
            (ground (
              arith,
              finish-stuck w peer st₁ none ts s l,
              finish-stuck w peer r.0 (some (handshake_message r.1 w)) ts s l,
            ))
    ]
  ]

  pub with_session-handshaking :
      (w : World Hs Ts) (peer : ℕ) (msg : Bytes) (st : Hs)
      → get peer w.session_db ≡ some (record { noise = handshaking st })
      → with_session env peer msg w ≡ proceed env peer msg st (set_noise peer transitioning w)
  unfolding with_session advance ◌>>=◌
  with_session-handshaking w peer msg st g = rw (g, with_session)

  -- When a handshake message of a peer completes the handshake, `handle_handshake` never returns:
  -- it waits for the session lock that it holds. By then the session is in transport mode, the
  -- advertisement has its sequence number, and nothing has been sent, not even the last handshake
  -- message.
  pub handle_handshake-stuck :
      (w : World Hs Ts) (p : HandshakePayload) (src : SocketAddr) (st : Hs) (ts : Ts)
      → w.held ≡ none_held
      → get p.node_id w.session_db ≡ some (record { noise = handshaking st })
      → completes st p.msg ≡ some ts
      → (handle_handshake env p src w ≡ stuck (secured p ts w))
        × ((secured p ts w).sent ≡ w.sent)
        × (get p.node_id (secured p ts w).session_db ≡ some (record { noise = transport ts }))
        × (is_held session_lock (secured p ts w).held ≡ true)
  unfolding handle_handshake ◌>>=◌
  handle_handshake-stuck w p src st ts free g e =
      let s : w.held.session ≡ false = ap (λ h. h.session) free in
      let l : w.held.lsa_sequence ≡ false = ap (λ h. h.lsa_sequence) free in
      let v = record w { held = acquire session_lock w.held } in
      let locked : with_session env p.node_id p.msg v ≡ stuck (secured p ts w) =
        with_session-handshaking v p.node_id p.msg st g
        ∙ proceed-stuck (set_noise p.node_id transitioning v) p.node_id p.msg st ts refl l e in
      (
        rw (s, contains_key-get p.node_id _ w.session_db g, locked),
        refl,
        get-insert_self p.node_id _ _,
        refl,
      )
