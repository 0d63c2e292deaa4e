-- ===== src/Node/Typed/Pings.antt =====
-- The types of the pings and pongs of crates/node/src/node.rs.
use swarm_mesh.Prelude.{
  arith, ℕ, ◌-◌, Option, none, some, Result, ok, err, ◌≡◌, refl, ltb, Option-cases, inl, inr,
  nat_key, pair_key,
}
use swarm_mesh.HashMap.{get, insert, remove}
use swarm_mesh.Mesh.Message.{NodeId, Message, PingPongPayload, Failure}
use swarm_mesh.Mesh.Peer.{SocketAddr, PeerInfo}
use swarm_mesh.Mesh.Rtt.{update}
use swarm_mesh.Node.World.{
  Env, World, done, peer_lock, session_lock, ping_lock, modify, pure, with_lock, set_peer_db,
  set_ping_db, ◌>>=◌, ◌>>◌,
}
use swarm_mesh.Node.World.Keeps.{
  Any, Keeps-pure, Keeps-gets, Keeps-bind, Keeps-then, Keeps-modify, Keeps-if,
}
use swarm_mesh.Node.Ping.{
  from_secs, can_take_ping, handle_ping, can_take_pong, can_take_pong_of, record_rtt, handle_pong,
  clean_stale_pings, send_ping,
}
use swarm_mesh.Node.Typed.{
  Ids, IsOther, IsPeer, IsCounted, IsPing, IsTypedMessage, IsSequence, IsTyped,
}
use swarm_mesh.Node.Typed.Tables.{IsTable-get, IsTable-insert, IsTable-remove, IsTable-retain}
use swarm_mesh.Node.Typed.Sends.{KeepsTyped, typed_lock, typed_gets, typed_send_unicast}

abbrev pub IsTypedPong : Ids → Result Failure (Option (ℕ × Message)) → Type 0
IsTypedPong ids (ok (some (port, msg))) = IsTypedMessage ids msg
IsTypedPong ids (ok none) = Unit {0}
IsTypedPong ids (err e) = Unit {0}

module _ {Hs Ts : Type 0} (ids : Ids) where
  typed_can_take_ping :
      (p : PingPongPayload) → KeepsTyped {Hs = Hs} {Ts = Ts} ids Any (can_take_ping p)
  unfolding can_take_ping
  typed_can_take_ping p = Keeps-bind _ _ (typed_lock ids peer_lock _ (typed_gets ids _)) λ known _.
      Keeps-if known _ _ (typed_lock ids session_lock _ (typed_gets ids _)) (Keeps-pure _ tt)

  pub typed_handle_ping :
      (p : PingPongPayload)
      → IsSequence p.sequence
      → KeepsTyped {Hs = Hs} {Ts = Ts} ids (IsTypedPong ids) (handle_ping p)
  unfolding handle_ping
  typed_handle_ping p s = Keeps-bind _ _ (typed_can_take_ping p) λ takes _.
      Keeps-if takes _ _
        (typed_lock ids peer_lock _ (
          Keeps-gets _ λ w q. elim (Option-cases (get p.node_id w.peer_db)) [
            | inl e ↦ rw e tt
            | inr (info, e) ↦ rw e (rw q.0.0 (ids.at_known ids.own w.unicast_port q.0.1), s)
          ]))
        (Keeps-pure _ tt)

  typed_can_take_pong_of :
      (p : PingPongPayload) → KeepsTyped {Hs = Hs} {Ts = Ts} ids Any (can_take_pong_of p)
  unfolding can_take_pong_of
  typed_can_take_pong_of p =
      Keeps-bind _ _ (typed_lock ids session_lock _ (typed_gets ids _)) λ secure _.
        Keeps-if secure _ _ (typed_lock ids ping_lock _ (typed_gets ids _)) (Keeps-pure _ tt)

  typed_can_take_pong :
      (p : PingPongPayload) → KeepsTyped {Hs = Hs} {Ts = Ts} ids Any (can_take_pong p)
  unfolding can_take_pong
  typed_can_take_pong p =
      Keeps-bind _ _ (typed_lock ids peer_lock _ (typed_gets ids _))
        λ known _. Keeps-if known _ _ (typed_can_take_pong_of p) (Keeps-pure _ tt)

  pub typed_clean : KeepsTyped {Hs = Hs} {Ts = Ts} ids Any clean_stale_pings
  unfolding clean_stale_pings
  typed_clean = typed_lock ids ping_lock _ (
      Keeps-modify _ λ w (a, b, c, d, e, f, g). (
        (
          a,
          b,
          c,
          d,
          IsTable-retain (IsPing ids) (λ x. ltb (from_secs 30) (w.now - x.1)) w.ping_db e,
          f,
          g,
        ),
        refl,
      ))

module _ {P F Hs Ts : Type 0} (env : Env P F Hs Ts) (ids : Ids) where
  record_rtt-IsCounted :
      (rtt : ℕ) (info : PeerInfo) → IsCounted ids (record_rtt env rtt info).rtt_stats
  unfolding record_rtt update
  record_rtt-IsCounted rtt info = omega arith

  -- The round trip time is recorded for a peer that is there.
  record_rtt-IsTyped :
      (k : NodeId × ℕ) (time : ℕ) (info : PeerInfo) (w : World Hs Ts)
      → get k.0 w.peer_db ≡ some info
      → IsTyped ids w
      → IsTyped ids (set_peer_db (insert k.0 (record_rtt env (w.now - time) info) w.peer_db) w)
  unfolding record_rtt
  record_rtt-IsTyped k time info w found (a, b, c, d, e, f, g) =
      let p : IsPeer ids (k.0, info) = IsTable-get (IsPeer ids) k.0 info w.peer_db c found in
      (
        a,
        b,
        IsTable-insert (IsPeer ids) k.0 (record_rtt env (w.now - time) info) w.peer_db
            (p.0, p.1, record_rtt-IsCounted (w.now - time) info) c,
        d,
        e,
        f,
        g,
      )

  typed_forget :
      (k : NodeId × ℕ)
      → KeepsTyped ids Any (
          with_lock {Hs = Hs} {Ts = Ts} ping_lock
            (modify (λ v. set_ping_db (remove k v.ping_db) v)))
  typed_forget k = typed_lock ids ping_lock _ (
      Keeps-modify _ λ w (a, b, c, d, e, f, g).
        ((a, b, c, d, IsTable-remove (IsPing ids) k w.ping_db e, f, g), refl))

  typed_found :
      (k : NodeId × ℕ) (time : ℕ)
      → KeepsTyped {Hs = Hs} {Ts = Ts} ids {A = Result Failure (Unit {0})} Any (λ w.
        elim (get k.0 w.peer_db) [
          | none ↦ done (ok tt) w
          | some p ↦
              (do
                modify (set_peer_db (insert k.0 (record_rtt env (w.now - time) p) w.peer_db))
                with_lock ping_lock (modify (λ v. set_ping_db (remove k v.ping_db) v))
                pure (ok tt))
                w
        ])
  unfolding ◌>>=◌
  typed_found k time = record {
    at = λ w q. elim (Option-cases (get k.0 w.peer_db)) [
      | inl z ↦ rw (z) (tt, q, refl)
      | inr (info, z) ↦ rw (z) (
          (Keeps-then {R = Any} _ _ (typed_forget k) (Keeps-pure (ok tt) tt)).at
            (set_peer_db (insert k.0 (record_rtt env (w.now - time) info) w.peer_db) w)
            (record_rtt-IsTyped k time info w z q))
    ];
  }

  pub typed_handle_pong : (p : PingPongPayload) → KeepsTyped ids Any (handle_pong env p)
  unfolding handle_pong
  typed_handle_pong p = Keeps-bind {R = Any} _ _ (typed_can_take_pong ids p) λ taken _. record {
    at = λ w q. elim (Option-cases taken) [
      | inl e ↦
          rw (e) ((Keeps-pure {P = IsTyped ids} {S = IsTyped ids} {R = Any} (ok tt) tt).at w q)
      | inr ((k, time), e) ↦ rw (e) ((typed_lock ids peer_lock _ (typed_found k time)).at w q)
    ];
  }

  pub typed_send_ping :
      (id : NodeId) (port sequence : ℕ) (addr : SocketAddr)
      → IsOther ids id
      → IsSequence sequence
      → KeepsTyped ids Any (send_ping env id port sequence addr)
  unfolding send_ping
  typed_send_ping id port sequence addr o s =
      Keeps-then {R = Any} _ _
        (typed_lock ids ping_lock _ (
          Keeps-modify _ λ w (a, b, c, d, e, f, g). (
            (a, b, c, d, IsTable-insert (IsPing ids) (id, sequence) w.now w.ping_db (o, s) e, f, g),
            refl,
          )))
        (Keeps-bind {R = ids.IsKnown} _ _
          (Keeps-gets _ (λ w q. rw q.0.0 (ids.at_known ids.own w.unicast_port q.0.1)))
          λ i t. typed_send_unicast env ids _ port addr (t, s))
