-- ===== src/Node/Ping/Answers.antt =====
-- The branches of `handle_ping` and `handle_pong` of crates/node/src/node.rs.
use swarm_mesh.Prelude.{
  ℕ, ◌-◌, ◌≤◌, ◌≢◌, sym, ap, ◌∙◌, true, Option, none, some, ok, ◌≡◌, refl, inl, inr, Bool-cases,
  Option-cases, nat_key, pair_key, if◌then◌else◌,
}
use swarm_mesh.HashMap.{get, contains_key, insert, remove}
use swarm_mesh.HashMap.Laws.{get-insert, get-insert_self, get-remove}
use swarm_mesh.Mesh.Message.{NodeId, Message, pong, PingPongPayload}
use swarm_mesh.Mesh.Peer.{PeerInfo}
use swarm_mesh.Mesh.Rtt.{RttStats, duration_max, default_stats, update}
use swarm_mesh.Mesh.Rtt.Updates.{IsUpdated, first_update-IsUpdated, next_update-IsUpdated}
use swarm_mesh.Node.Secure.{IsSecure, has_transport-IsSecure}
use swarm_mesh.Node.World.{Env, World, none_held, done, ◌>>=◌, set_peer_db, set_ping_db}
use swarm_mesh.Node.World.Runs.{if_free}
use swarm_mesh.Node.Ping.{
  has_transport, can_take_ping, handle_ping, can_take_pong_of, can_take_pong, record_rtt,
  handle_pong,
}

module _ {Hs Ts : Type 0} where
  -- What `handle_ping` returns, as a function of the two tables.
  abbrev pub ping_answer : PingPongPayload → World Hs Ts → Option (ℕ × Message)
  ping_answer p w = elim (get p.node_id w.peer_db) [
    | none ↦ none
    | some info ↦
        if has_transport p.node_id w.session_db
        then some (info.port, pong (record { node_id = w.id; sequence = p.sequence }))
        else none
  ]

  handle_ping-answer :
      (p : PingPongPayload) (w : World Hs Ts)
      → w.held ≡ none_held
      → handle_ping p w ≡ done (ok (ping_answer p w)) w
  unfolding handle_ping can_take_ping contains_key ◌>>=◌
  handle_ping-answer p =
      if_free (λ w. handle_ping p w ≡ done (ok (ping_answer p w)) w)
        λ w. elim (Option-cases (get p.node_id w.peer_db)) [
          | inl e ↦ rw (e, contains_key, ping_answer)
          | inr (info, e) ↦ elim (Bool-cases (has_transport p.node_id w.session_db)) [
            | inl t ↦ rw (e, contains_key, t, ping_answer) (rw e refl)
            | inr t ↦ rw (e, contains_key, t, ping_answer)
          ]
        ]

  -- A ping, where no lock is held. If its sender is a known peer with a session in transport mode,
  -- the answer is a pong of this node with the ping's sequence number, for the peer's unicast port.
  -- If the sender is no known peer or has no such session, there is no answer. The node itself does
  -- not change.
  pub handle_ping_lem :
      (p : PingPongPayload) (w : World Hs Ts)
      → w.held ≡ none_held
      → ((info : PeerInfo)
          → get p.node_id w.peer_db ≡ some info
          → IsSecure p.node_id w.session_db
          → handle_ping p w
            ≡ done
                (ok (some (info.port, pong (record { node_id = w.id; sequence = p.sequence }))))
                w)
        × (get p.node_id w.peer_db ≡ none → handle_ping p w ≡ done (ok none) w)
        × ((IsSecure p.node_id w.session_db → ⊥) → handle_ping p w ≡ done (ok none) w)
  handle_ping_lem p w free = (
    λ info g s.
        handle_ping-answer p w free
        ∙ rw (g, ping_answer, (has_transport-IsSecure p.node_id w.session_db).1 s) refl,
    λ g. handle_ping-answer p w free ∙ rw (g, ping_answer) refl,
    λ s. handle_ping-answer p w free ∙ elim (Bool-cases (has_transport p.node_id w.session_db)) [
      | inl t ↦ absurd (s ((has_transport-IsSecure p.node_id w.session_db).0 t))
      | inr t ↦ elim (Option-cases (get p.node_id w.peer_db)) [
        | inl g ↦ rw (g, ping_answer) refl
        | inr (info, g) ↦ rw (g, ping_answer, t) refl
      ]
    ],
  )

module _ {P F Hs Ts : Type 0} (env : Env P F Hs Ts) where
  -- The node after a pong that it took.
  abbrev pub after_pong : PingPongPayload → ℕ → PeerInfo → World Hs Ts → World Hs Ts
  after_pong p ts info w =
      set_ping_db (remove (p.node_id, p.sequence) w.ping_db)
        (set_peer_db (insert p.node_id (record_rtt env (w.now - ts) info) w.peer_db) w)

  handle_pong-taken :
      (p : PingPongPayload) (w : World Hs Ts) (info : PeerInfo) (ts : ℕ)
      → w.held ≡ none_held
      → get p.node_id w.peer_db ≡ some info
      → has_transport p.node_id w.session_db ≡ true
      → get (p.node_id, p.sequence) w.ping_db ≡ some ts
      → handle_pong env p w ≡ done (ok tt) (after_pong p ts info w)
  unfolding handle_pong can_take_pong can_take_pong_of contains_key ◌>>=◌
  handle_pong-taken p w info ts free k s t =
      if_free
        (λ w.
          get p.node_id w.peer_db ≡ some info
          → has_transport p.node_id w.session_db ≡ true
          → get (p.node_id, p.sequence) w.ping_db ≡ some ts
          → handle_pong env p w ≡ done (ok tt) (after_pong p ts info w))
        (λ w k s t. rw (k, contains_key, s, t) (rw (k) refl)) w free k s t

  pub handle_pong-ignored :
      (p : PingPongPayload) (w : World Hs Ts)
      → w.held ≡ none_held
      → get (p.node_id, p.sequence) w.ping_db ≡ none
      → handle_pong env p w ≡ done (ok tt) w
  unfolding handle_pong can_take_pong can_take_pong_of contains_key ◌>>=◌
  handle_pong-ignored p w free =
      if_free
        (λ w. get (p.node_id, p.sequence) w.ping_db ≡ none → handle_pong env p w ≡ done (ok tt) w)
        (λ w t. elim (Bool-cases (contains_key p.node_id w.peer_db)) [
          | inl c ↦ elim (Bool-cases (has_transport p.node_id w.session_db)) [
            | inl s ↦ rw (c, s, t)
            | inr s ↦ rw (c, s)
          ]
          | inr c ↦ rw c
        ])
        w free

  record_rtt-IsUpdated :
      (rtt : ℕ) (info : PeerInfo)
      → rtt ≤ duration_max
      → (s : RttStats) × (record_rtt env rtt info ≡ record info { rtt_stats = some s })
        × IsUpdated env.f64 rtt info.rtt_stats s
  unfolding record_rtt
  record_rtt-IsUpdated rtt info h = elim (Option-cases info.rtt_stats) [
    | inl e ↦ (
      update env.f64 rtt default_stats,
      rw (e) refl,
      rw (e) (first_update-IsUpdated env.f64 rtt h),
    )
    | inr (o, e) ↦ (update env.f64 rtt o, rw (e) refl, rw (e) (next_update-IsUpdated env.f64 rtt o))
  ]

  -- A pong, where no lock is held, that repeats the sequence number of an outstanding ping to its
  -- sender, a known peer with a session in transport mode: the time since the ping, which a
  -- `Duration` can hold, goes into the round trip times of the peer, which is otherwise as before,
  -- and so are all other peers. The ping is no longer outstanding, nothing is sent, and the same
  -- pong, repeated, changes nothing.
  pub handle_pong-once :
      (p : PingPongPayload) (w : World Hs Ts) (info : PeerInfo) (ts : ℕ)
      → w.held ≡ none_held
      → get p.node_id w.peer_db ≡ some info
      → IsSecure p.node_id w.session_db
      → get (p.node_id, p.sequence) w.ping_db ≡ some ts
      → w.now - ts ≤ duration_max
      → (v : World Hs Ts) × (s : RttStats) × (handle_pong env p w ≡ done (ok tt) v)
        × (get p.node_id v.peer_db ≡ some (record info { rtt_stats = some s }))
        × IsUpdated env.f64 (w.now - ts) info.rtt_stats s
        × ((k : ℕ) → k ≢ p.node_id → get k v.peer_db ≡ get k w.peer_db)
        × (get (p.node_id, p.sequence) v.ping_db ≡ none)
        × (v.sent ≡ w.sent)
        × (handle_pong env p v ≡ done (ok tt) v)
  handle_pong-once p w info ts free k s t small =
      let k' : NodeId × ℕ = (p.node_id, p.sequence) in
      let gone : get k' (remove k' w.ping_db) ≡ none =
        rw (get-remove k' k' w.ping_db, (pair_key.agrees_iff k' k').1 refl) in
      let (stats, same, updated) = record_rtt-IsUpdated (w.now - ts) info small in
      (
        after_pong p ts info w,
        stats,
        handle_pong-taken p w info ts free k ((has_transport-IsSecure p.node_id w.session_db).1 s)
            t,
        get-insert_self p.node_id _ w.peer_db ∙ ap some same,
        updated,
        λ j ne.
            get-insert p.node_id j _ w.peer_db ∙ elim (Bool-cases (nat_key.agrees p.node_id j)) [
              | inl q ↦ absurd (ne (sym ((nat_key.agrees_iff p.node_id j).0 q)))
              | inr q ↦ rw (q) refl
            ],
        gone,
        refl,
        handle_pong-ignored p (after_pong p ts info w) free gone,
      )
