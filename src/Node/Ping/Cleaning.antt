-- ===== src/Node/Ping/Cleaning.antt =====
-- `clean_stale_pings` of crates/node/src/node.rs, which runs before every round of pings.
use swarm_mesh.Prelude.{
  ℕ, ◌-◌, ◌≤◌, none, some, ok, ◌≡◌, refl, ap, ◌∙◌, nat_key, pair_key, ltb, leb, arith,
  if◌then◌else◌,
}
use swarm_mesh.HashMap.{get, retain, IsMap}
use swarm_mesh.HashMap.Laws.{get-retain, kept}
use swarm_mesh.Mesh.Message.{PingPongPayload}
use swarm_mesh.Node.World.{Env, World, none_held, done, set_ping_db, ◌>>=◌}
use swarm_mesh.Node.World.Runs.{if_free}
use swarm_mesh.Node.Ping.{from_secs, clean_stale_pings, handle_pong}
use swarm_mesh.Node.Ping.Answers.{handle_pong-ignored}

module _ {Hs Ts : Type 0} where
  abbrev pub cleaned : World Hs Ts → World Hs Ts
  cleaned w = set_ping_db (retain (λ e. ltb (from_secs 30) (w.now - e.1)) w.ping_db) w

  clean_stale_pings-cleaned :
      (w : World Hs Ts) → w.held ≡ none_held → clean_stale_pings w ≡ done tt (cleaned w)
  unfolding clean_stale_pings ◌>>=◌
  clean_stale_pings-cleaned w free =
      if_free (λ w. clean_stale_pings w ≡ done tt (cleaned w)) (λ w. refl) w free

  -- Cleaning the outstanding pings, where no lock is held, returns, and keeps exactly the pings
  -- that are older than 30 seconds: it drops those that can still be answered.
  pub clean_stale_pings-inverted :
      (w : World Hs Ts) (k : ℕ × ℕ) (ts : ℕ)
      → w.held ≡ none_held
      → IsMap w.ping_db
      → get k w.ping_db ≡ some ts
      → (clean_stale_pings w ≡ done tt (cleaned w))
        × (get k (cleaned w).ping_db ≡ (if leb (w.now - ts) (from_secs 30) then none else some ts))
  clean_stale_pings-inverted w k ts free d g =
      let found : get k (cleaned w).ping_db
          ≡ (if ltb (from_secs 30) (w.now - ts) then some ts else none) =
        get-retain _ k w.ping_db d ∙ ap (kept (λ e. ltb (from_secs 30) (w.now - e.1)) k) g in
      (clean_stale_pings-cleaned w free, found ∙ ground arith)

module _ {P F Hs Ts : Type 0} (env : Env P F Hs Ts) where
  -- After a cleaning, where no lock is held, the pong to any ping of the last 30 seconds is ignored.
  pub clean_stale_pings-handle_pong :
      (w : World Hs Ts) (p : PingPongPayload) (ts : ℕ)
      → w.held ≡ none_held
      → IsMap w.ping_db
      → get (p.node_id, p.sequence) w.ping_db ≡ some ts
      → w.now - ts ≤ from_secs 30
      → (v : World Hs Ts) × (clean_stale_pings w ≡ done tt v)
        × (handle_pong env p v ≡ done (ok tt) v)
  clean_stale_pings-handle_pong w p ts free d g fresh =
      let (run, found) = clean_stale_pings-inverted w (p.node_id, p.sequence) ts free d g in
      (cleaned w, run, handle_pong-ignored env p (cleaned w) free (found ∙ ground arith))
