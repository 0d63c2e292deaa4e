-- ===== src/Node/Ping.antt =====
-- crates/node/src/node.rs: pings, pongs and the table of outstanding pings.
pub mod Answers
pub mod Cleaning
use swarm_mesh.Prelude.{
  ℕ, ◌+◌, ◌-◌, ◌*◌, Bool, true, false, Option, none, some, Result, ok, err, ltb, if◌then◌else◌,
  nat_key, pair_key,
}
use swarm_mesh.HashMap.{Map, get, contains_key, insert, remove, retain}
use swarm_mesh.Mesh.Message.{NodeId, Message, ping, pong, PingPongPayload, Failure}
use swarm_mesh.Mesh.Peer.{SocketAddr, PeerInfo, PeerSession, is_transport}
use swarm_mesh.Mesh.Rtt.{RttStats, default_stats, update}
use swarm_mesh.Node.World.{
  Env, Lock, peer_lock, session_lock, ping_lock, World, Outcome, done, M, pure, gets, modify,
  with_lock, ◌>>=◌, ◌>>◌, set_peer_db, set_ping_db,
}
use swarm_mesh.Node.Send.{send_unicast_message}

-- `Duration::from_secs`, in nanoseconds.
abbrev pub from_secs : ℕ → ℕ
from_secs s = s * 1000000000

module _ {Hs Ts : Type 0} where
  -- `matches!(session_db.get(&id), Some(PeerSession { noise: Transport(_) }))`
  unfoldable pub has_transport : NodeId → Map NodeId (PeerSession Hs Ts) → Bool
  has_transport id sessions = elim (get id sessions) [
    | none ↦ false
    | some s ↦ is_transport s.noise
  ]

  -- Each operand of `&&` drops its guard at its end, so the locks are held one after the other.
  unfoldable pub can_take_ping : PingPongPayload → M Hs Ts Bool
  can_take_ping payload = do
    known ← with_lock peer_lock (gets (λ w. contains_key payload.node_id w.peer_db))
    if known
        then with_lock session_lock (gets (λ w. has_transport payload.node_id w.session_db))
        else pure false

  unfoldable pub handle_ping : PingPongPayload → M Hs Ts (Result Failure (Option (ℕ × Message)))
  handle_ping payload = do
    takes ← can_take_ping payload
    if takes
        then with_lock peer_lock (
            gets λ w. elim (get payload.node_id w.peer_db) [
              | none ↦ ok none
              | some info ↦
                  ok (
                    some (info.port, pong (record { node_id = w.id; sequence = payload.sequence })))
            ])
        else pure (ok none)

  -- The rest of `can_take_pong`, from the check of the session on.
  unfoldable pub can_take_pong_of : PingPongPayload → M Hs Ts (Option ((NodeId × ℕ) × ℕ))
  can_take_pong_of payload = do
    secure ← with_lock session_lock (gets (λ w. has_transport payload.node_id w.session_db))
    let k : NodeId × ℕ = (payload.node_id, payload.sequence)
    if secure
        then with_lock ping_lock
            (gets (λ w. elim (get k w.ping_db) [ none ↦ none | some ts ↦ some (k, ts) ]))
        else pure none

  unfoldable pub can_take_pong : PingPongPayload → M Hs Ts (Option ((NodeId × ℕ) × ℕ))
  can_take_pong payload = do
    known ← with_lock peer_lock (gets (λ w. contains_key payload.node_id w.peer_db))
    if known then can_take_pong_of payload else pure none

  unfoldable pub clean_stale_pings : M Hs Ts (Unit {0})
  clean_stale_pings =
      with_lock ping_lock
        (modify (λ w. set_ping_db (retain (λ e. ltb (from_secs 30) (w.now - e.1)) w.ping_db) w))

module _ {P F Hs Ts : Type 0} (env : Env P F Hs Ts) where
  -- `p.rtt_stats.get_or_insert_with(RttStats::default).update(rtt)`
  unfoldable pub record_rtt : ℕ → PeerInfo → PeerInfo
  record_rtt rtt p =
      let s : RttStats = elim p.rtt_stats [ none ↦ default_stats | some s ↦ s ] in
      record p { rtt_stats = some (update env.f64 rtt s) }

  unfoldable pub handle_pong : PingPongPayload → M Hs Ts (Result Failure (Unit {0}))
  handle_pong payload = do
    taken ← can_take_pong payload
    elim taken [
      | none ↦ pure (ok tt)
      | some (k, ping_ts) ↦ with_lock peer_lock λ w. elim (get k.0 w.peer_db) [
        | none ↦ done (ok tt) w
        | some p ↦
            (do
              modify (set_peer_db (insert k.0 (record_rtt (w.now - ping_ts) p) w.peer_db))
              with_lock ping_lock (modify (λ v. set_ping_db (remove k v.ping_db) v))
              pure (ok tt))
              w
      ]
    ]

  unfoldable pub send_ping : NodeId → ℕ → ℕ → SocketAddr → M Hs Ts (Result Failure (Unit {0}))
  send_ping node_id unicast_port sequence addr = do
    with_lock ping_lock (modify (λ w. set_ping_db (insert (node_id, sequence) w.now w.ping_db) w))
    id ← gets (λ w. w.id)
    send_unicast_message env (ping (record { node_id = id; sequence = sequence })) unicast_port addr
