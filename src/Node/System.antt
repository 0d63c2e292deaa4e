-- ===== src/Node/System.antt =====
-- A whole node: the tasks that `main` of apps/node/src/main.rs spawns, over the shared state. A task
-- runs one round at a time, without interleaving inside a round. When a round gets stuck or
-- panics, the node goes on from the state and the locks that the round left. The tasks for metrics
-- and heartbeats change nothing here and are left out.
pub mod Quiet
pub mod Parts
pub mod Leaked
pub mod Completes
pub mod Terminates
pub mod Shared
pub mod Handlers
pub mod Silence
use swarm_mesh.Prelude.{ℕ, ◌+◌, List, [], ◌∷◌, ◌≡◌, refl}
use swarm_mesh.Mesh.Peer.{SocketAddr}
use swarm_mesh.Node.World.{Env, World, Outcome, done, stuck, panicked, M, modify, panic}
use swarm_mesh.Node.LinkState.{broadcast_lsa, cleanup_stale_lsas}
use swarm_mesh.Node.Receive.{Datagram, receive}
use swarm_mesh.Node.Tasks.{broadcast, ping_peers, remove_stale_peers}

-- What happens next: a datagram arrives, a periodic task is due, time passes, or `recv_from` fails on
-- both sockets. Where it fails on one of them, `select!` waits for the other.
pub data Event : Type 0 where
  arrives : Datagram → Event
  hello_due : SocketAddr → Event
  ping_due monitor_due lsa_refresh_due lsa_cleanup_due : Event
  time_passes : ℕ → ℕ → Event
  sockets_fail : Event

module _ {P F Hs Ts : Type 0} (env : Env P F Hs Ts) where
  unfoldable pub round : Event → M Hs Ts (Unit {0})
  round (arrives d) = receive env d
  round (hello_due addr) = broadcast env addr
  round ping_due = ping_peers env
  round monitor_due = remove_stale_peers env
  round lsa_refresh_due = broadcast_lsa env
  round lsa_cleanup_due = cleanup_stale_lsas
  -- The panic of `select!`, which has no `else`.
  round sockets_fail = panic
  round (time_passes ns s) = modify (λ w. record w { now = w.now + ns; unix_now = w.unix_now + s })

  pub data Step (w v : World Hs Ts) : Type 0 where
    returns : (e : Event) → round e w ≡ done tt v → Step w v
    hangs : (e : Event) → round e w ≡ stuck v → Step w v
    dies : (e : Event) → round e w ≡ panicked v → Step w v

  pub data Reach (w : World Hs Ts) : World Hs Ts → Type 0 where
    here : Reach w w
    next : {u v : World Hs Ts} → Reach w u → Step u v → Reach w v

module _ {Hs Ts A : Type 0} where
  -- The world that a run leaves.
  abbrev pub left : Outcome Hs Ts A → World Hs Ts
  left (done a v) = v
  left (stuck v) = v
  left (panicked v) = v

module _ {P F Hs Ts : Type 0} (env : Env P F Hs Ts) where
  pub round-Step :
      (e : Event) (w : World Hs Ts) (o : Outcome Hs Ts (Unit {0}))
      → round env e w ≡ o
      → Step env w (left o)
  round-Step e w (done u v) q = returns e q
  round-Step e w (stuck v) q = hangs e q
  round-Step e w (panicked v) q = dies e q

  -- The rounds of some events, one after another.
  unfoldable pub after : List Event → World Hs Ts → World Hs Ts
  after [] w = w
  after (e ∷ es) w = left (round env e (after es w))

  pub after-Reach : (es : List Event) (w : World Hs Ts) → Reach env w (after es w)
  unfolding after
  after-Reach [] w = here
  after-Reach (e ∷ es) w =
      next (after-Reach es w) (round-Step e (after es w) (round env e (after es w)) refl)
