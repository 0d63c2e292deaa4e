-- ===== src/Witnesses/Orders.antt =====
-- A refresh of the advertisement while another task holds the lock of the sessions.
use swarm_mesh.Prelude.{ℕ, ◌≡◌, ◌⊎◌, refl, []}
use swarm_mesh.Node.World.{World, done, stuck, none_held, acquire, session_lock}
use swarm_mesh.Node.LinkState.Own.{advertised, broadcast_lsa-advertised}
use swarm_mesh.Node.System.{round, lsa_refresh_due}
use swarm_mesh.Node.Order.{IsOrdered}
use swarm_mesh.Node.Order.Rounds.{round-IsOrdered}
use swarm_mesh.Witnesses.Toy.{toy, secure}

abbrev busy : World ℕ ℕ
busy = record secure { held = acquire session_lock none_held }

round-secure : round toy lsa_refresh_due secure ≡ done tt (advertised toy secure)
unfolding round
round-secure = broadcast_lsa-advertised toy [] secure refl refl

round-IsOrdered_example :
    (round toy lsa_refresh_due busy
      ≡ done tt (record (advertised toy secure) { held = acquire session_lock none_held }))
    ⊎ ((v : World ℕ ℕ) × (round toy lsa_refresh_due busy ≡ stuck v)
        × IsOrdered (acquire session_lock none_held) v)
round-IsOrdered_example =
    round-IsOrdered toy lsa_refresh_due busy (advertised toy secure) round-secure
