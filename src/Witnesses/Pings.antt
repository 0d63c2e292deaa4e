-- ===== src/Witnesses/Pings.antt =====
-- Pings to node 7, and their round trip times.
use swarm_mesh.Prelude.{ℕ, ◌≢◌, [], ◌∷◌, none, some, ok, ◌≡◌, refl, nat_key, pair_key, arith}
use swarm_mesh.HashMap.{get}
use swarm_mesh.Mesh.Message.{pong}
use swarm_mesh.Mesh.Rtt.Bounds.{stats_of, IsSummary, stats_of-IsSummary}
use swarm_mesh.Node.World.{World, done}
use swarm_mesh.Node.Ping.{handle_ping, handle_pong, clean_stale_pings}
use swarm_mesh.Mesh.Peer.{PeerInfo}
use swarm_mesh.Mesh.Rtt.{RttStats}
use swarm_mesh.Mesh.Rtt.Updates.{IsUpdated}
use swarm_mesh.Node.Secure.{IsSecure}
use swarm_mesh.Node.Ping.Answers.{handle_ping_lem, handle_pong-once}
use swarm_mesh.Node.Ping.Cleaning.{
  cleaned, clean_stale_pings-inverted, clean_stale_pings-handle_pong,
}
use swarm_mesh.Witnesses.Toy.{toy, toy_floats, secure, peer7, pong1}

handle_ping_lem_example :
    ((info : PeerInfo)
      → get 7 secure.peer_db ≡ some info
      → IsSecure 7 secure.session_db
      → handle_ping pong1 secure
        ≡ done (ok (some (info.port, pong (record { node_id = 5; sequence = 1 })))) secure)
    × (get 7 secure.peer_db ≡ none → handle_ping pong1 secure ≡ done (ok none) secure)
    × ((IsSecure 7 secure.session_db → ⊥) → handle_ping pong1 secure ≡ done (ok none) secure)
handle_ping_lem_example = handle_ping_lem pong1 secure refl

handle_ping-secure :
    handle_ping pong1 secure
    ≡ done (ok (some (5000, pong (record { node_id = 5; sequence = 1 })))) secure
unfolding get
handle_ping-secure = (handle_ping_lem pong1 secure refl).0 peer7 refl (3, refl)

handle_pong-once_example :
    (v : World ℕ ℕ) × (s : RttStats) × (handle_pong toy pong1 secure ≡ done (ok tt) v)
    × (get 7 v.peer_db ≡ some (record peer7 { rtt_stats = some s }))
    × IsUpdated toy_floats 1000000000 none s
    × ((k : ℕ) → k ≢ 7 → get k v.peer_db ≡ get k secure.peer_db)
    × (get (7, 1) v.ping_db ≡ none)
    × (v.sent ≡ secure.sent)
    × (handle_pong toy pong1 v ≡ done (ok tt) v)
unfolding get
handle_pong-once_example =
    handle_pong-once toy pong1 secure peer7 99000000000 refl refl (3, refl) refl (omega arith)

clean_stale_pings-inverted_example :
    (clean_stale_pings secure ≡ done tt (cleaned secure))
    × (get (7, 1) (cleaned secure).ping_db ≡ none)
unfolding get
clean_stale_pings-inverted_example =
    clean_stale_pings-inverted secure (7, 1) 99000000000 refl (refl, tt) refl

clean_stale_pings-handle_pong_example :
    (v : World ℕ ℕ) × (clean_stale_pings secure ≡ done tt v)
    × (handle_pong toy pong1 v ≡ done (ok tt) v)
unfolding get
clean_stale_pings-handle_pong_example =
    clean_stale_pings-handle_pong toy secure pong1 99000000000 refl (refl, tt) refl (omega arith)

stats_of-IsSummary_example :
    ((stats_of toy_floats (3000 ∷ 1000 ∷ [])).current_rtt ≡ some 3000)
    × IsSummary toy_floats (stats_of toy_floats (3000 ∷ 1000 ∷ [])) (3000 ∷ 1000 ∷ [])
stats_of-IsSummary_example =
    stats_of-IsSummary toy_floats 3000 (1000 ∷ []) (omega arith, (omega arith, tt))
