-- ===== src/Witnesses/Wedges.antt =====
-- A handshake that fails, and stale peers.
use swarm_mesh.Prelude.{ℕ, ◌+◌, ◌<◌, ◌≤◌, arith, none, true, [], ◌∷◌, some, err, ◌≡◌, refl, nat_key}
use swarm_mesh.HashMap.{get}
use swarm_mesh.Mesh.Message.{unable_to_read, unexpected_noise_state}
use swarm_mesh.Mesh.Peer.{PeerInfo, transitioning}
use swarm_mesh.Node.World.{World, done, stuck}
use swarm_mesh.Node.Handshake.{handle_handshake}
use swarm_mesh.Node.Handshake.Wedge.{handle_handshake-unreadable}
use swarm_mesh.Node.Receive.{on_hello}
use swarm_mesh.Node.Tasks.{remove_stale_peers}
use swarm_mesh.Node.Tasks.Stale.{remove_stale_peers-stuck}
use swarm_mesh.Witnesses.Toy.{toy, peer7, halfway, garbled, third, secure, session, unicast_addr}

handle_handshake-unreadable_example :
    (v : World ℕ ℕ) × (handle_handshake toy garbled unicast_addr halfway
      ≡ done (err unable_to_read) v)
    × (get 7 v.session_db ≡ some (session transitioning))
    × ((u : World ℕ ℕ) × (handle_handshake toy third unicast_addr v
          ≡ done (err unexpected_noise_state) u)
        × (u.sent ≡ v.sent)
        × (get 7 u.session_db ≡ some (session transitioning)))
    × ((u : World ℕ ℕ) × (on_hello toy (record { node_id = 7; unicast_port = 6000 }) unicast_addr v
          ≡ done tt u)
        × (u.sent ≡ v.sent)
        × (u.session_db ≡ v.session_db))
unfolding get
handle_handshake-unreadable_example =
    handle_handshake-unreadable toy garbled unicast_addr 2 halfway (2 ∷ []) 5000 6000 unicast_addr
      refl refl refl

remove_stale_peers-stuck_example :
    (v : World ℕ ℕ) × (remove_stale_peers toy secure ≡ stuck v)
    × ((k : ℕ) (i : PeerInfo)
        → get k secure.peer_db ≡ some i
        → i.last_seen + 60000000000 < secure.now
        → (get k v.peer_db ≡ none) × (get k v.session_db ≡ none))
    × ((k : ℕ) (i : PeerInfo)
        → get k secure.peer_db ≡ some i
        → secure.now ≤ i.last_seen + 60000000000
        → (get k v.peer_db ≡ some i) × (get k v.session_db ≡ get k secure.session_db))
    × (v.sent ≡ secure.sent)
    × (v.held.peer ≡ true)
    × (v.held.session ≡ true)
unfolding get
remove_stale_peers-stuck_example =
    remove_stale_peers-stuck toy secure 7 peer7 refl (refl, tt) refl (omega arith)
