-- ===== src/Witnesses/Discoveries.antt =====
-- Hello messages, and datagrams that are ignored.
use swarm_mesh.Prelude.{true, ℕ, ◌<◌, [], ◌∷◌, some, ◌≡◌, ◌≢◌, refl, ◌⊎◌, inr, arith, ok, nat_key}
use swarm_mesh.Mesh.Message.{Message, hello, handshake, HelloPayload, HandshakePayload}
use swarm_mesh.HashMap.{get}
use swarm_mesh.Noise.{start_handshake, build_responder}
use swarm_mesh.Node.World.{World, done, stuck, new_state, new_node, multicast_socket}
use swarm_mesh.Node.Handshake.{handle_hello, handle_handshake}
use swarm_mesh.Node.Handshake.Roles.{IsWaiting, IsInitiating, handle_hello-roles}
use swarm_mesh.Mesh.Peer.{handshaking, transport}
use swarm_mesh.Node.Handshake.Deadlock.{completes}
use swarm_mesh.Node.Handshake.Exchange.{hello_by, handshake_by, handle_hello-handle_handshake}
use swarm_mesh.Node.Receive.{Datagram, receive}
use swarm_mesh.Node.Receive.Ignored.{receive-ignored}
use swarm_mesh.Witnesses.Toy.{toy, start, hello_addr, unicast_addr, session}

-- Node 7, at its start.
abbrev other_start : World ℕ ℕ
other_start = record start {
  node =
      new_node 7 [] (record { private_key = []; public_key = [] }) 5000 (new_state [] [] [] []) [];
}

abbrev hello_of : ℕ → HelloPayload
hello_of id = record { node_id = id; unicast_port = 5000 }

handle_hello-roles_example :
    ((5 < 7)
      × IsWaiting toy 7 (handle_hello toy (hello_of 7) hello_addr start)
      × IsInitiating toy 5 1 (0 ∷ []) (handle_hello toy (hello_of 5) hello_addr other_start))
    ⊎ ((7 < 5)
        × IsWaiting toy 5 (handle_hello toy (hello_of 5) hello_addr other_start)
        × IsInitiating toy 7 1 (0 ∷ []) (handle_hello toy (hello_of 7) hello_addr start))
unfolding start_handshake
handle_hello-roles_example =
    handle_hello-roles toy start other_start (hello_of 5) (hello_of 7) hello_addr hello_addr 1 1
      (0 ∷ []) (0 ∷ []) refl refl (λ e. omega (arith, e)) refl refl refl refl

-- A handshake message of node 7 on the multicast socket.
abbrev misplaced : Datagram
misplaced = record { socket = multicast_socket; bytes = 1 ∷ 0 ∷ []; src = unicast_addr }

not_hello :
    (b : HandshakePayload) (msg : Message)
    → some (handshake b) ≡ some msg
    → (p : HelloPayload) → msg ≢ hello p
not_hello b msg e p q = ground arith

receive-ignored_example : receive toy misplaced start ≡ done tt start
receive-ignored_example = receive-ignored toy misplaced start (λ msg e.
    inr (inr (refl, not_hello (record { msg = 0 ∷ []; node_id = 7; unicast_port = 5000 }) msg e)))

-- Node 7 starts a handshake with node 5, which has not heard of it.
abbrev first : HandshakePayload
first = record { msg = 0 ∷ []; node_id = 7; unicast_port = 5000 }

-- Node 7 initiates with node 5.
handle_hello-handle_handshake_example :
    (a₁ : World ℕ ℕ) × (a₂ : World ℕ ℕ) × (b₁ : World ℕ ℕ) × (handle_hello toy
        (hello_by toy start)
        unicast_addr
        other_start
      ≡ done (ok (some (handshake (handshake_by toy other_start (0 ∷ []))))) a₁)
    × (handle_handshake toy (handshake_by toy other_start (0 ∷ [])) unicast_addr start
        ≡ done (ok (some (handshake (handshake_by toy start (1 ∷ []))))) b₁)
    × (handle_handshake toy (handshake_by toy start (1 ∷ [])) unicast_addr a₁ ≡ stuck a₂)
    × (get 5 a₂.session_db ≡ some (session (transport 3)))
    × (a₂.held.session ≡ true)
    × (a₂.sent ≡ [])
    × (get 7 b₁.session_db ≡ some (session (handshaking 2)))
unfolding get completes start_handshake build_responder
handle_hello-handle_handshake_example =
    handle_hello-handle_handshake toy other_start start unicast_addr unicast_addr 1 0 1 2 (0 ∷ [])
      (1 ∷ []) 3 refl refl (omega arith) refl refl refl refl refl refl
