-- ===== src/Witnesses/Networks.antt =====
-- Two nodes, the first of which says Hello to the other.
use swarm_mesh.Prelude.{
  ℕ, ◌<◌, [], ◌∷◌, Option, none, some, Bytes, ok, ◌≡◌, refl, sym, ap, ◌∙◌, some-injective, nat_eqb,
  take, inl, if◌then◌else◌, arith,
}
use swarm_mesh.Noise.{noise_params}
use swarm_mesh.Mesh.Message.{Message, hello, handshake, ping, pong, link_state, encrypted_data}
use swarm_mesh.Node.Tasks.{broadcast}
use swarm_mesh.Node.Send.{send_multicast_message}
use swarm_mesh.Node.World.{◌>>=◌, Env, Node, World, Packet, new_state, new_node, multicast_socket}
use swarm_mesh.Node.System.{Event, arrives, hello_due, round, left}
use swarm_mesh.App.{System, init_node, create_multicast_socket, perform, get_local_ip, network_key}
use swarm_mesh.Network.{replace, acts, Reach, here, more, IsCodec}
use swarm_mesh.Network.Real.{IsReal, start, Reach-IsReal}
use swarm_mesh.Witnesses.Toy.{toy, hello_addr}
use swarm_mesh.Witnesses.Dashboards.{toy_system}

-- Only Hello is written.
abbrev write : Message → Option Bytes
write (hello p) = some (p.node_id ∷ p.unicast_port ∷ [])
write (handshake p) = none
write (ping p) = none
write (pong p) = none
write (link_state p) = none
write (encrypted_data b) = none

abbrev read : Bytes → Option Message
read (id ∷ port ∷ []) = some (hello (record { node_id = id; unicast_port = port }))
read _ = none

abbrev env : ℕ → Env ℕ ℕ ℕ ℕ
env i = record toy { serialize = write; deserialize = read }

write-read : (m k : Message) (b : Bytes) → write m ≡ some b → read (take 1500 b) ≡ some k → k ≡ m
write-read (hello p) k b e r =
    some-injective k (hello p) (sym r ∙ ap (λ c. read (take 1500 c)) (sym (some-injective _ b e)))
write-read (handshake p) k b e r = absurd cc
write-read (ping p) k b e r = absurd cc
write-read (pong p) k b e r = absurd cc
write-read (link_state p) k b e r = absurd cc
write-read (encrypted_data c) k b e r = absurd cc

env-IsCodec : IsCodec 2 env
env-IsCodec i j m k b e r = write-read m k b e r

abbrev system : ℕ → System ℕ
system i = record toy_system { random = if nat_eqb i 0 then 5 else 7 }

abbrev node : ℕ → Node ℕ ℕ
node i =
    new_node (if nat_eqb i 0 then 5 else 7) network_key
      (record { private_key = []; public_key = [] }) 5000 (new_state [] [] [] []) []

node-made : (i : ℕ) → i < 2 → init_node (env i).snow (system i) ≡ ok (node i)
unfolding init_node create_multicast_socket perform get_local_ip noise_params
node-made i lt = refl

abbrev first : ℕ → World ℕ ℕ
first = start 2 env env-IsCodec system node (λ i. 0) (λ i. 0) node-made

-- After the Hello of the first node.
abbrev second : ℕ → World ℕ ℕ
second = replace 0 (left (round (env 0) (hello_due hello_addr) (first 0))) first

abbrev greeting : Event
greeting = arrives (record { socket = multicast_socket; bytes = 5 ∷ 5000 ∷ []; src = hello_addr })

-- After the other node has had it.
abbrev third : ℕ → World ℕ ℕ
third = replace 1 (left (round (env 1) greeting (second 1))) second

abbrev said : Packet
said = record {
  message = hello (record { node_id = 5; unicast_port = 5000 });
  dest = hello_addr;
  socket = multicast_socket;
}

third-reached : Reach 2 env first third
unfolding round broadcast ◌>>=◌ send_multicast_message
third-reached =
    more (more here (acts 0 (hello_due hello_addr) (omega arith) tt refl))
      (acts 1 greeting (omega arith) (0, said, omega arith, inl refl, refl) refl)

Reach-IsReal_example : IsReal 2 node 1 (third 1)
Reach-IsReal_example =
    Reach-IsReal 2 env env-IsCodec system node (λ i. 0) (λ i. 0) node-made 1 (omega arith)
      third-reached
