-- ===== src/Witnesses/Toy.antt =====
-- A concrete environment: a handshake state is the number of messages that were exchanged, and a
-- message is that number. The third message completes the handshake.
use swarm_mesh.Prelude.{
  ℕ, suc, ◌+◌, ◌-◌, ◌*◌, ◌/◌, ◌^◌, [], ◌∷◌, Option, none, some, Bytes, nat_eqb, leb, if◌then◌else◌,
}
use swarm_mesh.Mesh.Message.{
  Message, hello, handshake, HandshakePayload, PingPongPayload, LinkStatePayload,
}
use swarm_mesh.Mesh.Peer.{SocketAddr, PeerInfo, PeerSession, NoiseState, transport, handshaking}
use swarm_mesh.Mesh.Rtt.{Floats}
use swarm_mesh.Noise.{Snow}
use swarm_mesh.Node.World.{
  Env, delivered, World, State, new_state, new_node, none_held, unicast_socket, multicast_socket,
}
use swarm_mesh.Node.Receive.{Datagram}

abbrev pub toy_read : ℕ → Bytes → ℕ → Option ℕ
toy_read n [] size = none
toy_read n (b ∷ bs) size = if nat_eqb n b then some (suc n) else none

abbrev pub toy_snow : Snow ℕ ℕ ℕ
toy_snow = record {
  parse_params = λ t. some 0;
  build_initiator = λ p key slot psk. some 0;
  build_responder = λ p key slot psk. some 0;
  write_message = λ n payload size. some (suc n, n ∷ []);
  read_message = toy_read;
  is_handshake_finished = λ n. leb 3 n;
  into_transport_mode = λ n. some n;
}

-- Thousandths, in nanoseconds.
abbrev pub toy_floats : Floats ℕ
toy_floats = record {
  lit = λ m k. m * 1000 / 10 ^ k;
  add = λ x y. x + y;
  sub = λ x y. x - y;
  mul = λ x y. x * y / 1000;
  as_secs_f64 = λ d. d;
  from_secs_f64 = λ x. x;
  from_usize = λ n. n * 1000;
}

abbrev pub toy_decode : Bytes → Option Message
toy_decode [] = none
toy_decode (b ∷ bs) =
    if nat_eqb b 0
    then some (hello (record { node_id = 7; unicast_port = 5000 }))
    else some (handshake (record { msg = bs; node_id = 7; unicast_port = 5000 }))

abbrev pub toy : Env ℕ ℕ ℕ ℕ
toy = record {
  snow = toy_snow;
  f64 = toy_floats;
  serialize = λ m. some [];
  deserialize = toy_decode;
  delivery = λ sent p. delivered;
}

-- The address from which Hello comes, and that of the other socket.
abbrev pub hello_addr : SocketAddr
hello_addr = record { ip = 100; port = 9999 }

abbrev pub unicast_addr : SocketAddr
unicast_addr = record { ip = 100; port = 5000 }

abbrev pub peer7 : PeerInfo
peer7 = record { last_seen = 0; addr = hello_addr; port = 5000; rtt_stats = none }

abbrev pub session : NoiseState ℕ ℕ → PeerSession ℕ ℕ
session n = record { noise = n }

abbrev pub world : State ℕ ℕ → World ℕ ℕ
world s = record {
  node = new_node 5 [] (record { private_key = []; public_key = [] }) 4000 s [];
  held = none_held;
  sent = [];
  now = 100000000000;
  unix_now = 1000;
  ping_sequence = 0;
}

abbrev pub start : World ℕ ℕ
start = world (new_state [] [] [] [])

-- In a handshake with node 7, before its last message.
abbrev pub halfway : World ℕ ℕ
halfway = world (new_state [] ((7, session (handshaking 2)) ∷ []) [] [])

abbrev pub third : HandshakePayload
third = record { msg = 2 ∷ []; node_id = 7; unicast_port = 5000 }

abbrev pub garbled : HandshakePayload
garbled = record { msg = 9 ∷ []; node_id = 7; unicast_port = 5000 }

-- A session with node 7, and a ping to it a second ago.
abbrev pub secure : World ℕ ℕ
secure =
    world (
      new_state ((7, peer7) ∷ []) ((7, session (transport 3)) ∷ []) (((7, 1), 99000000000) ∷ []) [])

abbrev pub pong1 : PingPongPayload
pong1 = record { node_id = 7; sequence = 1 }

abbrev pub lsa : ℕ → ℕ → ℕ → LinkStatePayload
lsa id sequence timestamp = record {
  node_id = id;
  sequence = sequence;
  timestamp = timestamp;
  neighbors = 5 ∷ [];
}

abbrev pub datagram : Bytes → Datagram
datagram b = record { socket = unicast_socket; bytes = b; src = unicast_addr }

abbrev pub greeting : Datagram
greeting = record { socket = multicast_socket; bytes = 0 ∷ []; src = hello_addr }
