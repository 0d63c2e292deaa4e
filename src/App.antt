-- ===== src/App.antt =====
-- How apps/node/src/main.rs starts a node. The system, the random numbers and the key pairs of the
-- snow library are parameters.
pub mod Init
pub mod Beat
pub mod Heartbeats
pub mod Started
pub mod Typed
use swarm_mesh.Prelude.{
  ℕ, Bool, true, false, List, [], ◌∷◌, ◌++◌, Option, none, some, Result, ok, err, Text, Bytes,
  literal, if◌then◌else◌,
}
use swarm_mesh.Decimal.{to_string}
use swarm_mesh.Noise.{Snow, Keypair, noise_params}
use swarm_mesh.Mesh.Message.{Failure}
use swarm_mesh.Mesh.Peer.{SocketAddr}
use swarm_mesh.Service.{NodeRegistration, heartbeat}
use swarm_mesh.Node.World.{Node, World, new_state, new_node, none_held}

-- The fallible calls whose values the program only hands on: parsing an address, and what makes
-- and sets up a socket.
pub data Call : Type 0 where
  udp_socket set_reuse_address set_reuse_port set_nonblocking from_std : Call
  parse_socket_addr parse_ipv4 bind connect join_multicast : Text → Call

-- `rand::random`, `generate_keypair`, whether a call succeeds, `local_addr` of the unicast socket and
-- of the socket of `get_local_ip`, and `IpAddr::to_string`.
pub record System (P : Type 0) : Type 0 where
  pub random : ℕ
  pub generate_keypair : P → Option Keypair
  pub succeeds : Call → Bool
  pub unicast_local_addr : Option SocketAddr
  pub outward_local_addr : Option SocketAddr
  pub ip_to_string : ℕ → Text

pub data InitError : Type 0 where
  noise_failure : Failure → InitError
  no_keypair no_local_addr : InitError
  call_failed : Call → InitError

infixl 5 ◌>>=◌ ◌>>◌
abbrev pub ◌>>=◌ :
    {A B : Type 0} → Result InitError A → (A → Result InitError B) → Result InitError B
err e >>= f = err e
ok a >>= f = f a

abbrev pub ◌>>◌ : {A B : Type 0} → Result InitError A → Result InitError B → Result InitError B
m >> k = m >>= λ _. k

abbrev pub network_key : Bytes
network_key =
    103 ∷ 165 ∷ 15 ∷ 119 ∷ 163 ∷ 81 ∷ 115 ∷ 220 ∷ 194 ∷ 161 ∷ 41 ∷ 241 ∷ 216 ∷ 184 ∷ 82 ∷ 165 ∷ 53
    ∷ 1 ∷ 130 ∷ 9 ∷ 160 ∷ 218 ∷ 53 ∷ 124 ∷ 227 ∷ 244 ∷ 117 ∷ 14 ∷ 83 ∷ 141 ∷ 182 ∷ 42 ∷ []

abbrev pub multicast_addr : Text
multicast_addr = literal "224.0.0.1"

abbrev pub multicast_port : ℕ
multicast_port = 9999

-- The calls of `create_multicast_socket`, in order.
abbrev pub multicast_calls : List Call
multicast_calls =
    udp_socket
    ∷ set_reuse_address
    ∷ set_reuse_port
    ∷ parse_socket_addr (literal "0.0.0.0:" ++ to_string multicast_port)
    ∷ bind (literal "0.0.0.0:" ++ to_string multicast_port)
    ∷ parse_ipv4 multicast_addr
    ∷ join_multicast multicast_addr
    ∷ set_nonblocking
    ∷ from_std
    ∷ []

-- `anyhow::Context` and `?`
abbrev pub or_fail : {A : Type 0} → InitError → Option A → Result InitError A
or_fail e none = err e
or_fail e (some a) = ok a

module _ {P : Type 0} (system : System P) where
  -- The calls in order, up to the first that fails.
  unfoldable pub perform : List Call → Result InitError (Unit {0})
  perform [] = ok tt
  perform (c ∷ cs) =
      let rest = perform cs in if system.succeeds c then rest else err (call_failed c)

  unfoldable pub create_multicast_socket : Result InitError (Unit {0})
  unfolding perform
  create_multicast_socket = perform multicast_calls

  unfoldable pub get_local_ip : Result InitError Text
  unfolding perform
  get_local_ip = do
    perform (bind (literal "0.0.0.0:0") ∷ connect (literal "8.8.8.8:80") ∷ [])
    local_addr ← or_fail no_local_addr system.outward_local_addr
    ok (system.ip_to_string local_addr.ip)

module _ {P Hs Ts : Type 0} (snow : Snow P Hs Ts) (system : System P) where
  abbrev pub checked_params : Result Failure P → Result InitError P
  checked_params (err e) = err (noise_failure e)
  checked_params (ok p) = ok p

  unfoldable pub init_node : Result InitError (Node Hs Ts)
  unfolding create_multicast_socket get_local_ip
  init_node = do
    np ← checked_params (noise_params snow)
    static_keys ← or_fail no_keypair (system.generate_keypair np)
    create_multicast_socket system
    perform system (bind (literal "0.0.0.0:0") ∷ [])
    local_addr ← or_fail no_local_addr system.unicast_local_addr
    local_ip ← get_local_ip system
    ok (
        new_node system.random network_key static_keys local_addr.port (new_state [] [] [] [])
          local_ip)

module _ {Hs Ts : Type 0} where
  -- The world of a node before its tasks run.
  abbrev pub world_of : ℕ → ℕ → Node Hs Ts → World Hs Ts
  world_of now unix_now node = record {
    node = node;
    held = none_held;
    sent = [];
    now = now;
    unix_now = unix_now;
    ping_sequence = 0;
  }

  -- `Node::get_id`, `Node::get_local_ip` and `Node::get_port`
  abbrev pub get_id : Node Hs Ts → ℕ
  get_id n = n.id

  abbrev pub get_node_ip : Node Hs Ts → Text
  get_node_ip n = n.ip

  abbrev pub get_port : Node Hs Ts → ℕ
  get_port n = n.unicast_port

  -- The registration that `heartbeat_task` sends.
  abbrev pub registration_of : Node Hs Ts → NodeRegistration
  registration_of n = heartbeat (get_id n) (get_node_ip n) (get_port n)
