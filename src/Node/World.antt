-- ===== src/Node/World.antt =====
-- The state of a node (crates/node/src/state.rs, connection.rs and the struct of node.rs), with
-- what its handlers see of the outside, and the monad of the handlers.
-- A `tokio` mutex is not reentrant: a task that locks one which it holds waits for ever. So a run
-- of a handler ends by returning, by a panic, or stuck at such a lock.
pub mod Keeps
pub mod Runs
pub mod Returns
use swarm_mesh.Prelude.{
  ℕ, Bool, true, false, List, Option, Bytes, Text, Result, ok, err, if◌then◌else◌,
}
use swarm_mesh.HashMap.{Map}
use swarm_mesh.Mesh.Message.{NodeId, Message, LinkStatePayload}
use swarm_mesh.Mesh.Peer.{SocketAddr, PeerInfo, PeerSession}
use swarm_mesh.Mesh.Rtt.{Floats}
use swarm_mesh.Noise.{Snow, Keypair}

pub data Socket : Type 0 where
  multicast_socket unicast_socket : Socket

-- A datagram that was handed to `send_to`.
pub record Packet : Type 0 where
  pub message : Message
  pub dest : SocketAddr
  pub socket : Socket

-- How `time::timeout(5 s, send_to(..))` ends: the inner call succeeds, it fails, or time runs out.
pub data Delivery : Type 0 where
  delivered io_error elapsed : Delivery

-- The libraries and the network. The outcome of a send may depend on what was sent before.
pub record Env (P F Hs Ts : Type 0) : Type 0 where
  pub snow : Snow P Hs Ts
  pub f64 : Floats F
  pub serialize : Message → Option Bytes
  pub deserialize : Bytes → Option Message
  pub delivery : List Packet → Packet → Delivery

pub record State (Hs Ts : Type 0) : Type 0 where
  pub peer_db : Map NodeId PeerInfo
  pub session_db : Map NodeId (PeerSession Hs Ts)
  pub ping_db : Map (ℕ × ℕ) ℕ
  pub link_state_db : Map NodeId LinkStatePayload

-- Of the struct `Connection` the sockets are in `Packet`.
pub record Node (Hs Ts : Type 0) : Type 0 where
  pub id : NodeId
  pub network_key : Bytes
  pub static_keys : Keypair
  pub unicast_port : ℕ
  pub state : State Hs Ts
  pub open state use *
  pub lsa_sequence : ℕ
  pub ip : Text

-- `State::new`
abbrev pub new_state :
    {Hs Ts : Type 0}
    → Map NodeId PeerInfo
    → Map NodeId (PeerSession Hs Ts)
    → Map (ℕ × ℕ) ℕ
    → Map NodeId LinkStatePayload
    → State Hs Ts
new_state peer_db session_db ping_db link_state_db = record {
  peer_db = peer_db;
  session_db = session_db;
  ping_db = ping_db;
  link_state_db = link_state_db;
}

-- `Node::new`
abbrev pub new_node :
    {Hs Ts : Type 0} → NodeId → Bytes → Keypair → ℕ → State Hs Ts → Text → Node Hs Ts
new_node id network_key static_keys unicast_port state ip = record {
  id = id;
  network_key = network_key;
  static_keys = static_keys;
  unicast_port = unicast_port;
  state = state;
  lsa_sequence = 0;
  ip = ip;
}

pub data Lock : Type 0 where
  peer_lock session_lock ping_lock link_state_lock lsa_sequence_lock : Lock

-- Which mutexes are held.
pub record Held : Type 0 where
  pub peer : Bool
  pub session : Bool
  pub ping : Bool
  pub link_state : Bool
  pub lsa_sequence : Bool

abbrev pub none_held : Held
none_held = record {
  peer = false;
  session = false;
  ping = false;
  link_state = false;
  lsa_sequence = false;
}

abbrev pub is_held : Lock → Held → Bool
is_held peer_lock h = h.peer
is_held session_lock h = h.session
is_held ping_lock h = h.ping
is_held link_state_lock h = h.link_state
is_held lsa_sequence_lock h = h.lsa_sequence

abbrev pub acquire : Lock → Held → Held
acquire peer_lock h = record h { peer = true }
acquire session_lock h = record h { session = true }
acquire ping_lock h = record h { ping = true }
acquire link_state_lock h = record h { link_state = true }
acquire lsa_sequence_lock h = record h { lsa_sequence = true }

-- `now` is what `Instant::now()` reads, in nanoseconds, and `unix_now` the system time in seconds;
-- neither moves within one run of a handler. `ping_sequence` is the local of `ping_peers`. `sent`
-- has the last packet first.
pub record World (Hs Ts : Type 0) : Type 0 where
  pub node : Node Hs Ts
  pub open node use *
  pub held : Held
  pub sent : List Packet
  pub now : ℕ
  pub unix_now : ℕ
  pub ping_sequence : ℕ

-- How a run of a handler ends.
pub data Outcome (Hs Ts A : Type 0) : Type 0 where
  done : A → World Hs Ts → Outcome Hs Ts A
  stuck : World Hs Ts → Outcome Hs Ts A
  panicked : World Hs Ts → Outcome Hs Ts A

abbrev pub M : Type 0 → Type 0 → Type 0 → Type 0
M Hs Ts A = World Hs Ts → Outcome Hs Ts A

module _ {Hs Ts A : Type 0} where
  unfoldable pub pure : A → M Hs Ts A
  pure a w = done a w

  unfoldable pub gets : (World Hs Ts → A) → M Hs Ts A
  gets f w = done (f w) w

  unfoldable pub panic : M Hs Ts A
  panic w = panicked w

  -- A guard lives until its scope ends; a panic drops it too. What is stuck stays as it is.
  abbrev pub release : Held → Outcome Hs Ts A → Outcome Hs Ts A
  release h (done a w) = done a (record w { held = h })
  release h (stuck w) = stuck w
  release h (panicked w) = panicked (record w { held = h })

  -- `lock().await` with the scope of the guard.
  unfoldable pub with_lock : Lock → M Hs Ts A → M Hs Ts A
  with_lock l m w =
      if is_held l w.held
      then stuck w
      else release w.held (m (record w { held = acquire l w.held }))

module _ {Hs Ts : Type 0} where
  unfoldable pub modify : (World Hs Ts → World Hs Ts) → M Hs Ts (Unit {0})
  modify f w = done tt (f w)

module _ {Hs Ts A B : Type 0} where
  abbrev pub continue : Outcome Hs Ts A → (A → M Hs Ts B) → Outcome Hs Ts B
  continue (done a w) f = f a w
  continue (stuck w) f = stuck w
  continue (panicked w) f = panicked w

  infixl 5 ◌>>=◌
  -- Opening this opens the actions above.
  unfoldable pub ◌>>=◌ : M Hs Ts A → (A → M Hs Ts B) → M Hs Ts B
  unfolding pure gets panic with_lock modify
  ◌>>=◌ m f w = continue (m w) f

  infixl 5 ◌>>◌
  abbrev pub ◌>>◌ : M Hs Ts A → M Hs Ts B → M Hs Ts B
  m >> k = m >>= λ _. k

module _ {Hs Ts : Type 0} where
  abbrev pub set_state : State Hs Ts → World Hs Ts → World Hs Ts
  set_state s w = record w { node = record w.node { state = s } }

  abbrev pub set_peer_db : Map NodeId PeerInfo → World Hs Ts → World Hs Ts
  set_peer_db m w = set_state (record w.state { peer_db = m }) w

  abbrev pub set_session_db : Map NodeId (PeerSession Hs Ts) → World Hs Ts → World Hs Ts
  set_session_db m w = set_state (record w.state { session_db = m }) w

  abbrev pub set_ping_db : Map (ℕ × ℕ) ℕ → World Hs Ts → World Hs Ts
  set_ping_db m w = set_state (record w.state { ping_db = m }) w

  abbrev pub set_link_state_db : Map NodeId LinkStatePayload → World Hs Ts → World Hs Ts
  set_link_state_db m w = set_state (record w.state { link_state_db = m }) w
