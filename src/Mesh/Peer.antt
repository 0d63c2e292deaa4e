-- ===== src/Mesh/Peer.antt =====
-- crates/mesh/src/peer.rs. `Instant`s and `Duration`s are numbers of nanoseconds; the instant that
-- `Instant::now()` reads is an argument. The two state types of the snow library are parameters.
use swarm_mesh.Prelude.{ℕ, Option, none, Bool, true, false, ◌&&◌, ◌≡◌, ◌↔◌, arith, nat_eqb, Key}
use swarm_mesh.Mesh.Rtt.{RttStats}

-- The library's socket address: an IP address, as a number, and a port.
pub record SocketAddr : Type 0 where
  pub ip : ℕ
  pub port : ℕ

pub addr_eqb_iff :
    (a b : SocketAddr) → (nat_eqb a.ip b.ip && nat_eqb a.port b.port ≡ true) ↔ (a ≡ b)
addr_eqb_iff a b = ground arith

instance abbrev pub addr_key : Key SocketAddr
addr_key = record {
  agrees = λ a b. nat_eqb a.ip b.ip && nat_eqb a.port b.port;
  agrees_iff = addr_eqb_iff;
}

pub record PeerInfo : Type 0 where
  pub last_seen : ℕ
  pub addr : SocketAddr
  pub port : ℕ
  pub rtt_stats : Option RttStats

-- `PeerInfo::new`
unfoldable pub new_peer : ℕ → SocketAddr → ℕ → PeerInfo
new_peer now addr port = record { last_seen = now; addr = addr; port = port; rtt_stats = none }

-- `PeerInfo::update`
unfoldable pub update_peer : ℕ → SocketAddr → ℕ → PeerInfo → PeerInfo
update_peer now addr port p = record p { last_seen = now; addr = addr; port = port }

pub data NoiseState (Hs Ts : Type 0) : Type 0 where
  expecting_initiator : NoiseState Hs Ts
  handshaking : Hs → NoiseState Hs Ts
  transport : Ts → NoiseState Hs Ts
  transitioning : NoiseState Hs Ts

pub record PeerSession (Hs Ts : Type 0) : Type 0 where
  pub noise : NoiseState Hs Ts

module _ {Hs Ts : Type 0} where
  -- `matches!(noise, NoiseState::Transport(_))`
  abbrev pub is_transport : NoiseState Hs Ts → Bool
  is_transport (transport _) = true
  is_transport _ = false
