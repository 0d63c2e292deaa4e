-- ===== src/Node/Typed.antt =====
-- Which ids, ports and sequence numbers stand in the messages and in the state of a node
-- (crates/mesh/src, crates/node/src), and whose entries the tables of a node have. The predicates are
-- parameters: they may say what the integer types say, or which nodes there are.
pub mod Tables
pub mod Sends
pub mod Handles
pub mod Pings
pub mod Rounds
use swarm_mesh.Prelude.{ℕ, ◌^◌, ◌<◌, ◌≡◌, ◌≢◌, All, Option, none, some, nat_key, pair_key}
use swarm_mesh.Mesh.Rtt.{RttStats}
use swarm_mesh.HashMap.{Map, IsMap}
use swarm_mesh.Mesh.Message.{
  NodeId, Message, hello, handshake, ping, pong, link_state, encrypted_data, LinkStatePayload,
}
use swarm_mesh.Mesh.Peer.{PeerInfo, PeerSession}
use swarm_mesh.Node.World.{Packet, World}

abbrev pub IsId : ℕ → Type 0
IsId n = n < 2 ^ 32

abbrev pub IsPort : ℕ → Type 0
IsPort n = n < 2 ^ 16

abbrev pub IsSequence : ℕ → Type 0
IsSequence n = n < 2 ^ 64

-- The id of the node, and predicates on ids, on ids with a unicast port, and on ids that
-- advertisements are of.
pub record Ids : Type 1 where
  pub own : ℕ
  pub IsKnown : ℕ → Type 0
  pub IsAt : ℕ → ℕ → Type 0
  pub IsSource : ℕ → Type 0
  pub at_known : (id port : ℕ) → IsAt id port → IsKnown id
  pub own_source : IsSource own

-- Those of the integer types.
abbrev pub machine_ids : (own : ℕ) → IsId own → Ids
machine_ids own h = record {
  own = own;
  IsKnown = IsId;
  IsAt = λ id port. IsId id × IsPort port;
  IsSource = IsId;
  at_known = λ id port t. t.0;
  own_source = h;
}

module _ (ids : Ids) where
  abbrev pub IsTypedLsa : LinkStatePayload → Type 0
  IsTypedLsa p = ids.IsSource p.node_id × IsSequence p.sequence × All ids.IsKnown p.neighbors

  abbrev pub IsTypedMessage : Message → Type 0
  IsTypedMessage (hello p) = ids.IsAt p.node_id p.unicast_port
  IsTypedMessage (handshake p) = ids.IsAt p.node_id p.unicast_port
  IsTypedMessage (ping p) = ids.IsKnown p.node_id × IsSequence p.sequence
  IsTypedMessage (pong p) = ids.IsKnown p.node_id × IsSequence p.sequence
  IsTypedMessage (link_state p) = IsTypedLsa p
  IsTypedMessage (encrypted_data bytes) = Unit {0}

  -- The id of another node.
  abbrev pub IsOther : ℕ → Type 0
  IsOther id = ids.IsKnown id × (id ≢ ids.own)

  -- The number of measurements, a `u32`.
  abbrev pub IsCounted : Option RttStats → Type 0
  IsCounted none = Unit {0}
  IsCounted (some s) = s.sample_count < 2 ^ 32

  -- Entries of the tables of the node.
  abbrev pub IsPeer : NodeId × PeerInfo → Type 0
  IsPeer (id, info) = IsOther id × ids.IsAt id info.port × IsCounted info.rtt_stats

  abbrev pub IsSession : {Hs Ts : Type 0} → NodeId × PeerSession Hs Ts → Type 0
  IsSession (id, s) = IsOther id

  abbrev pub IsPing : (ℕ × ℕ) × ℕ → Type 0
  IsPing ((id, sequence), time) = IsOther id × IsSequence sequence

  abbrev pub IsLsa : NodeId × LinkStatePayload → Type 0
  IsLsa (id, lsa) = (lsa.node_id ≡ id) × IsTypedLsa lsa

  abbrev pub IsTypedPacket : Packet → Type 0
  IsTypedPacket p = IsTypedMessage p.message

  -- The predicates hold of the node's own id and port and of what it has sent, no table has two
  -- entries for a key, the peers, the sessions and the pings are of other nodes, and each
  -- advertisement is stored under the id of its node.
  abbrev pub IsTyped : {Hs Ts : Type 0} → World Hs Ts → Type 0
  IsTyped w =
      ((w.id ≡ ids.own) × ids.IsAt ids.own w.unicast_port)
      × (IsSequence w.lsa_sequence × IsSequence w.ping_sequence)
      × (IsMap w.peer_db × All IsPeer w.peer_db)
      × (IsMap w.session_db × All IsSession w.session_db)
      × (IsMap w.ping_db × All IsPing w.ping_db)
      × (IsMap w.link_state_db × All IsLsa w.link_state_db)
      × All IsTypedPacket w.sent
