-- ===== src/Mesh/Message.antt =====
-- crates/mesh/src/message.rs and errors.rs. An integer field is a number; its range is stated where
-- it matters.
use swarm_mesh.Prelude.{ℕ, List, Bytes}

-- `u32`
abbrev pub NodeId : Type 0
NodeId = ℕ

pub record HelloPayload : Type 0 where
  pub node_id : NodeId
  pub unicast_port : ℕ

pub record HandshakePayload : Type 0 where
  pub msg : Bytes
  pub node_id : NodeId
  pub unicast_port : ℕ

pub record PingPongPayload : Type 0 where
  pub node_id : NodeId
  pub sequence : ℕ

pub record LinkStatePayload : Type 0 where
  pub node_id : NodeId
  pub sequence : ℕ
  pub timestamp : ℕ
  pub neighbors : List NodeId

pub data Message : Type 0 where
  hello : HelloPayload → Message
  handshake : HandshakePayload → Message
  ping : PingPongPayload → Message
  pong : PingPongPayload → Message
  link_state : LinkStatePayload → Message
  encrypted_data : Bytes → Message

-- The `anyhow` errors of the program, one constructor for each place that makes one.
pub data Failure : Type 0 where
  invalid_noise_params snow_error failed_to_build_responder : Failure
  unsolicited_handshake : NodeId → Failure
  unable_to_read unable_to_write error_converting unexpected_noise_state : Failure
  error_serializing failed_to_send : Failure

pub data MeshError : Type 0 where
  already_connected becoming_responder : MeshError
  other : Failure → MeshError
