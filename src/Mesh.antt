-- ===== src/Mesh.antt =====
-- crates/mesh: the messages of the protocol and what a node keeps of each peer.
pub mod Message
pub mod Peer
pub mod Rtt
