-- ===== src/Node.antt =====
-- crates/node: one node of the mesh.
pub mod World
pub mod Send
pub mod LinkState
pub mod Ping
pub mod Secure
pub mod Handshake
pub mod Receive
pub mod Tasks
pub mod System
pub mod Typed
pub mod Order
pub mod Gauges
pub mod Metrics
