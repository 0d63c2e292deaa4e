-- ===== src/Witnesses.antt =====
-- Concrete runs of the node and of the other parts: tests of the definitions, and the theorems at
-- these inputs.
mod Toy
mod Handshakes
mod Wedges
mod LinkStates
mod Pings
mod Registries
mod Servers
mod Discoveries
mod Graphs
mod Dashboards
mod Heartbeats
mod Networks
mod Orders
