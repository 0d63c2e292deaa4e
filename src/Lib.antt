-- ===== src/Lib.antt =====
-- swarm-mesh: nodes that find each other by multicast, shake hands with the Noise protocol, measure
-- round trip times by pings and spread link state advertisements (LSAs).
--
-- The program and the files here:
-- * crates/mesh, the types that the nodes share, is Mesh: Mesh.Message (message.rs, errors.rs),
--   Mesh.Peer (peer.rs), Mesh.Rtt (rtt.rs).
-- * crates/noise, the handshake, is Noise, over the snow library as the parameter `Snow`.
-- * crates/node is Node. Node.World has the state (state.rs, connection.rs, the struct of node.rs)
--   and the monad in which the handlers run. The methods of node.rs are Node.Send (send_message and
--   the neighbours), Node.Ping (handle_ping, handle_pong, can_take_ping, can_take_pong,
--   clean_stale_pings, send_ping), Node.Handshake (handle_hello, handle_handshake), Node.LinkState
--   (generate_lsa, broadcast_lsa, handle_lsa, flood_lsa_except_sender, cleanup_stale_lsas),
--   Node.Receive (one round of `receive`) and Node.Tasks (one round of broadcast, ping_peers and
--   monitor_peers). Node.System is a whole node: the rounds of its tasks, in any order, with what
--   they keep, which of them return, and what is left when a lock is never given back. Node.Secure
--   says which peers have a session in transport mode. Node.Order has the order in which the tasks
--   take locks while they hold others. Node.Typed says what the integer types of the messages and of
--   the state mean for the numbers here.
-- * Network is a mesh of several nodes with a network between them that delivers what they send.
-- * crates/registry is Registry: the nodes that have registered, with a time to live.
-- * crates/node/src/metrics.rs with update_metrics of node.rs is Node.Metrics, over the interface
--   Node.Gauges, which says what the prometheus library does.
-- * apps/node is App: how `main` and init_node start a node, and the life of a node that was started,
--   with the task that collects its metrics.
-- * apps/mesh-registry is Service: the handlers that register nodes, the clean-up and the targets for
--   Prometheus, with the heartbeat of apps/node. Service.Server is the server: its routes, and runs of
--   requests and of rounds of the clean-up over the registry. App.Heartbeats has the nodes that
--   register with it. Service.Graph is graph_handler with its two queries,
--   over Service.Prometheus, which has the data and what Prometheus answers.
-- * Decimal is the standard library's to_string and parse of numbers.
-- * The keys of the maps and the maps themselves are HashMap; shared helpers are Prelude.
-- * Witnesses has a small concrete environment, tests, and the theorems at concrete inputs.
--
-- How the code is read:
-- * A handler is a function from the world to an outcome: done, stuck or panicked. A tokio mutex is
--   not reentrant, so `with_lock` on a lock that the task holds is stuck. The world says which locks
--   are held. One round of a task runs without interleaving; after a round that is stuck, the other
--   tasks go on from the state and the locks that it left.
-- * `Instant`s and `Duration`s are numbers of nanoseconds, `SystemTime` a number of seconds. Within
--   one round the clocks stand still. `u64` and `u32` counters wrap, as in a release build.
-- * The packets sent are a list, the last one first. What the network does with a packet, the
--   serialization of bincode, the states of snow and floating point are parameters (the record
--   `Env`). Nothing is assumed of them but what a theorem's hypotheses say.
-- * A `HashMap` is a list of entries, in the order in which iteration meets them. Recursion is
--   structural, but for the digits of a number, whose fuel of ten is what a `u32` needs.
-- * The errors of start-up are values, one for each call that can fail. A panic of the prometheus
--   library is the end of the round.
-- * axum, the HTTP client and the command line are parameters. Each handler of mesh-registry holds the
--   lock of the registry to its end, so handlers and rounds of the clean-up follow one another; the
--   clock does not run backwards from one to the next.
--
-- Not modelled: logging, the metrics server of a node with the text format of
-- the metrics, the sockets themselves, and docker files, which are calls of libraries or configuration.
pub mod App
pub mod Decimal
pub mod HashMap
pub mod Mesh
pub mod Network
pub mod Node
pub mod Noise
pub mod Prelude
pub mod Registry
pub mod Service
pub mod Witnesses
