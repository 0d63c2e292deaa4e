-- ===== src/Node/Metrics.antt =====
-- crates/node/src/metrics.rs, and `update_metrics` of crates/node/src/node.rs. The metrics are
-- threaded through. A panic ends the round without them, as no task reads what it set before.
pub mod Shown
pub mod Reports
pub mod Connected
pub mod Reported
pub mod Exact
pub mod Silent
pub mod New
use swarm_mesh.Prelude.{
  ℕ, ◌+◌, ◌%◌, ◌^◌, List, [], ◌∷◌, Option, none, some, Result, ok, err, Text, literal,
  if◌then◌else◌, nat_key,
}
use swarm_mesh.HashMap.{Map, get}
use swarm_mesh.Decimal.{to_string}
use swarm_mesh.Mesh.Message.{NodeId}
use swarm_mesh.Mesh.Peer.{SocketAddr, PeerInfo, PeerSession, is_transport}
use swarm_mesh.Mesh.Rtt.{Floats, RttStats}
use swarm_mesh.Node.Gauges.{Gauges}
use swarm_mesh.Node.World.{peer_lock, session_lock, World, M, pure, panic, with_lock}

-- The libraries and the system: `local_addr` of the unicast socket, and `IpAddr::to_string`.
pub record Host (F G R : Type 0) : Type 0 where
  pub f64 : Floats F
  pub gauges : Gauges F G R
  pub local_addr : Option SocketAddr
  pub ip_to_string : ℕ → Text

pub record Metrics (G R : Type 0) : Type 0 where
  pub registry : R
  pub peer_rtt_current : G
  pub peer_rtt_min : G
  pub peer_rtt_max : G
  pub peer_rtt_avg : G
  pub connected_peers_total : G

-- The error of `update_metrics`.
pub data MetricsError : Type 0 where
  no_local_addr : MetricsError

infixl 5 ◌>>=◌
abbrev pub ◌>>=◌ : {A B : Type 0} → Option A → (A → Option B) → Option B
none >>= f = none
some a >>= f = f a

abbrev pub peer_labels : List Text
peer_labels =
    literal "local_node_id"
    ∷ literal "remote_node_id"
    ∷ literal "local_ip"
    ∷ literal "remote_ip"
    ∷ []

abbrev pub node_labels : List Text
node_labels = literal "node_id" ∷ literal "node_ip" ∷ literal "node_port" ∷ []

module _ {F G R : Type 0} (host : Host F G R) where
  -- `Metrics::new`; `none` is an error of the library.
  unfoldable pub new_metrics : Option (Metrics G R)
  new_metrics = do
    current ←
        host.gauges.new_gauge (literal "mesh_peer_rtt_current_milliseconds")
          (literal "Current RTT to peer in milliseconds") peer_labels
    min ←
        host.gauges.new_gauge (literal "mesh_peer_rtt_min_milliseconds")
          (literal "Minimum RTT to peer in milliseconds") peer_labels
    max ←
        host.gauges.new_gauge (literal "mesh_peer_rtt_max_milliseconds")
          (literal "Maximum RTT to peer in milliseconds") peer_labels
    avg ←
        host.gauges.new_gauge (literal "mesh_peer_rtt_avg_milliseconds")
          (literal "Average RTT to peer in milliseconds") peer_labels
    total ←
        host.gauges.new_gauge (literal "mesh_connected_peers_total")
          (literal "Total number of connected peers for this node") node_labels
    r₁ ← host.gauges.register current host.gauges.new_registry
    r₂ ← host.gauges.register min r₁
    r₃ ← host.gauges.register max r₂
    r₄ ← host.gauges.register avg r₃
    r₅ ← host.gauges.register total r₄
    some (record {
      registry = r₅;
      peer_rtt_current = current;
      peer_rtt_min = min;
      peer_rtt_max = max;
      peer_rtt_avg = avg;
      connected_peers_total = total;
    })

  -- `as_secs_f64() * 1000.0`
  abbrev pub milliseconds : ℕ → F
  milliseconds d = host.f64.mul (host.f64.as_secs_f64 d) (host.f64.lit 1000 0)

  abbrev pub labels_of : NodeId → NodeId → Text → Text → List Text
  labels_of local_id remote_id local_ip remote_ip =
      to_string local_id ∷ to_string remote_id ∷ local_ip ∷ remote_ip ∷ []

  abbrev pub set_if_some : List Text → Option ℕ → G → Option G
  set_if_some labels none g = some g
  set_if_some labels (some d) g = host.gauges.set labels (milliseconds d) g

  -- `none` is a panic, here and below.
  unfoldable pub update_peer_rtt :
      NodeId → NodeId → Text → Text → RttStats → Metrics G R → Option (Metrics G R)
  update_peer_rtt local_id remote_id local_ip remote_ip stats m =
      let labels = labels_of local_id remote_id local_ip remote_ip in
      do
        current ← set_if_some labels stats.current_rtt m.peer_rtt_current
        min ← host.gauges.set labels (milliseconds stats.min_rtt) m.peer_rtt_min
        max ← host.gauges.set labels (milliseconds stats.max_rtt) m.peer_rtt_max
        avg ← host.gauges.set labels (milliseconds stats.avg_rtt) m.peer_rtt_avg
        some (record m {
          peer_rtt_current = current;
          peer_rtt_min = min;
          peer_rtt_max = max;
          peer_rtt_avg = avg;
        })

  unfoldable pub update_connected_peers_count :
      ℕ → Text → NodeId → ℕ → Metrics G R → Option (Metrics G R)
  update_connected_peers_count count node_ip node_id metrics_port m = do
    total ←
        host.gauges.set (to_string node_id ∷ node_ip ∷ to_string metrics_port ∷ [])
          (host.f64.from_usize count) m.connected_peers_total
    some (record m { connected_peers_total = total })

module _ {Hs Ts : Type 0} where
  -- What the loop of `update_metrics` reads of a peer, if it does not skip it.
  unfoldable pub connected_peer :
      Map NodeId (PeerSession Hs Ts) → NodeId × PeerInfo → Option (NodeId × ℕ × RttStats)
  connected_peer sessions (id, info) = elim (get id sessions) [
    | none ↦ none
    | some session ↦
        if is_transport session.noise
        then elim info.rtt_stats [ none ↦ none | some stats ↦ some (id, info.addr.ip, stats) ]
        else none
  ]

module _ {F G R Hs Ts : Type 0} (host : Host F G R) where
  -- The loop of `update_metrics`, with `connected_count`.
  unfoldable pub report_peers :
      NodeId
      → Text
      → Map NodeId (PeerSession Hs Ts)
      → Map NodeId PeerInfo
      → ℕ
      → Metrics G R
      → Option (ℕ × Metrics G R)
  report_peers own local_ip sessions [] count m = some (count, m)
  report_peers own local_ip sessions (peer ∷ peers) count m = elim (connected_peer sessions peer) [
    | none ↦ report_peers own local_ip sessions peers count m
    | some (id, ip, stats) ↦
        update_peer_rtt host own id local_ip (host.ip_to_string ip) stats m >>= λ m.
        report_peers own local_ip sessions peers ((count + 1) % 2 ^ 64) m
  ]

  unfoldable pub report :
      NodeId
      → ℕ
      → Text
      → Map NodeId (PeerSession Hs Ts)
      → Map NodeId PeerInfo
      → Metrics G R
      → Option (Metrics G R)
  report own port local_ip sessions peers m =
      report_peers own local_ip sessions peers 0 m >>= λ (count, m).
      update_connected_peers_count host count local_ip own port m

  unfoldable pub update_metrics : Metrics G R → M Hs Ts (Result MetricsError (Metrics G R))
  update_metrics m = with_lock peer_lock (
      with_lock session_lock (λ w. elim host.local_addr [
        | none ↦ pure (err no_local_addr) w
        | some addr ↦
            elim (report w.id w.unicast_port (host.ip_to_string addr.ip) w.session_db w.peer_db m) [
              | none ↦ panic w
              | some m ↦ pure (ok m) w
            ]
      ]))
