-- ===== src/Service.antt =====
-- apps/mesh-registry/src/main.rs: the handlers that register nodes, the clean-up, and the targets for
-- Prometheus.
pub mod Numbers
pub mod Register
pub mod Prometheus
pub mod Graph
pub mod Server
use swarm_mesh.Prelude.{
  ℕ, zero, suc, ◌+◌, ◌-◌, ◌*◌, ◌/◌, ◌%◌, ◌^◌, Bool, true, false, ◌&&◌, List, [], ◌∷◌, ◌++◌, Option,
  none, some, Result, ok, err, Text, literal, ltb, leb, nat_eqb, if◌then◌else◌, map,
}
use swarm_mesh.Decimal.{to_string, parse_u32}
use swarm_mesh.Registry.{Node, NodeEntry, Registry, add, purge, active_nodes}

pub record NodeRegistration : Type 0 where
  pub id : Text
  pub ip : Text
  pub metrics_port : ℕ

pub data StatusCode : Type 0 where
  status_ok bad_request internal_server_error : StatusCode

-- When the clock reads `now`.
unfoldable pub register_node_handler :
    ℕ → NodeRegistration → Registry → Result StatusCode StatusCode × Registry
register_node_handler now registration registry = elim (parse_u32 registration.id) [
  | none ↦ (err bad_request, registry)
  | some node_id ↦ (
    ok status_ok,
    add now
        (record { id = node_id; ip = registration.ip; metrics_port = registration.metrics_port })
        registry,
  )
]

unfoldable pub heartbeat_handler :
    ℕ → NodeRegistration → Registry → Result StatusCode StatusCode × Registry
heartbeat_handler now registration registry = elim (parse_u32 registration.id) [
  | none ↦ (err bad_request, registry)
  | some node_id ↦ (
    ok status_ok,
    add now
        (record { id = node_id; ip = registration.ip; metrics_port = registration.metrics_port })
        registry,
  )
]

-- One round of `cleanup_stale_nodes`.
unfoldable pub cleanup_stale_nodes : (ℕ → ℕ) → Registry → Registry
cleanup_stale_nodes clock registry = purge clock registry

pub record PrometheusLabels : Type 0 where
  pub job : Text
  pub node_id : Text
  pub node_ip : Text

pub record PrometheusTarget : Type 0 where
  pub targets : List Text
  pub labels : PrometheusLabels

unfoldable pub target_of : NodeEntry → PrometheusTarget
target_of e = record {
  targets = (e.node.ip ++ literal ":" ++ to_string e.node.metrics_port) ∷ [];
  labels = record { job = literal "mesh-node"; node_id = to_string e.node.id; node_ip = e.node.ip };
}

unfoldable pub prometheus_targets_handler : Registry → List PrometheusTarget
unfolding target_of
prometheus_targets_handler registry = map target_of (active_nodes registry)

-- What `heartbeat_task` of apps/node/src/main.rs sends.
unfoldable pub heartbeat : ℕ → Text → ℕ → NodeRegistration
heartbeat id ip port = record { id = to_string id; ip = ip; metrics_port = port }
