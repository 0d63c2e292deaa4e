-- ===== src/Service/Prometheus.antt =====
-- The data types of apps/mesh-registry/src/main.rs for the answers of Prometheus and for the graph
-- that Grafana gets.
use swarm_mesh.Prelude.{Bool, List, Option, Text}
use swarm_mesh.HashMap.{Map}

pub record PrometheusResult (J : Type 0) : Type 0 where
  pub metric : Map Text Text
  pub value : J × J

pub record PrometheusData (J : Type 0) : Type 0 where
  pub result : List (PrometheusResult J)

pub record PrometheusResponse (J : Type 0) : Type 0 where
  pub payload : PrometheusData J

-- How a request ends: it cannot be sent, its status is no success, its body does not parse, or it
-- has a response.
pub data Reply (J : Type 0) : Type 0 where
  unsent failure_status malformed : Reply J
  success : PrometheusResponse J → Reply J

-- The answer to a query at an address, `Value::as_str`, and `f64` with `parse`, 0.0 and `> 0.0`.
pub record Prometheus (J F : Type 0) : Type 0 where
  pub answer : Text → Text → Reply J
  pub as_str : J → Option Text
  pub parse_f64 : Text → Option F
  pub zero : F
  pub is_positive : F → Bool

pub record NodeDetail (F : Type 0) : Type 0 where
  pub ip : Text
  pub id : Text
  pub connected_peers : F

pub record GraphNode (F : Type 0) : Type 0 where
  pub id : Text
  pub title : Text
  pub subtitle : Option Text
  pub main_stat : F
  pub secondary_stat : Option F
  pub detail : NodeDetail F
  pub color : Option Text

pub record EdgeDetail (F : Type 0) : Type 0 where
  pub rtt_current : Option F
  pub rtt_avg : F

pub record Edge (F : Type 0) : Type 0 where
  pub id : Text
  pub source : Text
  pub target : Text
  pub main_stat : F
  pub secondary_stat : Option F
  pub detail : EdgeDetail F

pub record GraphData (F : Type 0) : Type 0 where
  pub nodes : List (GraphNode F)
  pub edges : List (Edge F)
