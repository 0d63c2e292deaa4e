-- ===== src/Service/Graph.antt =====
-- The graph of the mesh for Grafana: `graph_handler` of apps/mesh-registry/src/main.rs and the two
-- queries to Prometheus that it makes. What Prometheus answers to a query is a parameter, with JSON
-- values (type `J`) and floating point (type `F`).
pub mod Edges
pub mod Known
pub mod Readings
pub mod Complete
pub mod Errors
use swarm_mesh.Prelude.{
  ℕ, Bool, true, false, ◌||◌, List, [], ◌∷◌, ◌++◌, Option, none, some, Result, ok, err, Text,
  literal, if◌then◌else◌, ◌==◌, text_key, split, filter_map, cons?,
}
use swarm_mesh.HashMap.{Map, get, modify_or_insert}
use swarm_mesh.Decimal.{to_string, parse_u16}
use swarm_mesh.Service.{StatusCode, internal_server_error}
use swarm_mesh.Service.Prometheus.{
  PrometheusResult, Reply, unsent, failure_status, malformed, success, Prometheus, NodeDetail,
  GraphNode, EdgeDetail, Edge, GraphData,
}

-- The anyhow errors of the two queries: `send` failed, or `json` did.
pub data QueryError : Type 0 where
  request_failed bad_json : QueryError

-- `unwrap_or`, and `unwrap_or` after `get(..).map(..)`.
abbrev pub unwrap_or {ℓ} : {A : Type ℓ} → A → Option A → A
unwrap_or a none = a
unwrap_or a (some b) = b

abbrev pub url : Text → Text
url endpoint = endpoint ++ literal "/api/v1/query"

abbrev pub current_metric : Text
current_metric = literal "mesh_peer_rtt_current_milliseconds"

abbrev pub avg_metric : Text
avg_metric = literal "mesh_peer_rtt_avg_milliseconds"

-- `format!("{}_{}", local_node_id, remote_node_id)`
abbrev pub edge_key : Text → Text → Text
edge_key source target = source ++ (literal "_" ++ target)

-- Whether the set has the text.
abbrev pub is_member : Text → List Text → Bool
is_member id [] = false
is_member id (x ∷ xs) = let rest = is_member id xs in x == id || rest

module _ {J : Type 0} where
  -- `match result.metric.get("node_port")`
  unfoldable pub node_port : PrometheusResult J → ℕ
  node_port r = elim (get (literal "node_port") r.metric) [
    | none ↦ 0
    | some port ↦ unwrap_or 0 (parse_u16 port)
  ]

module _ {F : Type 0} where
  -- `match metric`
  unfoldable pub set_detail : Text → F → EdgeDetail F → EdgeDetail F
  set_detail metric value detail =
      if metric == current_metric
      then record detail { rtt_current = some value }
      else if metric == avg_metric
      then record detail { rtt_avg = value }
      else detail

  -- `nodes.iter().any(|n| n.id == id)`
  abbrev pub has_node : Text → List (GraphNode F) → Bool
  has_node id [] = false
  has_node id (n ∷ ns) = let rest = has_node id ns in n.id == id || rest

  -- The closure `contains`, with the set `missing` that it captures.
  unfoldable pub contains : List (GraphNode F) → Text → List Text → Bool × List Text
  contains nodes id missing =
      if is_member id missing
      then (false, missing)
      else if has_node id nodes
      then (true, missing)
      else (false, id ∷ missing)

  unfoldable pub new_edge : Text → Text → Text → EdgeDetail F → Edge F
  new_edge key source target detail = record {
    id = key;
    source = source;
    target = target;
    main_stat = unwrap_or detail.rtt_avg detail.rtt_current;
    secondary_stat = some detail.rtt_avg;
    detail = detail;
  }

  -- `!contains(source) || !contains(target)`: the target is not looked up behind a missing source.
  unfoldable pub edge_between :
      List (GraphNode F)
      → Text
      → Text
      → Text
      → EdgeDetail F
      → List Text
      → Option (Edge F) × List Text
  edge_between nodes key source target detail missing =
      let (found, missing₁) = contains nodes source missing in
      if found
      then (let (found₂, missing₂) = contains nodes target missing₁ in
          (if found₂ then some (new_edge key source target detail) else none, missing₂))
      else (none, missing₁)

  -- `parts.len() != 2`
  unfoldable pub edge_of_parts :
      List (GraphNode F) → Text → List Text → EdgeDetail F → List Text → Option (Edge F) × List Text
  edge_of_parts nodes key (source ∷ target ∷ []) detail missing =
      edge_between nodes key source target detail missing
  edge_of_parts nodes key _ detail missing = (none, missing)

  -- The loop over `edge_data`.
  unfoldable pub collect_edges :
      List (GraphNode F) → Map Text (EdgeDetail F) → List Text → List (Edge F)
  collect_edges nodes [] missing = []
  collect_edges nodes ((key, detail) ∷ rest) missing =
      let (edge, missing₁) = edge_of_parts nodes key (split 95 key) detail missing in
      cons? edge (collect_edges nodes rest missing₁)

module _ {J F : Type 0} (p : Prometheus J F) where
  unfoldable pub connected_peers : PrometheusResult J → F
  connected_peers r = elim (p.as_str r.value.1) [
    | none ↦ p.zero
    | some v ↦ unwrap_or p.zero (p.parse_f64 v)
  ]

  unfoldable pub new_graph_node : Text → Text → ℕ → F → GraphNode F
  new_graph_node id ip port peers = record {
    id = id;
    title = literal "Node " ++ id;
    subtitle = some (ip ++ literal ":" ++ to_string port);
    main_stat = peers;
    secondary_stat = none;
    detail = record { ip = ip; id = id; connected_peers = peers };
    color = some (if p.is_positive peers then literal "green" else literal "red");
  }

  -- One round of the loop; a result without an id or an address is skipped.
  unfoldable pub graph_node : PrometheusResult J → Option (GraphNode F)
  graph_node r = elim (get (literal "node_id") r.metric) [
    | none ↦ none
    | some node_id ↦ elim (get (literal "node_ip") r.metric) [
      | none ↦ none
      | some node_ip ↦ some (new_graph_node node_id node_ip (node_port r) (connected_peers r))
    ]
  ]

  abbrev pub nodes_of : Reply J → Result QueryError (List (GraphNode F))
  nodes_of unsent = err request_failed
  nodes_of failure_status = ok []
  nodes_of malformed = err bad_json
  nodes_of (success r) = ok (filter_map graph_node r.payload.result)

  -- What a result says: from which node, to which, and the value. `none` is skipped.
  unfoldable pub reading : PrometheusResult J → Option (Text × Text × F)
  reading r = elim (get (literal "local_node_id") r.metric) [
    | none ↦ none
    | some local_node_id ↦ elim (get (literal "remote_node_id") r.metric) [
      | none ↦ none
      | some remote_node_id ↦ elim (p.as_str r.value.1) [
        | none ↦ none
        | some v ↦ elim (p.parse_f64 v) [
          | none ↦ none
          | some value ↦ some (local_node_id, remote_node_id, value)
        ]
      ]
    ]
  ]

  unfoldable pub new_detail : EdgeDetail F
  new_detail = record { rtt_current = none; rtt_avg = p.zero }

  -- `entry(edge_key).or_insert(..)`, and the update of the entry.
  unfoldable pub add_reading :
      Text → Text × Text × F → Map Text (EdgeDetail F) → Map Text (EdgeDetail F)
  add_reading metric (source, target, value) m =
      modify_or_insert (edge_key source target) (set_detail metric value)
        (set_detail metric value new_detail) m

  unfoldable pub add_readings :
      Text → List (Text × Text × F) → Map Text (EdgeDetail F) → Map Text (EdgeDetail F)
  unfolding add_reading
  add_readings metric [] m = m
  add_readings metric (x ∷ xs) m = add_readings metric xs (add_reading metric x m)

  unfoldable pub add_results :
      Text → List (PrometheusResult J) → Map Text (EdgeDetail F) → Map Text (EdgeDetail F)
  unfolding add_readings reading
  add_results metric results m = add_readings metric (filter_map reading results) m

  -- One round of the loop over the metrics.
  abbrev pub add_reply :
      Text → Reply J → Map Text (EdgeDetail F) → Result QueryError (Map Text (EdgeDetail F))
  add_reply metric unsent m = err request_failed
  add_reply metric failure_status m = ok m
  add_reply metric malformed m = err bad_json
  add_reply metric (success r) m = ok (add_results metric r.payload.result m)

module _ {J F : Type 0} (p : Prometheus J F) (endpoint : Text) where
  unfoldable pub query_prometheus_for_nodes : Result QueryError (List (GraphNode F))
  unfolding graph_node
  query_prometheus_for_nodes =
      nodes_of p (p.answer (url endpoint) (literal "mesh_connected_peers_total"))

  unfoldable pub query_metrics :
      List Text → Map Text (EdgeDetail F) → Result QueryError (Map Text (EdgeDetail F))
  query_metrics [] m = ok m
  query_metrics (metric ∷ metrics) m =
      elim (add_reply p metric (p.answer (url endpoint) metric) m) [
        | err e ↦ err e
        | ok m ↦ query_metrics metrics m
      ]

  unfoldable pub query_prometheus_for_edges : List (GraphNode F) → Result QueryError (List (Edge F))
  unfolding query_metrics collect_edges
  query_prometheus_for_edges nodes = elim (query_metrics (current_metric ∷ avg_metric ∷ []) []) [
    | err e ↦ err e
    | ok edge_data ↦ ok (collect_edges nodes edge_data [])
  ]

  unfoldable pub graph_handler : Result StatusCode (GraphData F)
  graph_handler = elim query_prometheus_for_nodes [
    | err e ↦ err internal_server_error
    | ok nodes ↦ elim (query_prometheus_for_edges nodes) [
      | err e ↦ err internal_server_error
      | ok edges ↦ ok (record { nodes = nodes; edges = edges })
    ]
  ]
