-- ===== src/Witnesses/Graphs.antt =====
-- The properties of the graph for Grafana at a Prometheus with two nodes and a reading between them.
use swarm_mesh.Prelude.{
  ℕ, ◌∷◌, [], ◌||◌, some, true, ok, err, Text, literal, ◌≡◌, refl, ◌==◌, text_key, text_eqb, split,
  if◌then◌else◌, filter_map, IsIn, inl, arith,
}
use swarm_mesh.HashMap.{get, insert, modify_or_insert}
use swarm_mesh.Decimal.{
  digits, to_string, parse_digits, parse_unsigned, parse_number, parse_u32, parse_u16,
}
use swarm_mesh.Service.{internal_server_error}
use swarm_mesh.Service.Prometheus.{
  PrometheusResult, Reply, success, failure_status, Prometheus, EdgeDetail, Edge,
}
use swarm_mesh.Service.Graph.{
  current_metric, edge_key, has_node, new_edge, graph_node, connected_peers, new_graph_node,
  node_port, reading, add_readings, set_detail, new_detail, collect_edges, graph_handler,
}
use swarm_mesh.Service.Graph.Edges.{edge_from, collect_edges-plain}
use swarm_mesh.Service.Graph.Errors.{
  fails, node_reply, current_reply, avg_reply, edge_data, graph, graph_handler-fails,
}
use swarm_mesh.Service.Graph.Known.{graph_handler-IsKnown}
use swarm_mesh.Service.Graph.Readings.{newest}
use swarm_mesh.Service.Graph.Complete.{graph_handler_complete}

abbrev node_result : Text → PrometheusResult Text
node_result id = record {
  metric =
      (literal "node_id", id)
      ∷ (literal "node_ip", literal "10.0.0.1")
      ∷ (literal "node_port", literal "80")
      ∷ [];
  value = (literal "0", literal "1");
}

abbrev rtt_result : Text → Text → Text → PrometheusResult Text
rtt_result source target v = record {
  metric = (literal "local_node_id", source) ∷ (literal "remote_node_id", target) ∷ [];
  value = (literal "0", v);
}

abbrev toy_answer : Text → Text → Reply Text
toy_answer url query =
    if query == literal "mesh_connected_peers_total"
    then success (record {
      payload = record { result = node_result (literal "5") ∷ node_result (literal "7") ∷ [] };
    })
    else if query == current_metric
    then success (record {
      payload = record {
        result =
            rtt_result (literal "5") (literal "7") (literal "3")
            ∷ rtt_result (literal "5") (literal "9") (literal "4")
            ∷ [];
      };
    })
    else failure_status

abbrev prometheus : Prometheus Text ℕ
prometheus = record {
  answer = toy_answer;
  as_str = λ j. some j;
  parse_f64 = parse_u32;
  zero = 0;
  is_positive = λ n. true;
}

abbrev detail : EdgeDetail ℕ
detail = record { rtt_current = some 3; rtt_avg = 0 }

abbrev edge : Edge ℕ
edge = new_edge (literal "5_7") (literal "5") (literal "7") detail

collect_edges-plain_example :
    collect_edges (graph prometheus []).nodes (edge_data prometheus []) []
    ≡ filter_map (edge_from (graph prometheus []).nodes) (edge_data prometheus [])
collect_edges-plain_example =
    collect_edges-plain (graph prometheus []).nodes (edge_data prometheus [])

graph_handler-fails_example : graph_handler prometheus [] ≡ (
    if fails (node_reply prometheus [])
      || (fails (current_reply prometheus []) || fails (avg_reply prometheus []))
    then err internal_server_error
    else ok (graph prometheus []))
graph_handler-fails_example = graph_handler-fails prometheus []

graph_handler-prometheus : graph_handler prometheus [] ≡ ok (graph prometheus [])
unfolding text_key text_eqb
graph_handler-prometheus = graph_handler-fails prometheus []

graph_handler_complete_example : IsIn edge (graph prometheus []).edges
unfolding get text_key text_eqb digits to_string parse_digits parse_unsigned parse_number parse_u32
    parse_u16 newest graph_node connected_peers new_graph_node node_port reading new_edge
graph_handler_complete_example =
    graph_handler_complete prometheus [] (graph prometheus []) (literal "5") (literal "7")
      graph_handler-prometheus (omega arith, tt) (omega arith, tt) refl refl (inl (3, refl))

-- The edge to node 9, which is no node of the graph, is left out.
edge-graph : IsIn edge (graph prometheus []).edges
unfolding get text_key text_eqb digits to_string parse_digits parse_unsigned parse_number parse_u32
    parse_u16 graph_node connected_peers new_graph_node node_port reading add_readings
    modify_or_insert insert split set_detail new_detail
edge-graph = inl refl

graph_handler-IsKnown_example :
    (edge.id ≡ edge_key edge.source edge.target)
    × (has_node edge.source (graph prometheus []).nodes ≡ true)
    × (has_node edge.target (graph prometheus []).nodes ≡ true)
    × (edge ≡ edge)
graph_handler-IsKnown_example =
    graph_handler-IsKnown prometheus [] (graph prometheus []) edge edge graph_handler-prometheus
      edge-graph edge-graph refl refl
