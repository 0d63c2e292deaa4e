-- ===== src/Service/Graph/Errors.antt =====
-- Which answers of Prometheus make `graph_handler` of apps/mesh-registry/src/main.rs fail.
use swarm_mesh.Prelude.{
  ◌∙◌, sym, Bool-cases, ok-injective, Bool, true, false, ◌||◌, List, [], ◌∷◌, ok, err, Text,
  literal, ◌≡◌, refl, if◌then◌else◌, filter_map, ◌⊎◌, inl, inr,
}
use swarm_mesh.HashMap.{Map}
use swarm_mesh.Service.{internal_server_error}
use swarm_mesh.Service.Prometheus.{
  PrometheusResult, Reply, unsent, failure_status, malformed, success, Prometheus, EdgeDetail,
  GraphData,
}
use swarm_mesh.Service.Graph.{
  QueryError, request_failed, bad_json, graph_node, nodes_of, add_reply, url, current_metric,
  avg_metric, reading, add_readings, add_results, query_metrics, query_prometheus_for_nodes,
  query_prometheus_for_edges, graph_handler,
}
use swarm_mesh.Service.Graph.Edges.{edge_from, collect_edges-plain}

module _ {J : Type 0} where
  -- The request could not be sent, or the body does not parse.
  abbrev pub fails : Reply J → Bool
  fails unsent = true
  fails failure_status = false
  fails malformed = true
  fails (success r) = false

  -- The results of an answer. A status that is no success counts as no results.
  abbrev pub results : Reply J → List (PrometheusResult J)
  results (success r) = r.payload.result
  results unsent = []
  results failure_status = []
  results malformed = []

module _ {J F : Type 0} (p : Prometheus J F) (endpoint : Text) where
  abbrev pub node_reply : Reply J
  node_reply = p.answer (url endpoint) (literal "mesh_connected_peers_total")

  abbrev pub current_reply : Reply J
  current_reply = p.answer (url endpoint) current_metric

  abbrev pub avg_reply : Reply J
  avg_reply = p.answer (url endpoint) avg_metric

  -- The readings of both metrics, by key.
  abbrev pub edge_data : Map Text (EdgeDetail F)
  edge_data =
      add_readings p avg_metric (filter_map (reading p) (results avg_reply))
        (add_readings p current_metric (filter_map (reading p) (results current_reply)) [])

  -- The graph of the answers, if none fails.
  abbrev pub graph : GraphData F
  graph = record {
    nodes = filter_map (graph_node p) (results node_reply);
    edges = filter_map (edge_from (filter_map (graph_node p) (results node_reply))) edge_data;
  }

  nodes_of-fails :
      (r : Reply J)
      → ((fails r ≡ true) × ((e : QueryError) × (nodes_of p r ≡ err e)))
        ⊎ ((fails r ≡ false) × (nodes_of p r ≡ ok (filter_map (graph_node p) (results r))))
  nodes_of-fails unsent = inl (refl, (request_failed, refl))
  nodes_of-fails failure_status = inr (refl, refl)
  nodes_of-fails malformed = inl (refl, (bad_json, refl))
  nodes_of-fails (success r) = inr (refl, refl)

  add_reply-fails :
      (metric : Text) (m : Map Text (EdgeDetail F)) (r : Reply J)
      → ((fails r ≡ true) × ((e : QueryError) × (add_reply p metric r m ≡ err e)))
        ⊎ ((fails r ≡ false)
            × (add_reply p metric r m
                ≡ ok (add_readings p metric (filter_map (reading p) (results r)) m)))
  unfolding add_results add_readings
  add_reply-fails metric m unsent = inl (refl, (request_failed, refl))
  add_reply-fails metric m failure_status = inr (refl, refl)
  add_reply-fails metric m malformed = inl (refl, (bad_json, refl))
  add_reply-fails metric m (success r) = inr (refl, refl)

  query_metrics-fails :
      ((fails current_reply || fails avg_reply ≡ true)
        × ((e : QueryError) × (query_metrics p endpoint (current_metric ∷ avg_metric ∷ []) []
              ≡ err e)))
      ⊎ ((fails current_reply || fails avg_reply ≡ false)
          × (query_metrics p endpoint (current_metric ∷ avg_metric ∷ []) [] ≡ ok edge_data))
  unfolding query_metrics
  query_metrics-fails = elim (add_reply-fails current_metric [] current_reply) [
    | inl (f, (e, q)) ↦ inl (rw f refl, (e, rw (q, query_metrics) refl))
    | inr (f, q) ↦
        elim (add_reply-fails avg_metric
          (add_readings p current_metric (filter_map (reading p) (results current_reply)) [])
          avg_reply) [
            | inl (g, (e, r)) ↦ inl (rw (f, g) refl, (e, rw (q, query_metrics) (rw (r) refl)))
            | inr (g, r) ↦ inr (rw (f, g) refl, rw (q, query_metrics) (rw (r) refl))
          ]
  ]

  -- The handler fails with an internal error if one of the three requests cannot be sent or gets a
  -- body that does not parse. Otherwise it returns the nodes of the first answer, and between
  -- them the edges of the readings of the two others; an answer whose status is no success counts
  -- as one with no results.
  pub graph_handler-fails : graph_handler p endpoint ≡ (
      if fails node_reply || (fails current_reply || fails avg_reply)
      then err internal_server_error
      else ok graph)
  unfolding graph_handler query_prometheus_for_nodes query_prometheus_for_edges
  graph_handler-fails = elim (nodes_of-fails node_reply) [
    | inl (f, (e, q)) ↦ rw (q, f, graph_handler) refl
    | inr (f, q) ↦ elim query_metrics-fails [
      | inl (g, (e, r)) ↦ rw (q, f, g, graph_handler) (rw (r) refl)
      | inr (g, r) ↦
          rw (q, f, g, graph_handler) (rw (r) (rw (collect_edges-plain _ edge_data) refl))
    ]
  ]

  -- What the handler returns is this graph.
  pub graph_handler-ok : (g : GraphData F) → graph_handler p endpoint ≡ ok g → g ≡ graph
  graph_handler-ok g q =
      elim (Bool-cases (fails node_reply || (fails current_reply || fails avg_reply))) [
        | inl b ↦
            let e : graph_handler p endpoint ≡ err internal_server_error =
              graph_handler-fails ∙ rw (b) refl in
            absurd cc
        | inr b ↦
            let e : graph_handler p endpoint ≡ ok graph = graph_handler-fails ∙ rw (b) refl in
            ok-injective g graph (sym q ∙ e)
      ]
