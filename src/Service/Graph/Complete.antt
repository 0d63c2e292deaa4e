-- ===== src/Service/Graph/Complete.antt =====
-- Which edges the graph of apps/mesh-registry/src/main.rs has, and their numbers.
use swarm_mesh.Prelude.{
  ok, subst, true, List, [], none, some, Text, ◌≡◌, refl, ap, ◌∙◌, text_key, split-join, Lacks,
  filter_map, IsIn, IsIn-filter_map, ◌⊎◌, ◌++◌, literal,
}
use swarm_mesh.HashMap.{get}
use swarm_mesh.HashMap.Laws.{get-eq_some}
use swarm_mesh.Service.Prometheus.{GraphData, EdgeDetail, GraphNode, Prometheus}
use swarm_mesh.Service.Graph.{graph_handler, unwrap_or, edge_key, has_node, new_edge, reading}
use swarm_mesh.Service.Graph.Edges.{edge_from}
use swarm_mesh.Service.Graph.Errors.{
  graph_handler-ok, results, current_reply, avg_reply, edge_data, graph,
}
use swarm_mesh.Service.Graph.Readings.{
  newest, detail_of, readings-current, readings-avg, detail_of-some, said, reading-said, last_said,
}

module _ {F : Type 0} (nodes : List (GraphNode F)) where
  edge_from-between :
      (s t : Text) (d : EdgeDetail F)
      → Lacks 95 s
      → Lacks 95 t
      → has_node s nodes ≡ true
      → has_node t nodes ≡ true
      → edge_from nodes (edge_key s t, d) ≡ some (new_edge (edge_key s t) s t d)
  edge_from-between s t d h k a b = rw (split-join 95 s t h k) (rw (a, b) refl)

module _ {J F : Type 0} (p : Prometheus J F) (endpoint : Text) where
  -- If the handler returns a graph: between two of its nodes whose ids have no underscore, with a
  -- reading in either answer, it has an edge with the two ids. The edge carries the last current
  -- reading, if there is one, and the last average reading, or zero if there is none. Its main number
  -- is the current reading if there is one and the average otherwise, its second one the average.
  pub graph_handler_complete :
      (g : GraphData F) (s t : Text)
      → graph_handler p endpoint ≡ ok g
      → Lacks 95 s
      → Lacks 95 t
      → has_node s g.nodes ≡ true
      → has_node t g.nodes ≡ true
      → let current = last_said p endpoint (literal "mesh_peer_rtt_current_milliseconds") s t in
        let average = last_said p endpoint (literal "mesh_peer_rtt_avg_milliseconds") s t in
        ((c : F) × (current ≡ some c)) ⊎ ((a : F) × (average ≡ some a))
        → IsIn
            (record {
              id = s ++ (literal "_" ++ t);
              source = s;
              target = t;
              main_stat = unwrap_or (unwrap_or p.zero average) current;
              secondary_stat = some (unwrap_or p.zero average);
              detail = record { rtt_current = current; rtt_avg = unwrap_or p.zero average };
            })
            g.edges
  unfolding get new_edge
  graph_handler_complete g s t returned h k a b any =
      let g_eq = graph_handler-ok p endpoint g returned in
      let key = edge_key s t in
      let cs = results (current_reply p endpoint) in
      let averages = results (avg_reply p endpoint) in
      let c = newest key none (filter_map (said p) cs) in
      let v = newest key none (filter_map (said p) averages) in
      let d : EdgeDetail F = record { rtt_current = c; rtt_avg = unwrap_or p.zero v } in
      let before = readings-current p key none none (filter_map (reading p) cs) [] refl in
      let found : get key (edge_data p endpoint) ≡ some d =
        readings-avg p key _ none (filter_map (reading p) averages) _ before
        ∙ ap
            (λ xs.
              detail_of p (newest key none xs) (newest key none (filter_map (reading p) averages)))
            (reading-said p cs)
        ∙ ap (λ xs. detail_of p c (newest key none xs)) (reading-said p averages)
        ∙ detail_of-some p c v any in
      let a₁ = subst (λ x. has_node s x.nodes ≡ true) g_eq a in
      let b₁ = subst (λ x. has_node t x.nodes ≡ true) g_eq b in
      rw (g_eq) (
        (IsIn-filter_map (edge_from (graph p endpoint).nodes) (edge_data p endpoint) _).1 (
          (key, d),
          get-eq_some key d (edge_data p endpoint) found,
          edge_from-between (graph p endpoint).nodes s t d h k a₁ b₁,
        ))
