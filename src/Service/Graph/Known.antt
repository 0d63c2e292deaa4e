-- ===== src/Service/Graph/Known.antt =====
-- The edges that `query_prometheus_for_edges` of apps/mesh-registry/src/main.rs returns.
use swarm_mesh.Prelude.{
  ok, subst, true, ◌&&◌, List, [], ◌∷◌, some, some-injective, Text, ◌≡◌, refl, sym, ap, ◌∙◌, inl,
  inr, Bool-cases, text_key, split, filter_map, IsIn, IsIn-filter_map, join_all, join_all-split,
  arith,
}
use swarm_mesh.HashMap.{Map, get, IsMap}
use swarm_mesh.HashMap.Laws.{IsIn-get, IsMap-modify_or_insert}
use swarm_mesh.Service.Prometheus.{GraphData, GraphNode, EdgeDetail, Edge, Prometheus}
use swarm_mesh.Service.Graph.{
  graph_handler, edge_key, has_node, new_edge, set_detail, new_detail, add_readings, reading,
  current_metric, avg_metric,
}
use swarm_mesh.Service.Graph.Edges.{edge_from_parts, edge_from}
use swarm_mesh.Service.Graph.Errors.{
  graph_handler-ok, results, current_reply, avg_reply, edge_data, graph,
}

module _ {F : Type 0} (nodes : List (GraphNode F)) where
  -- An edge is that of two parts, both ids of nodes.
  edge_from_parts-some :
      (key : Text) (parts : List Text) (detail : EdgeDetail F) (e : Edge F)
      → edge_from_parts nodes key parts detail ≡ some e
      → (s : Text) × (t : Text) × (parts ≡ s ∷ t ∷ [])
        × (has_node s nodes ≡ true)
        × (has_node t nodes ≡ true)
        × (e ≡ new_edge key s t detail)
  edge_from_parts-some key (s ∷ t ∷ []) detail e q =
      elim (Bool-cases (has_node s nodes && has_node t nodes)) [
        | inl h ↦ (
          s,
          t,
          refl,
          ground arith,
          ground arith,
          sym (some-injective (new_edge key s t detail) e (sym (rw h refl) ∙ q)),
        )
        | inr h ↦ absurd (ground arith)
      ]
  edge_from_parts-some key [] detail e q = absurd (ground arith)
  edge_from_parts-some key (s ∷ []) detail e q = absurd (ground arith)
  edge_from_parts-some key (s ∷ t ∷ u ∷ ps) detail e q = absurd (ground arith)

  -- The key of an edge, its ends, and what they are.
  abbrev pub IsKnown : Text × EdgeDetail F → Edge F → Type 0
  IsKnown (key, detail) e =
      (key ≡ edge_key e.source e.target)
      × (has_node e.source nodes ≡ true)
      × (has_node e.target nodes ≡ true)
      × (e ≡ new_edge key e.source e.target detail)

  edge_from-IsKnown :
      (key : Text) (detail : EdgeDetail F) (e : Edge F)
      → edge_from nodes (key, detail) ≡ some e
      → IsKnown (key, detail) e
  unfolding new_edge
  edge_from-IsKnown key detail e q =
      let (s, t, parts, hs, ht, same) = edge_from_parts-some key (split 95 key) detail e q in
      let spelt : key ≡ edge_key s t = sym (join_all-split 95 key) ∙ ap (join_all 95) parts in
      rw same (spelt, hs, ht, refl)

module _ {F : Type 0} where
  edge_between_two :
      (nodes : List (GraphNode F)) (m : Map Text (EdgeDetail F)) (e f : Edge F)
      → IsMap m
      → IsIn e (filter_map (edge_from nodes) m)
      → IsIn f (filter_map (edge_from nodes) m)
      → e.source ≡ f.source
      → e.target ≡ f.target
      → e ≡ f
  edge_between_two nodes m e f d i j s t =
      let ((key₁, detail₁), in₁, q₁) = (IsIn-filter_map (edge_from nodes) m e).0 i in
      let ((key₂, detail₂), in₂, q₂) = (IsIn-filter_map (edge_from nodes) m f).0 j in
      let (k₁, a₁, b₁, e₁) = edge_from-IsKnown nodes key₁ detail₁ e q₁ in
      let (k₂, a₂, b₂, e₂) = edge_from-IsKnown nodes key₂ detail₂ f q₂ in
      let same : key₁ ≡ key₂ =
        k₁ ∙ ap (λ x. edge_key x e.target) s ∙ ap (edge_key f.source) t ∙ sym k₂ in
      let g₁ : get key₂ m ≡ some detail₁ =
        ap (λ k. get k m) (sym same) ∙ IsIn-get key₁ detail₁ m d in₁ in
      let g₂ : get key₂ m ≡ some detail₂ = IsIn-get key₂ detail₂ m d in₂ in
      let details : detail₁ ≡ detail₂ = some-injective detail₁ detail₂ (sym g₁ ∙ g₂) in
      e₁
      ∙ ap (λ k. new_edge k e.source e.target detail₁) same
      ∙ ap (λ x. new_edge key₂ x e.target detail₁) s
      ∙ ap (λ x. new_edge key₂ f.source x detail₁) t
      ∙ ap (new_edge key₂ f.source f.target) details
      ∙ sym e₂

module _ {J F : Type 0} (p : Prometheus J F) where
  add_readings-IsMap :
      (metric : Text) (xs : List (Text × Text × F)) (m : Map Text (EdgeDetail F))
      → IsMap m
      → IsMap (add_readings p metric xs m)
  unfolding add_readings
  add_readings-IsMap metric [] m d = d
  add_readings-IsMap metric ((s, t, v) ∷ xs) m d = add_readings-IsMap metric xs _ (
      IsMap-modify_or_insert (edge_key s t) (set_detail metric v)
        (set_detail metric v (new_detail p)) m d)

module _ {J F : Type 0} (p : Prometheus J F) (endpoint : Text) where
  pub edge_data-IsMap : IsMap (edge_data p endpoint)
  edge_data-IsMap =
      add_readings-IsMap p avg_metric (filter_map (reading p) (results (avg_reply p endpoint))) _ (
        add_readings-IsMap p current_metric
          (filter_map (reading p) (results (current_reply p endpoint))) [] tt)

  -- Whatever Prometheus answers, if the handler returns a graph: each edge goes from a node of the
  -- graph to a node of the graph, has the key of its ends as id, and is the only edge between them.
  pub graph_handler-IsKnown :
      (g : GraphData F) (e f : Edge F)
      → graph_handler p endpoint ≡ ok g
      → IsIn e g.edges
      → IsIn f g.edges
      → e.source ≡ f.source
      → e.target ≡ f.target
      → (e.id ≡ edge_key e.source e.target)
        × (has_node e.source g.nodes ≡ true)
        × (has_node e.target g.nodes ≡ true)
        × (e ≡ f)
  unfolding new_edge
  graph_handler-IsKnown g e f returned i j s t =
      let g_eq = graph_handler-ok p endpoint g returned in
      let nodes = (graph p endpoint).nodes in
      let m = edge_data p endpoint in
      let i₁ = subst (λ x. IsIn e x.edges) g_eq i in
      let j₁ = subst (λ x. IsIn f x.edges) g_eq j in
      let ((key, detail), member, q) = (IsIn-filter_map (edge_from nodes) m e).0 i₁ in
      let (k, a, b, same) = edge_from-IsKnown nodes key detail e q in
      (
        ap (λ x. x.id) same ∙ k,
        rw (g_eq) a,
        rw (g_eq) b,
        edge_between_two nodes m e f edge_data-IsMap i₁ j₁ s t,
      )
