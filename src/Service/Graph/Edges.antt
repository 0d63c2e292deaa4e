-- ===== src/Service/Graph/Edges.antt =====
-- The set `missing` of `query_prometheus_for_edges` (apps/mesh-registry/src/main.rs) is only a cache.
use swarm_mesh.Prelude.{
  true, false, ◌&&◌, List, [], ◌∷◌, Option, none, some, Text, ◌≡◌, refl, sym, ap, ◌∙◌, inl, inr,
  Bool-cases, text_key, split, if◌then◌else◌, All, filter_map, ◌==◌, arith,
}
use swarm_mesh.HashMap.{Map}
use swarm_mesh.Service.Prometheus.{GraphNode, EdgeDetail, Edge}
use swarm_mesh.Service.Graph.{
  has_node, is_member, contains, new_edge, edge_between, edge_of_parts, collect_edges,
}

module _ {F : Type 0} (nodes : List (GraphNode F)) where
  -- Nothing in the set is a node.
  abbrev pub IsMissing : List Text → Type 0
  IsMissing = All (λ id. has_node id nodes ≡ false)

  is_member-IsMissing :
      (id : Text) (missing : List Text)
      → IsMissing missing
      → is_member id missing ≡ true
      → has_node id nodes ≡ false
  is_member-IsMissing id [] h e = absurd (ground arith)
  is_member-IsMissing id (x ∷ xs) (h, hs) e = elim (Bool-cases (x == id)) [
    | inl q ↦ ap (λ y. has_node y nodes) (sym ((text_key.agrees_iff x id).0 q)) ∙ h
    | inr q ↦ is_member-IsMissing id xs hs (ground arith)
  ]

  contains-has_node :
      (id : Text) (missing : List Text)
      → IsMissing missing
      → ((contains nodes id missing).0 ≡ has_node id nodes)
        × IsMissing (contains nodes id missing).1
  unfolding contains
  contains-has_node id missing h = elim (Bool-cases (is_member id missing)) [
    | inl q ↦ rw q (sym (is_member-IsMissing id missing h q), h)
    | inr q ↦ elim (Bool-cases (has_node id nodes)) [
      | inl n ↦ rw (q, n) (refl, h)
      | inr n ↦ rw (q, n) (refl, (n, h))
    ]
  ]

  -- The edge for the parts of a key, with no cache.
  abbrev pub edge_from_parts : Text → List Text → EdgeDetail F → Option (Edge F)
  edge_from_parts key (source ∷ target ∷ []) detail =
      if has_node source nodes && has_node target nodes
      then some (new_edge key source target detail)
      else none
  edge_from_parts key _ detail = none

  abbrev pub edge_from : Text × EdgeDetail F → Option (Edge F)
  edge_from (key, detail) = edge_from_parts key (split 95 key) detail

  edge_between-plain :
      (key source target : Text) (detail : EdgeDetail F) (missing : List Text)
      → IsMissing missing
      → let r = edge_between nodes key source target detail missing in
        (r.0 ≡ edge_from_parts key (source ∷ target ∷ []) detail) × IsMissing r.1
  unfolding edge_between
  edge_between-plain key source target detail missing h =
      let (e₁, h₁) = contains-has_node source missing h in
      let (e₂, h₂) = contains-has_node target (contains nodes source missing).1 h₁ in
      elim (Bool-cases (has_node source nodes)) [
        | inl s ↦ rw (e₁ ∙ s) (rw (e₂, s) (refl, h₂))
        | inr s ↦ rw (e₁ ∙ s) (rw s (refl, h₁))
      ]

  edge_of_parts-plain :
      (key : Text) (parts : List Text) (detail : EdgeDetail F) (missing : List Text)
      → IsMissing missing
      → let r = edge_of_parts nodes key parts detail missing in
        (r.0 ≡ edge_from_parts key parts detail) × IsMissing r.1
  unfolding edge_of_parts
  edge_of_parts-plain key [] detail missing h = (refl, h)
  edge_of_parts-plain key (a ∷ []) detail missing h = (refl, h)
  edge_of_parts-plain key (a ∷ b ∷ []) detail missing h =
      edge_between-plain key a b detail missing h
  edge_of_parts-plain key (a ∷ b ∷ c ∷ ps) detail missing h = (refl, h)

  collect_edges-from :
      (m : Map Text (EdgeDetail F)) (missing : List Text)
      → IsMissing missing
      → collect_edges nodes m missing ≡ filter_map edge_from m
  unfolding collect_edges
  collect_edges-from [] missing h = refl
  collect_edges-from ((key, detail) ∷ m) missing h =
      let (e, h₁) = edge_of_parts-plain key (split 95 key) detail missing h in
      rw (e, collect_edges-from m (edge_of_parts nodes key (split 95 key) detail missing).1 h₁) refl

  -- The set of ids that were looked up in vain changes no result: the edges are those of the keys
  -- with two parts, both of them ids of nodes, as if each id were looked up among the nodes.
  pub collect_edges-plain :
      (m : Map Text (EdgeDetail F)) → collect_edges nodes m [] ≡ filter_map edge_from m
  collect_edges-plain m = collect_edges-from m [] tt
