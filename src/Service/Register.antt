-- ===== src/Service/Register.antt =====
-- Registration with apps/mesh-registry/src/main.rs, from the heartbeat of a node (apps/node/src/main.rs) to
-- the targets for Prometheus.
use swarm_mesh.Prelude.{
  ℕ, ◌^◌, ◌<◌, ◌≤◌, List, [], ◌∷◌, none, some, ok, err, Text, ◌≡◌, refl, sym, ap, ◌∙◌, ◌↔◌, ◌⊎◌,
  inl, inr, IsIn, map,
}
use swarm_mesh.Registry.{Node, NodeEntry, Registry, add, active_nodes}
use swarm_mesh.Registry.Purge.{IsHeap, add-IsHeap}
use swarm_mesh.Registry.Latest.{active_nodes_lem}
use swarm_mesh.Decimal.{parse_u32}
use swarm_mesh.Service.{
  NodeRegistration, status_ok, bad_request, register_node_handler, heartbeat_handler, target_of,
  prometheus_targets_handler, heartbeat,
}
use swarm_mesh.Service.Numbers.{parse_u32-to_string}

pub IsIn-map : {A B : Type 0} (f : A → B) (a : A) (xs : List A) → IsIn a xs → IsIn (f a) (map f xs)
IsIn-map f a [] i = elim i [ ]
IsIn-map f a (x ∷ xs) (inl e) = inl (ap f e)
IsIn-map f a (x ∷ xs) (inr i) = inr (IsIn-map f a xs i)

-- The node of a registration that was accepted.
abbrev pub node_of : ℕ → NodeRegistration → Node
node_of id g = record { id = id; ip = g.ip; metrics_port = g.metrics_port }

pub handler-refused :
    (now : ℕ) (g : NodeRegistration) (r : Registry)
    → parse_u32 g.id ≡ none
    → register_node_handler now g r ≡ (err bad_request, r)
unfolding register_node_handler
handler-refused now g r e = rw (e, register_node_handler)

pub handler-accepted :
    (now id : ℕ) (g : NodeRegistration) (r : Registry)
    → parse_u32 g.id ≡ some id
    → register_node_handler now g r ≡ (ok status_ok, add now (node_of id g) r)
unfolding register_node_handler
handler-accepted now id g r e = rw (e, register_node_handler)

pub same_handlers :
    (now : ℕ) (g : NodeRegistration) (r : Registry)
    → register_node_handler now g r ≡ heartbeat_handler now g r
unfolding register_node_handler heartbeat_handler
same_handlers now g r = refl

-- Both handlers do the same. For a registry in heap order, a registration whose id is a `u32` is
-- accepted: just its entry is added, and the order of the heap is kept.
pub register_node_handler_lem :
    (now id : ℕ) (g : NodeRegistration) (r : Registry) (x : NodeEntry)
    → IsHeap r
    → parse_u32 g.id ≡ some id
    → (register_node_handler now g r ≡ heartbeat_handler now g r)
      × ((register_node_handler now g r).0 ≡ ok status_ok)
      × IsHeap (register_node_handler now g r).1
      × (IsIn x (register_node_handler now g r).1.nodes
          ↔ ((x ≡ record { node = node_of id g; seen = now }) ⊎ IsIn x r.nodes))
register_node_handler_lem now id g r x h e =
    let (heap, found) = add-IsHeap now (node_of id g) r h in
    (
      same_handlers now g r,
      rw (handler-accepted now id g r e) refl,
      rw (handler-accepted now id g r e) heap,
      rw (handler-accepted now id g r e) (found x),
    )

-- A registration whose id is no `u32` is a bad request, with either handler, and changes nothing.
pub register_node_handler-refused :
    (now : ℕ) (g : NodeRegistration) (r : Registry)
    → parse_u32 g.id ≡ none
    → (register_node_handler now g r ≡ (err bad_request, r))
      × (heartbeat_handler now g r ≡ (err bad_request, r))
register_node_handler-refused now g r e =
    (handler-refused now g r e, sym (same_handlers now g r) ∙ handler-refused now g r e)

-- The heartbeat of a node is accepted, whatever the registry holds. The targets for Prometheus then
-- have one with the id of the node, from an entry no older than the heartbeat.
pub heartbeat-prometheus_targets_handler :
    (now id port : ℕ) (ip : Text) (r : Registry)
    → id < 2 ^ 32
    → IsHeap r
    → ((heartbeat_handler now (heartbeat id ip port) r).0 ≡ ok status_ok)
      × ((f : NodeEntry) × (f.node.id ≡ id)
          × (now ≤ f.seen)
          × IsIn
              (target_of f)
              (prometheus_targets_handler (heartbeat_handler now (heartbeat id ip port) r).1))
unfolding heartbeat prometheus_targets_handler
heartbeat-prometheus_targets_handler now id port ip r small h =
    let g = heartbeat id ip port in
    let entry : NodeEntry = record { node = node_of id g; seen = now } in
    let run : heartbeat_handler now g r ≡ (ok status_ok, add now (node_of id g) r) =
      sym (same_handlers now g r) ∙ handler-accepted now id g r (parse_u32-to_string id small) in
    let (f, i, same, late) =
      (active_nodes_lem (add now (node_of id g) r)).2 entry
        (((add-IsHeap now (node_of id g) r h).1 entry).1 (inl refl)) in
    rw run (refl, (f, same, late, IsIn-map target_of f (active_nodes (add now (node_of id g) r)) i))
