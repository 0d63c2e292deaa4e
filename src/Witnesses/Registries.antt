-- ===== src/Witnesses/Registries.antt =====
-- The registry and its service.
use swarm_mesh.Prelude.{
  ℕ, ◌+◌, ◌≤◌, ◌<◌, [], ◌∷◌, none, some, literal, ◌≡◌, refl, ◌↔◌, IsIn, arith, inl, inr, sym, ◌∙◌,
  some-injective, nat_eqb, nat_eqb_iff, if◌then◌else◌, Bool-cases, length, nat_key,
}
use swarm_mesh.HashMap.{get, insert, modify_or_insert}
use swarm_mesh.Registry.{NodeEntry, Registry, new, add, active_nodes, purge}
use swarm_mesh.Registry.Ledger.{LastSeen, Implements, see, forget, registry-Implements}
use swarm_mesh.Registry.Purge.{IsHeap, purge_lem}
use swarm_mesh.Registry.Latest.{active_nodes_lem}
use swarm_mesh.Decimal.{to_string, parse_u32}

abbrev entry : ℕ → ℕ → NodeEntry
entry id seen = record {
  node = record { id = id; ip = literal "ip"; metrics_port = 80 };
  seen = seen;
}

-- Node 1 registers twice, node 2 in between.
abbrev registry : Registry
registry = record { ttl = 60; nodes = entry 1 100 ∷ entry 2 120 ∷ entry 1 150 ∷ [] }

registry-IsHeap : IsHeap registry
registry-IsHeap = ((omega arith, (omega arith, tt)), ((omega arith, tt), (tt, tt)))

purge-registry : (purge (λ i. 175 + i) registry).nodes ≡ entry 2 120 ∷ entry 1 150 ∷ []
unfolding purge
purge-registry = refl

active_nodes-registry : active_nodes registry ≡ entry 1 150 ∷ entry 2 120 ∷ []
unfolding active_nodes modify_or_insert insert get
active_nodes-registry = refl

parse_u32-tests :
    (to_string 4096 ≡ literal "4096")
    × (parse_u32 (literal "+17") ≡ some 17)
    × (parse_u32 (literal "4294967295") ≡ some 4294967295)
    × (parse_u32 (literal "4294967296") ≡ none)
    × (parse_u32 (literal "+") ≡ none)
unfolding to_string parse_u32
parse_u32-tests = (refl, refl, refl, refl, refl)

purge_lem_example :
    (t : ℕ) × (175 + 0 ≤ t)
    × (t ≤ 175 + 3)
    × IsHeap (purge (λ i. 175 + i) registry)
    × ((x : NodeEntry)
        → IsIn x (purge (λ i. 175 + i) registry).nodes
          ↔ (IsIn x registry.nodes × (t < x.seen + 60)))
purge_lem_example = purge_lem (λ i. 175 + i) registry (λ i. omega arith) registry-IsHeap

active_nodes_lem_example :
    ((f : NodeEntry) → IsIn f (active_nodes registry) → IsIn f registry.nodes)
    × ((f g : NodeEntry)
        → IsIn f (active_nodes registry)
        → IsIn g (active_nodes registry)
        → f.node.id ≡ g.node.id
        → f ≡ g)
    × ((e : NodeEntry)
        → IsIn e registry.nodes
        → (f : NodeEntry) × IsIn f (active_nodes registry)
          × (f.node.id ≡ e.node.id)
          × (e.seen ≤ f.seen))
active_nodes_lem_example = active_nodes_lem registry

abbrev last_seen : LastSeen
last_seen id = if nat_eqb id 1 then some 150 else if nat_eqb id 2 then some 120 else none

registry-last_seen : Implements registry last_seen
registry-last_seen = (
  λ e i. elim i [
    | inl q ↦ rw (q) (150, refl, omega arith)
    | inr (inl q) ↦ rw (q) (120, refl, omega arith)
    | inr (inr (inl q)) ↦ rw (q) (150, refl, omega arith)
    | inr (inr (inr i)) ↦ elim i [ ]
  ],
  λ id s q. elim (Bool-cases (nat_eqb id 1)) [
    | inl one ↦ (
      entry 1 150,
      inr (inr (inl refl)),
      sym ((nat_eqb_iff id 1).0 one),
      some-injective 150 s (sym (rw (one) refl) ∙ q),
    )
    | inr not_one ↦ elim (Bool-cases (nat_eqb id 2)) [
      | inl two ↦ (
        entry 2 120,
        inr (inl refl),
        sym ((nat_eqb_iff id 2).0 two),
        some-injective 120 s (sym (rw (not_one, two) refl) ∙ q),
      )
      | inr not_two ↦ absurd (ground arith)
    ]
  ],
)

registry-Implements_example :
    Implements (new 60) (λ id. none)
    × Implements (add 200 (entry 3 200).node registry) (see 200 3 last_seen)
    × ((t : ℕ) × (175 + 0 ≤ t)
        × (t ≤ 175 + length registry.nodes)
        × Implements (purge (λ i. 175 + i) registry) (forget 60 t last_seen))
    × ((last_seen 1 ≡ some 150)
        ↔ ((f : NodeEntry) × IsIn f (active_nodes registry) × (f.node.id ≡ 1) × (f.seen ≡ 150)))
registry-Implements_example =
    registry-Implements 60 200 1 150 (entry 3 200).node (λ i. 175 + i) registry last_seen
      (λ i. omega arith) registry-IsHeap registry-last_seen
