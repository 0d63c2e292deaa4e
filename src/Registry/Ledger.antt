-- ===== src/Registry/Ledger.antt =====
-- What the registry of crates/registry/src/lib.rs promises: for each id, when it was last seen. The heap,
-- which keeps several entries of an id, implements it.
use swarm_mesh.Prelude.{
  ℕ, ◌+◌, ◌≤◌, ◌<◌, Option, none, some, some-injective, ◌≡◌, refl, sym, ap, subst, ◌∙◌, ◌↔◌, ◌⊎◌,
  inl, inr, ltb, nat_eqb, nat_eqb_iff, if◌then◌else◌, length, IsIn, Bool-cases, arith,
}
use swarm_mesh.Registry.{Node, NodeEntry, Registry, new, add, purge, active_nodes}
use swarm_mesh.Registry.Purge.{IsHeap, add-IsHeap, purge_lem}
use swarm_mesh.Registry.Latest.{active_nodes_lem}

-- When each id was last seen, if it is known.
abbrev pub LastSeen : Type 0
LastSeen = ℕ → Option ℕ

abbrev pub newer : ℕ → Option ℕ → ℕ
newer now none = now
newer now (some s) = if ltb s now then now else s

-- The id is seen.
abbrev pub see : ℕ → ℕ → LastSeen → LastSeen
see now id l j = if nat_eqb id j then some (newer now (l j)) else l j

abbrev pub if_alive : ℕ → ℕ → Option ℕ → Option ℕ
if_alive ttl t none = none
if_alive ttl t (some s) = if ltb t (s + ttl) then some s else none

-- At the instant `t`, the ids go whose time to live has passed.
abbrev pub forget : ℕ → ℕ → LastSeen → LastSeen
forget ttl t l j = if_alive ttl t (l j)

-- The heap has, for each known id, an entry of when it was last seen, and none that is newer; and
-- it has no entries of other ids.
abbrev pub Implements : Registry → LastSeen → Type 0
Implements r l =
    ((e : NodeEntry) → IsIn e r.nodes → (s : ℕ) × (l e.node.id ≡ some s) × (e.seen ≤ s))
    × ((id s : ℕ)
        → l id ≡ some s
        → (e : NodeEntry) × IsIn e r.nodes × (e.node.id ≡ id) × (e.seen ≡ s))

new-Implements : (ttl : ℕ) → Implements (new ttl) (λ id. none)
unfolding new
new-Implements ttl = (λ e i. elim i [ ], λ id s q. absurd cc)

newer-now : (now : ℕ) (o : Option ℕ) → now ≤ newer now o
newer-now now none = omega arith
newer-now now (some s) = ground arith

-- What is known of an id after one was seen.
see_self : (now id : ℕ) (l : LastSeen) → see now id l id ≡ some (newer now (l id))
see_self now id l = rw ((nat_eqb_iff id id).1 refl) refl

see-old :
    (now id j s : ℕ) (l : LastSeen) → l j ≡ some s → (t : ℕ) × (see now id l j ≡ some t) × (s ≤ t)
see-old now id j s l q = elim (Bool-cases (nat_eqb id j)) [
  | inl same ↦ (newer now (some s), rw (same, q) refl, ground arith)
  | inr other ↦ (s, rw (other) q, omega arith)
]

newer-source : (now s t : ℕ) (o : Option ℕ) → newer now o ≡ s → (o ≡ some s) ⊎ (s ≡ now)
newer-source now s t none q = inr (sym q)
newer-source now s t (some u) q = elim (Bool-cases (ltb u now)) [
  | inl lt ↦ inr (sym q ∙ rw (lt) refl)
  | inr ge ↦ inl (ap some (sym (rw (ge) refl) ∙ q))
]

see-source :
    (now id j s : ℕ) (l : LastSeen)
    → see now id l j ≡ some s
    → (l j ≡ some s) ⊎ ((id ≡ j) × (s ≡ now))
see-source now id j s l q = elim (Bool-cases (nat_eqb id j)) [
  | inl same ↦
      let known : newer now (l j) ≡ s =
        some-injective (newer now (l j)) s (sym (rw (same) refl) ∙ q) in
      elim (newer-source now s s (l j) known) [
        | inl old ↦ inl old
        | inr fresh ↦ inr ((nat_eqb_iff id j).0 same, fresh)
      ]
  | inr other ↦ inl (sym (rw (other) refl) ∙ q)
]

add-Implements :
    (now : ℕ) (node : Node) (r : Registry) (l : LastSeen)
    → IsHeap r
    → Implements r l
    → Implements (add now node r) (see now node.id l)
add-Implements now node r l h (bound, source) =
    let (heap, found) = add-IsHeap now node r h in
    (
      λ e i. elim ((found e).0 i) [
        | inl q ↦
            let same : see now node.id l node.id ≡ see now node.id l e.node.id =
              ap (λ x. see now node.id l x.node.id) (sym q) in
            let time : e.seen ≡ now = ap (λ x. x.seen) q in
            (
              newer now (l node.id),
              sym same ∙ see_self now node.id l,
              rw (time) (newer-now now (l node.id)),
            )
        | inr j ↦
            let (s, known, le) = bound e j in
            let (t, q, later) = see-old now node.id e.node.id s l known in
            (t, q, omega (arith, le, later))
      ],
      λ id s q. elim (see-source now node.id id s l q) [
        | inl old ↦ let (e, i, a, b) = source id s old in (e, (found e).1 (inr i), a, b)
        | inr (same, fresh) ↦
            (record { node = node; seen = now }, (found _).1 (inl refl), same, sym fresh)
      ],
    )

if_alive-source :
    (ttl t s : ℕ) (o : Option ℕ) → if_alive ttl t o ≡ some s → (o ≡ some s) × (t < s + ttl)
if_alive-source ttl t s none q = absurd cc
if_alive-source ttl t s (some u) q = elim (Bool-cases (ltb t (u + ttl))) [
  | inl lt ↦
      let same : u ≡ s = some-injective u s (sym (rw (lt) refl) ∙ q) in
      (ap some same, subst (λ x. t < x + ttl) same (ground arith))
  | inr ge ↦ absurd (ground arith)
]

if_alive-some : (ttl t s : ℕ) (o : Option ℕ) → o ≡ some s → t < s + ttl → if_alive ttl t o ≡ some s
if_alive-some ttl t s o q lt = rw (q) (ground arith)

purge-Implements :
    (clock : ℕ → ℕ) (r : Registry) (l : LastSeen)
    → ((i : ℕ) → clock i ≤ clock (i + 1))
    → IsHeap r
    → Implements r l
    → (t : ℕ) × (clock 0 ≤ t)
      × (t ≤ clock (length r.nodes))
      × Implements (purge clock r) (forget r.ttl t l)
purge-Implements clock r l onward h (bound, source) =
    let (t, early, late, heap, found) = purge_lem clock r onward h in
    (
      t,
      early,
      late,
      (
        λ e i.
            let (j, alive) = (found e).0 i in
            let (s, known, le) = bound e j in
            (s, if_alive-some r.ttl t s (l e.node.id) known (omega (arith, alive, le)), le),
        λ id s q.
            let (known, alive) = if_alive-source r.ttl t s (l id) q in
            let (e, i, same, time) = source id s known in
            (e, (found e).1 (i, rw (time) alive), same, time),
      ),
    )

active_nodes-Implements :
    (r : Registry) (l : LastSeen) (id s : ℕ)
    → Implements r l
    → (l id ≡ some s)
      ↔ ((f : NodeEntry) × IsIn f (active_nodes r) × (f.node.id ≡ id) × (f.seen ≡ s))
active_nodes-Implements r l id s (bound, source) = (
  λ q.
      let (e, i, same, time) = source id s q in
      let (f, j, same_id, le) = (active_nodes_lem r).2 e i in
      let (u, known, more) = bound f ((active_nodes_lem r).0 f j) in
      let latest : u ≡ s = some-injective u s (sym known ∙ ap l (same_id ∙ same) ∙ q) in
      (f, j, same_id ∙ same, omega (arith, time, le, more, latest)),
  λ (f, j, same, time).
      let (u, known, more) = bound f ((active_nodes_lem r).0 f j) in
      let (e, i, same_id, seen) = source f.node.id u known in
      let (g, k, id_of_g, le) = (active_nodes_lem r).2 e i in
      let unique : g ≡ f = (active_nodes_lem r).1 g f k j (id_of_g ∙ same_id) in
      let latest : u ≡ s = omega (arith, more, le, seen, time, ap (λ x. x.seen) unique) in
      ap l (sym same) ∙ known ∙ ap some latest,
)

-- A registry implements a table of when each id was last seen. A new registry implements the empty
-- table. Adding a node is seeing its id. Purging, with a clock that does not run backwards, is
-- forgetting, at one instant of the run, the ids whose time to live has passed since they were
-- last seen. And the ids and times of `nodes` are just those of the table.
pub registry-Implements :
    (ttl now id s : ℕ) (node : Node) (clock : ℕ → ℕ) (r : Registry) (l : LastSeen)
    → ((i : ℕ) → clock i ≤ clock (i + 1))
    → IsHeap r
    → Implements r l
    → Implements (new ttl) (λ id. none)
      × Implements (add now node r) (see now node.id l)
      × ((t : ℕ) × (clock 0 ≤ t)
          × (t ≤ clock (length r.nodes))
          × Implements (purge clock r) (forget r.ttl t l))
      × ((l id ≡ some s)
          ↔ ((f : NodeEntry) × IsIn f (active_nodes r) × (f.node.id ≡ id) × (f.seen ≡ s)))
registry-Implements ttl now id s node clock r l onward h i = (
  new-Implements ttl,
  add-Implements now node r l h i,
  purge-Implements clock r l onward h i,
  active_nodes-Implements r l id s i,
)
