-- ===== src/Registry/Latest.antt =====
-- What `Registry::nodes` of crates/registry/src/lib.rs returns.
use swarm_mesh.Prelude.{
  ℕ, some-injective, ◌≤◌, List, [], ◌∷◌, none, some, ◌≡◌, refl, sym, ap, subst, ◌∙◌, ◌⊎◌, inl, inr,
  ltb, if◌then◌else◌, nat_key, nat_eqb, nat_eqb_iff, map, IsIn, Bool-cases, Option-cases, arith,
}
use swarm_mesh.HashMap.{Map, get, modify_or_insert, IsMap}
use swarm_mesh.HashMap.Laws.{get-modify_or_insert, get-eq_some, IsIn-get, IsMap-modify_or_insert}
use swarm_mesh.Mesh.Message.{NodeId}
use swarm_mesh.Registry.{NodeEntry, Registry, later, latest, active_nodes}

-- The entry of `id` was seen no earlier than `e`.
abbrev pub IsSince : ℕ → ℕ → Map NodeId NodeEntry → Type 0
IsSince id seen m = (f : NodeEntry) × (get id m ≡ some f) × (seen ≤ f.seen)

step : NodeEntry → Map NodeId NodeEntry → Map NodeId NodeEntry
step cur m = modify_or_insert cur.node.id (later cur) cur m

get-step :
    (cur : NodeEntry) (id : ℕ) (m : Map NodeId NodeEntry)
    → get id (step cur m) ≡ (
        if nat_eqb cur.node.id id
        then some (elim (get cur.node.id m) [ none ↦ cur | some w ↦ later cur w ])
        else get id m)
unfolding step
get-step cur id m = get-modify_or_insert cur.node.id id (later cur) cur m

step-IsSince :
    (cur : NodeEntry) (id seen : ℕ) (m : Map NodeId NodeEntry)
    → IsSince id seen m
    → IsSince id seen (step cur m)
step-IsSince cur id seen m (f, g, le) = elim (Bool-cases (nat_eqb cur.node.id id)) [
  | inl q ↦
      let here : get cur.node.id m ≡ some f =
        ap (λ k. get k m) ((nat_eqb_iff cur.node.id id).0 q) ∙ g in
      (later cur f, rw (get-step cur id m, q, here) refl, ground arith)
  | inr q ↦ (f, rw (get-step cur id m, q) g, le)
]

step-IsSince_self :
    (cur : NodeEntry) (m : Map NodeId NodeEntry) → IsSince cur.node.id cur.seen (step cur m)
step-IsSince_self cur m = elim (Option-cases (get cur.node.id m)) [
  | inl q ↦ (
    cur,
    rw (get-step cur cur.node.id m, (nat_eqb_iff cur.node.id cur.node.id).1 refl, q) refl,
    omega arith,
  )
  | inr (w, q) ↦ (
    later cur w,
    rw (get-step cur cur.node.id m, (nat_eqb_iff cur.node.id cur.node.id).1 refl, q) refl,
    ground arith,
  )
]

-- Every entry after a step is the one before or the one that was added.
step-source :
    (cur f : NodeEntry) (id : ℕ) (m : Map NodeId NodeEntry)
    → get id (step cur m) ≡ some f
    → (get id m ≡ some f) ⊎ ((f ≡ cur) × (cur.node.id ≡ id))
step-source cur f id m g = elim (Bool-cases (nat_eqb cur.node.id id)) [
  | inl q ↦
      let same : cur.node.id ≡ id = (nat_eqb_iff cur.node.id id).0 q in
      elim (Option-cases (get cur.node.id m)) [
        | inl n ↦
            let e : get id (step cur m) ≡ some cur = rw (get-step cur id m, q, n) refl in
            inr (some-injective f cur (sym g ∙ e), same)
        | inr (w, n) ↦
            let e : get id (step cur m) ≡ some (later cur w) = rw (get-step cur id m, q, n) refl in
            elim (Bool-cases (ltb w.seen cur.seen)) [
              | inl l ↦ inr (some-injective f cur (sym g ∙ e ∙ rw l refl), same)
              | inr l ↦ inl (ap (λ k. get k m) (sym same) ∙ n ∙ sym (sym g ∙ e ∙ rw l refl))
            ]
      ]
  | inr q ↦
      let e : get id (step cur m) ≡ get id m = rw (get-step cur id m, q) refl in inl (sym e ∙ g)
]

latest-step :
    (cur : NodeEntry) (es : List NodeEntry) (m : Map NodeId NodeEntry)
    → latest (cur ∷ es) m ≡ latest es (step cur m)
unfolding latest step
latest-step cur es m = refl

latest-IsSince :
    (id seen : ℕ) (es : List NodeEntry) (m : Map NodeId NodeEntry)
    → IsSince id seen m
    → IsSince id seen (latest es m)
unfolding latest
latest-IsSince id seen [] m s = s
latest-IsSince id seen (cur ∷ es) m s =
    rw (latest-step cur es m)
      (latest-IsSince id seen es (step cur m) (step-IsSince cur id seen m s))

latest-bound :
    (e : NodeEntry) (es : List NodeEntry) (m : Map NodeId NodeEntry)
    → IsIn e es
    → IsSince e.node.id e.seen (latest es m)
latest-bound e [] m i = elim i [ ]
latest-bound e (cur ∷ es) m (inl q) = rw (latest-step cur es m) (
    subst (λ x. IsSince x.node.id x.seen (latest es (step cur m))) (sym q)
      (latest-IsSince cur.node.id cur.seen es (step cur m) (step-IsSince_self cur m)))
latest-bound e (cur ∷ es) m (inr i) = rw (latest-step cur es m) (latest-bound e es (step cur m) i)

latest-source :
    (id : ℕ) (f : NodeEntry) (es : List NodeEntry) (m : Map NodeId NodeEntry)
    → get id (latest es m) ≡ some f
    → (get id m ≡ some f) ⊎ (IsIn f es × (f.node.id ≡ id))
unfolding latest
latest-source id f [] m g = inl g
latest-source id f (cur ∷ es) m g =
    elim (latest-source id f es (step cur m) (rw⁻¹ (latest-step cur es m) g)) [
      | inr (i, s) ↦ inr (inr i, s)
      | inl h ↦ elim (step-source cur f id m h) [
        | inl k ↦ inl k
        | inr (e, s) ↦ inr (inl e, ap (λ x. x.node.id) e ∙ s)
      ]
    ]

latest-IsMap : (es : List NodeEntry) (m : Map NodeId NodeEntry) → IsMap m → IsMap (latest es m)
unfolding latest
latest-IsMap [] m d = d
latest-IsMap (cur ∷ es) m d =
    latest-IsMap es _ (IsMap-modify_or_insert cur.node.id (later cur) cur m d)

-- The values of a map.
IsIn-values :
    (f : NodeEntry) (m : Map NodeId NodeEntry)
    → IsIn f (map (λ e. e.1) m)
    → (id : ℕ) × IsIn (id, f) m
IsIn-values f [] i = elim i [ ]
IsIn-values f ((id, g) ∷ m) (inl q) = (id, inl (ap (λ x. (id, x)) q))
IsIn-values f ((id, g) ∷ m) (inr i) = let (j, k) = IsIn-values f m i in (j, inr k)

values-IsIn :
    (id : ℕ) (f : NodeEntry) (m : Map NodeId NodeEntry) → IsIn (id, f) m → IsIn f (map (λ e. e.1) m)
values-IsIn id f [] i = elim i [ ]
values-IsIn id f (e ∷ m) (inl q) = inl (ap (λ x. x.1) q)
values-IsIn id f (e ∷ m) (inr i) = inr (values-IsIn id f m i)

active_nodes-get :
    (r : Registry) (f : NodeEntry)
    → IsIn f (active_nodes r)
    → IsIn f r.nodes × (get f.node.id (latest r.nodes []) ≡ some f)
unfolding active_nodes get
active_nodes-get r f i =
    let (id, j) = IsIn-values f (latest r.nodes []) i in
    let g : get id (latest r.nodes []) ≡ some f = IsIn-get id f _ (latest-IsMap r.nodes [] tt) j in
    elim (latest-source id f r.nodes [] g) [
      | inl h ↦ absurd (ground arith)
      | inr (k, s) ↦ (k, ap (λ x. get x (latest r.nodes [])) s ∙ g)
    ]

-- `nodes` returns entries of the registry, for each id that has registered one, and one only, seen no earlier
-- than any other entry of that id.
pub active_nodes_lem :
    (r : Registry)
    → ((f : NodeEntry) → IsIn f (active_nodes r) → IsIn f r.nodes)
      × ((f g : NodeEntry)
          → IsIn f (active_nodes r)
          → IsIn g (active_nodes r)
          → f.node.id ≡ g.node.id
          → f ≡ g)
      × ((e : NodeEntry)
          → IsIn e r.nodes
          → (f : NodeEntry) × IsIn f (active_nodes r) × (f.node.id ≡ e.node.id) × (e.seen ≤ f.seen))
unfolding active_nodes get
active_nodes_lem r = (
  λ f i. (active_nodes-get r f i).0,
  λ f g i j s. some-injective f g (
      sym (active_nodes-get r f i).1
      ∙ ap (λ x. get x (latest r.nodes [])) s
      ∙ (active_nodes-get r g j).1),
  λ e i.
      let (f, g, le) = latest-bound e r.nodes [] i in
      elim (latest-source e.node.id f r.nodes [] g) [
        | inl h ↦ absurd (ground arith)
        | inr (k, s) ↦ (f, values-IsIn e.node.id f _ (get-eq_some e.node.id f _ g), s, le)
      ],
)
