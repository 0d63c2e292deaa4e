-- ===== src/Registry/Purge.antt =====
-- What stays in the registry (crates/registry/src/lib.rs) after `purge`.
use swarm_mesh.Prelude.{
  ℕ, zero, suc, ◌+◌, ◌≤◌, ◌<◌, true, false, List, [], ◌∷◌, ◌≡◌, ap, subst, ◌↔◌, ◌⊎◌, inl, inr,
  length, All, IsIn, All-IsIn, Bool-cases, arith,
}
use swarm_mesh.Registry.{Node, NodeEntry, Registry, new, push, add, expired, purge_from, purge}

-- The entries in the order of the heap.
abbrev pub IsOrdered : List NodeEntry → Type 0
IsOrdered [] = Unit {0}
IsOrdered (e ∷ es) = All (λ x. e.seen ≤ x.seen) es × IsOrdered es

All-push :
    (n : ℕ) (e : NodeEntry) (es : List NodeEntry)
    → n ≤ e.seen
    → All (λ x. n ≤ x.seen) es
    → All (λ x. n ≤ x.seen) (push e es)
unfolding push
All-push n e [] h a = (h, tt)
All-push n e (x ∷ xs) h a = ground (arith, All-push n e xs h a.1)

All-le :
    (m n : ℕ) (es : List NodeEntry) → m ≤ n → All (λ x. n ≤ x.seen) es → All (λ x. m ≤ x.seen) es
All-le m n [] h a = tt
All-le m n (e ∷ es) h a = (omega (arith, h, a.0), All-le m n es h a.1)

push-IsOrdered : (e : NodeEntry) (es : List NodeEntry) → IsOrdered es → IsOrdered (push e es)
unfolding push
push-IsOrdered e [] o = (tt, tt)
push-IsOrdered e (x ∷ xs) o =
    ground (arith, push-IsOrdered e xs o.1, All-push x.seen e xs, All-le e.seen x.seen xs)

IsIn-push : (e x : NodeEntry) (es : List NodeEntry) → IsIn x (push e es) ↔ ((x ≡ e) ⊎ IsIn x es)
unfolding push
IsIn-push e x [] = ground arith
IsIn-push e x (y ∷ ys) = ground (arith, IsIn-push e x ys)

-- Entries seen no earlier than `n`, one of them.
All-seen :
    (n : ℕ) (x : NodeEntry) (es : List NodeEntry)
    → All (λ y. n ≤ y.seen) es
    → IsIn x es
    → n ≤ x.seen
All-seen n x es a i = All-IsIn (λ y. n ≤ y.seen) es a i

module _ (ttl : ℕ) (clock : ℕ → ℕ) (onward : (i : ℕ) → clock i ≤ clock (i + 1)) where
  onward_by : (i n : ℕ) → clock i ≤ clock (i + n)
  onward_by i zero = let z : i + 0 ≡ i = omega arith in rw z (omega arith)
  onward_by i (suc n) =
      let z : i + suc n ≡ i + n + 1 = omega arith in
      rw z (omega (arith, onward_by i n, onward (i + n)))

  purge_from-expired :
      (i : ℕ) (e : NodeEntry) (es : List NodeEntry)
      → expired ttl (clock i) e ≡ true
      → purge_from ttl clock i (e ∷ es) ≡ purge_from ttl clock (i + 1) es
  unfolding purge_from
  purge_from-expired i e es q = rw q

  purge_from-fresh :
      (i : ℕ) (e : NodeEntry) (es : List NodeEntry)
      → expired ttl (clock i) e ≡ false
      → purge_from ttl clock i (e ∷ es) ≡ e ∷ es
  unfolding purge_from
  purge_from-fresh i e es q = rw q

  purge_from-IsIn :
      (i : ℕ) (es : List NodeEntry)
      → IsOrdered es
      → (t : ℕ) × (clock i ≤ t)
        × (t ≤ clock (i + length es))
        × IsOrdered (purge_from ttl clock i es)
        × ((x : NodeEntry) → IsIn x (purge_from ttl clock i es) ↔ (IsIn x es × (t < x.seen + ttl)))
  unfolding purge_from
  purge_from-IsIn i [] o =
      let z : i + 0 ≡ i = omega arith in
      (clock i, omega arith, rw z (omega arith), tt, λ x. (λ q. elim q [ ], λ q. elim q.0 [ ]))
  purge_from-IsIn i (e ∷ es) o = elim (Bool-cases (expired ttl (clock i) e)) [
    | inl q ↦
        let (t, early, late, ordered, found) = purge_from-IsIn (i + 1) es o.1 in
        let gone : e.seen + ttl ≤ clock i = ground arith in
        rw (purge_from-expired i e es q) (
          t,
          omega (arith, onward i, early),
          subst (λ k. t ≤ clock k) (omega arith) late,
          ordered,
          λ x. (
            λ h. let r = (found x).0 h in (inr r.0, r.1),
            λ h. elim h.0 [
              | inl same ↦ absurd (omega (arith, ap (λ y. y.seen) same, h.1, gone, onward i, early))
              | inr j ↦ (found x).1 (j, h.1)
            ],
          ),
        )
    | inr q ↦
        let kept : clock i < e.seen + ttl = ground arith in
        rw (purge_from-fresh i e es q) (
          clock i,
          omega arith,
          onward_by i (length (e ∷ es)),
          o,
          λ x. (
            λ h. (
              h,
              elim h [
                | inl same ↦ omega (arith, ap (λ y. y.seen) same, kept)
                | inr j ↦ omega (arith, All-seen e.seen x es o.0 j, kept)
              ],
            ),
            λ h. h.0,
          ),
        )
  ]

-- The registry with its entries in the order of the heap.
abbrev pub IsHeap : Registry → Type 0
IsHeap r = IsOrdered r.nodes

pub new-IsHeap : (ttl : ℕ) → IsHeap (new ttl)
unfolding new
new-IsHeap ttl = tt

-- A new entry goes in, none goes out, and the heap keeps its order.
pub add-IsHeap :
    (now : ℕ) (node : Node) (r : Registry)
    → IsHeap r
    → IsHeap (add now node r)
      × ((x : NodeEntry)
          → IsIn x (add now node r).nodes
            ↔ ((x ≡ record { node = node; seen = now }) ⊎ IsIn x r.nodes))
unfolding add
add-IsHeap now node r h =
    (push-IsOrdered _ r.nodes h, λ x. IsIn-push (record { node = node; seen = now }) x r.nodes)

-- Whatever the clock reads while `purge` looks at the entries, as long as it does not run
-- backwards: there is one instant, between the first reading and the last, such that exactly those
-- entries stay whose time to live has not passed at that instant. The heap keeps its order.
pub purge_lem :
    (clock : ℕ → ℕ) (r : Registry)
    → ((i : ℕ) → clock i ≤ clock (i + 1))
    → IsHeap r
    → (t : ℕ) × (clock 0 ≤ t)
      × (t ≤ clock (length r.nodes))
      × IsHeap (purge clock r)
      × ((x : NodeEntry) → IsIn x (purge clock r).nodes ↔ (IsIn x r.nodes × (t < x.seen + r.ttl)))
unfolding purge
purge_lem clock r onward h =
    let (t, early, late, ordered, found) = purge_from-IsIn r.ttl clock onward 0 r.nodes h in
    (t, early, subst (λ k. t ≤ clock k) (omega arith) late, ordered, found)
