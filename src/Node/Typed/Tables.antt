-- ===== src/Node/Typed/Tables.antt =====
-- Tables all of whose entries satisfy a predicate, under the operations that crates/node/src/node.rs
-- does on them.
use swarm_mesh.Prelude.{
  List, [], ◌∷◌, Bool, some, Option, ◌≡◌, Key, ◌==◌, All, All-IsIn, filter_map, Bool-cases,
  Option-cases, inl, inr, nat_key,
}
use swarm_mesh.HashMap.{Map, get, insert, remove, retain, modify_or_insert, IsMap}
use swarm_mesh.HashMap.Laws.{IsMap-insert, IsMap-remove, IsMap-retain, get-eq_some}
use swarm_mesh.Mesh.Message.{NodeId}
use swarm_mesh.Node.Tasks.{remove_each}

module _ {K V : Type 0} ⦃key : Key K⦄ (P : K × V → Type 0) where
  abbrev pub IsTable : Map K V → Type 0
  IsTable m = IsMap m × All P m

  All-insert : (k : K) (v : V) (m : Map K V) → P (k, v) → All P m → All P (insert k v m)
  unfolding insert
  All-insert k v [] p a = (p, tt)
  All-insert k v ((j, w) ∷ m) p a = elim (Bool-cases (j == k)) [
    | inl e ↦ rw e (p, a.1)
    | inr e ↦ rw e (a.0, All-insert k v m p a.1)
  ]

  All-remove : (k : K) (m : Map K V) → All P m → All P (remove k m)
  unfolding remove
  All-remove k [] a = tt
  All-remove k ((j, w) ∷ m) a = elim (Bool-cases (j == k)) [
    | inl e ↦ rw e (All-remove k m a.1)
    | inr e ↦ rw e (a.0, All-remove k m a.1)
  ]

  All-retain : (keep : K × V → Bool) (m : Map K V) → All P m → All P (retain keep m)
  All-retain keep [] a = tt
  All-retain keep (e ∷ m) a = elim (Bool-cases (keep e)) [
    | inl q ↦ rw q (a.0, All-retain keep m a.1)
    | inr q ↦ rw q (All-retain keep m a.1)
  ]

  pub IsTable-get : (k : K) (v : V) (m : Map K V) → IsTable m → get k m ≡ some v → P (k, v)
  IsTable-get k v m t g = All-IsIn P m t.1 (get-eq_some k v m g)

  pub IsTable-insert : (k : K) (v : V) (m : Map K V) → P (k, v) → IsTable m → IsTable (insert k v m)
  IsTable-insert k v m p t = (IsMap-insert k v m t.0, All-insert k v m p t.1)

  pub IsTable-remove : (k : K) (m : Map K V) → IsTable m → IsTable (remove k m)
  IsTable-remove k m t = (IsMap-remove k m t.0, All-remove k m t.1)

  pub IsTable-retain : (keep : K × V → Bool) (m : Map K V) → IsTable m → IsTable (retain keep m)
  IsTable-retain keep m t = (IsMap-retain keep m t.0, All-retain keep m t.1)

  pub IsTable-modify_or_insert :
      (k : K) (f : V → V) (v : V) (m : Map K V)
      → P (k, v)
      → ((w : V) → P (k, w) → P (k, f w))
      → IsTable m
      → IsTable (modify_or_insert k f v m)
  unfolding modify_or_insert
  IsTable-modify_or_insert k f v m p q t = elim (Option-cases (get k m)) [
    | inl e ↦ rw (e, modify_or_insert) (IsTable-insert k v m p t)
    | inr (w, e) ↦
        rw (e, modify_or_insert) (IsTable-insert k (f w) m (q w (IsTable-get k w m t e)) t)
  ]

module _ {V : Type 0} (P : NodeId × V → Type 0) where
  pub IsTable-remove_each :
      (ids : List NodeId) (m : Map NodeId V) → IsTable P m → IsTable P (remove_each ids m)
  unfolding remove_each
  IsTable-remove_each [] m t = t
  IsTable-remove_each (id ∷ ids) m t =
      IsTable-remove_each ids (remove id m) (IsTable-remove P id m t)

-- What a selection keeps.
pub All-filter_map :
    {A B : Type 0} (P : A → Type 0) (Q : B → Type 0) (f : A → Option B) (xs : List A)
    → ((a : A) (b : B) → P a → f a ≡ some b → Q b)
    → All P xs
    → All Q (filter_map f xs)
All-filter_map P Q f [] h a = tt
All-filter_map P Q f (x ∷ xs) h a = elim (Option-cases (f x)) [
  | inl e ↦ rw e (All-filter_map P Q f xs h a.1)
  | inr (b, e) ↦ rw e (h x b a.0 e, All-filter_map P Q f xs h a.1)
]
