-- ===== src/HashMap.antt =====
-- std::collections::HashMap, as an association list with one entry for each key. The order of the
-- list stands for the order in which the map iterates, which the library leaves open.
pub mod Laws
use swarm_mesh.Prelude.{
  Bool, true, false, List, [], ◌∷◌, Option, none, some, ◌≡◌, Key, ◌==◌, if◌then◌else◌, filter_by,
}

abbrev pub Map : Type 0 → Type 0 → Type 0
Map K V = List (K × V)

abbrev pub retain : {K V : Type 0} → (K × V → Bool) → Map K V → Map K V
retain keep m = filter_by keep m

module _ {K V : Type 0} ⦃e : Key K⦄ where
  unfoldable pub get : K → Map K V → Option V
  get k [] = none
  get k ((j, v) ∷ m) = if j == k then some v else get k m

  unfoldable pub contains_key : K → Map K V → Bool
  contains_key k m = elim (get k m) [ none ↦ false | some _ ↦ true ]

  -- The value of a key that is there is replaced.
  unfoldable pub insert : K → V → Map K V → Map K V
  insert k v [] = (k, v) ∷ []
  insert k v ((j, w) ∷ m) = if j == k then (k, v) ∷ m else (j, w) ∷ insert k v m

  unfoldable pub remove : K → Map K V → Map K V
  remove k [] = []
  remove k ((j, w) ∷ m) = let rest = remove k m in if j == k then rest else (j, w) ∷ rest

  -- `.entry(k).and_modify(f).or_insert(v)`
  unfoldable pub modify_or_insert : K → (V → V) → V → Map K V → Map K V
  modify_or_insert k f v m = elim (get k m) [ none ↦ insert k v m | some w ↦ insert k (f w) m ]

  -- What the type itself guarantees in the program: no key has two entries.
  abbrev pub IsMap : Map K V → Type 0
  IsMap [] = Unit {0}
  IsMap ((k, v) ∷ m) = (get k m ≡ none) × IsMap m
