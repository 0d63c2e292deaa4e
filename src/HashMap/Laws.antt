-- ===== src/HashMap/Laws.antt =====
-- The laws of the map operations, in terms of `get`.
use swarm_mesh.Prelude.{
  Bool, true, [], ◌∷◌, Option, none, some, ◌≡◌, refl, Key, ◌==◌, if◌then◌else◌, arith, IsIn, inl,
  inr, Bool-cases, Option-cases,
}
use swarm_mesh.HashMap.{Map, get, contains_key, insert, remove, retain, modify_or_insert, IsMap}

module _ {K V : Type 0} ⦃e : Key K⦄ where
  pub get-insert :
      (k j : K) (v : V) (m : Map K V) → get j (insert k v m) ≡ (if k == j then some v else get j m)
  unfolding get insert
  get-insert k j v [] = refl
  get-insert k j v ((i, w) ∷ m) =
      ground (arith, e.agrees_iff k j, e.agrees_iff i k, e.agrees_iff i j, get-insert k j v m)

  pub get-insert_self : (k : K) (v : V) (m : Map K V) → get k (insert k v m) ≡ some v
  get-insert_self k v m = rw (get-insert k k v m, (e.agrees_iff k k).1 refl)

  pub contains_key-get : (k : K) (v : V) (m : Map K V) → get k m ≡ some v → contains_key k m ≡ true
  unfolding contains_key
  contains_key-get k v m h = rw (h, contains_key)

  pub get-remove : (k j : K) (m : Map K V) → get j (remove k m) ≡ (if k == j then none else get j m)
  unfolding get remove
  get-remove k j [] = ground arith
  get-remove k j ((i, w) ∷ m) =
      ground (arith, e.agrees_iff k j, e.agrees_iff i k, e.agrees_iff i j, get-remove k j m)

  pub get-modify_or_insert :
      (k j : K) (f : V → V) (v : V) (m : Map K V)
      → get j (modify_or_insert k f v m)
        ≡ (if k == j then some (elim (get k m) [ none ↦ v | some w ↦ f w ]) else get j m)
  unfolding modify_or_insert
  get-modify_or_insert k j f v m = elim (Option-cases (get k m)) [
    | inl q ↦ rw (q, modify_or_insert) (get-insert k j v m)
    | inr (w, q) ↦ rw (q, modify_or_insert) (get-insert k j (f w) m)
  ]

  pub get-eq_some : (k : K) (v : V) (m : Map K V) → get k m ≡ some v → IsIn (k, v) m
  unfolding get
  get-eq_some k v [] h = cc
  get-eq_some k v ((j, w) ∷ m) h = elim (Bool-cases (j == k)) [
    | inl q ↦ inl (ground (arith, e.agrees_iff j k))
    | inr q ↦ inr (get-eq_some k v m (ground arith))
  ]

  get-IsIn-none : (k : K) (v : V) (m : Map K V) → get k m ≡ none → IsIn (k, v) m → ⊥
  unfolding get
  get-IsIn-none k v ((j, w) ∷ m) h (inl q) = ground (arith, e.agrees_iff j k)
  get-IsIn-none k v ((j, w) ∷ m) h (inr i) = get-IsIn-none k v m (ground arith) i
  get-IsIn-none k v [] h i = elim i [ ]

  -- In a map, the entries that iteration meets are those that `get` finds.
  pub IsIn-get : (k : K) (v : V) (m : Map K V) → IsMap m → IsIn (k, v) m → get k m ≡ some v
  unfolding get
  IsIn-get k v ((j, w) ∷ m) d (inl q) = ground (arith, e.agrees_iff j k)
  IsIn-get k v ((j, w) ∷ m) d (inr i) = elim (Bool-cases (j == k)) [
    | inl q ↦ absurd (get-IsIn-none k v m (ground (arith, e.agrees_iff j k)) i)
    | inr q ↦ rw q (IsIn-get k v m d.1 i)
  ]
  IsIn-get k v [] d i = elim i [ ]

  abbrev pub kept : (K × V → Bool) → K → Option V → Option V
  kept keep k none = none
  kept keep k (some v) = if keep (k, v) then some v else none

  pub get-retain :
      (keep : K × V → Bool) (k : K) (m : Map K V)
      → IsMap m
      → get k (retain keep m) ≡ kept keep k (get k m)
  unfolding get
  get-retain keep k [] d = refl
  get-retain keep k ((j, v) ∷ m) d =
      ground (arith, e.agrees_iff j k, get-retain keep k m d.1, get-retain keep j m d.1)

  pub IsMap-insert : (k : K) (v : V) (m : Map K V) → IsMap m → IsMap (insert k v m)
  unfolding get insert
  IsMap-insert k v [] d = (refl, tt)
  IsMap-insert k v ((j, w) ∷ m) d =
      ground (arith, e.agrees_iff j k, e.agrees_iff k j, IsMap-insert k v m d.1, get-insert k j v m)

  pub IsMap-remove : (k : K) (m : Map K V) → IsMap m → IsMap (remove k m)
  unfolding get remove
  IsMap-remove k [] d = tt
  IsMap-remove k ((j, w) ∷ m) d = ground (arith, IsMap-remove k m d.1, get-remove k j m)

  pub IsMap-retain : (keep : K × V → Bool) (m : Map K V) → IsMap m → IsMap (retain keep m)
  IsMap-retain keep [] d = tt
  IsMap-retain keep ((j, w) ∷ m) d =
      ground (arith, IsMap-retain keep m d.1, get-retain keep j m d.1)

  pub IsMap-modify_or_insert :
      (k : K) (f : V → V) (v : V) (m : Map K V) → IsMap m → IsMap (modify_or_insert k f v m)
  unfolding modify_or_insert
  IsMap-modify_or_insert k f v m d = elim (Option-cases (get k m)) [
    | inl q ↦ rw (q, modify_or_insert) (IsMap-insert k v m d)
    | inr (w, q) ↦ rw (q, modify_or_insert) (IsMap-insert k (f w) m d)
  ]
