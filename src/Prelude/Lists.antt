-- ===== src/Prelude/Lists.antt =====
-- Lists measured by native numbers, membership and "for all" by recursion, filtering by a test.
use Prim.Native.Nat.{ℕ, zero, suc, ◌+◌}
use mathlib.Core.Path.{◌≡◌, refl, ap, sym, subst, ◌∙◌}
use mathlib.Core.Logic.{◌⊎◌, inl, inr, ◌↔◌}
use mathlib.Core.Option.{Option, none, some}
use mathlib.Core.Bool.{Bool, true}
use mathlib.Core.List.{List, [], ◌∷◌, ◌++◌}
use native.Mathlib.Omega.{arith}
use swarm_mesh.Prelude.Tests.{if◌then◌else◌}

abbrev pub cons? {ℓ} : {A : Type ℓ} → Option A → List A → List A
cons? none xs = xs
cons? (some x) xs = x ∷ xs

module _ {ℓ} {A : Type ℓ} where
  abbrev pub length : List A → ℕ
  length [] = 0
  length (x ∷ xs) = suc (length xs)

  abbrev pub take : ℕ → List A → List A
  take zero xs = []
  take (suc n) [] = []
  take (suc n) (x ∷ xs) = x ∷ take n xs

  pub length-append : (xs ys : List A) → length (xs ++ ys) ≡ length xs + length ys
  length-append [] ys = omega arith
  length-append (x ∷ xs) ys = omega (arith, length-append xs ys)

  abbrev pub All {κ} : (A → Type κ) → List A → Type κ
  All P [] = Unit
  All P (x ∷ xs) = P x × All P xs

  abbrev pub filter_by : (A → Bool) → List A → List A
  filter_by p [] = []
  filter_by p (x ∷ xs) = let rest = filter_by p xs in if p x then x ∷ rest else rest

  abbrev pub filter_map {κ} : {B : Type κ} → (A → Option B) → List A → List B
  filter_map f [] = []
  filter_map f (x ∷ xs) = cons? (f x) (filter_map f xs)

module _ {A : Type 0} where
  abbrev pub IsIn : A → List A → Type 0
  IsIn a [] = ⊥
  IsIn a (x ∷ xs) = (a ≡ x) ⊎ IsIn a xs

  pub All-of_IsIn {κ} : {P : A → Type κ} (xs : List A) → ((a : A) → IsIn a xs → P a) → All P xs
  All-of_IsIn [] h = tt
  All-of_IsIn (x ∷ xs) h = (h x (inl refl), All-of_IsIn xs (λ a i. h a (inr i)))

  pub All-IsIn {κ} : (P : A → Type κ) (xs : List A) {a : A} → All P xs → IsIn a xs → P a
  All-IsIn P (x ∷ xs) h (inl e) = subst P (sym e) h.0
  All-IsIn P (x ∷ xs) h (inr i) = All-IsIn P xs h.1 i
  All-IsIn P [] h i = elim i [ ]

  pub IsIn-filter_by :
      (p : A → Bool) (xs : List A) (a : A) → IsIn a (filter_by p xs) ↔ (IsIn a xs × (p a ≡ true))
  IsIn-filter_by p [] a = (λ i. elim i [ ], λ i. elim i.0 [ ])
  IsIn-filter_by p (x ∷ xs) a = ground (arith, IsIn-filter_by p xs a)

module _ {A : Type 0} {B : Type 0} (f : A → Option B) where
  pub IsIn-filter_map :
      (xs : List A) (b : B) → IsIn b (filter_map f xs) ↔ ((a : A) × IsIn a xs × (f a ≡ some b))
  IsIn-filter_map xs b = (out xs, λ h. into xs h.0 h.1 h.2)
    where
      head :
          (x : A) (xs : List A) (o : Option B)
          → f x ≡ o
          → IsIn b (cons? o (filter_map f xs))
          → (IsIn b (filter_map f xs) → (a : A) × IsIn a xs × (f a ≡ some b))
          → (a : A) × IsIn a (x ∷ xs) × (f a ≡ some b)
      head x xs none e i ih = let r = ih i in (r.0, inr r.1, r.2)
      head x xs (some y) e (inl q) ih = (x, inl refl, e ∙ ap some (sym q))
      head x xs (some y) e (inr i) ih = let r = ih i in (r.0, inr r.1, r.2)

      out : (xs : List A) → IsIn b (filter_map f xs) → (a : A) × IsIn a xs × (f a ≡ some b)
      out [] i = elim i [ ]
      out (x ∷ xs) i = head x xs (f x) refl i (out xs)

      skip : (o : Option B) (ys : List B) → IsIn b ys → IsIn b (cons? o ys)
      skip none ys i = i
      skip (some y) ys i = inr i

      into : (xs : List A) (a : A) → IsIn a xs → f a ≡ some b → IsIn b (filter_map f xs)
      into [] a i e = elim i [ ]
      into (x ∷ xs) a (inl q) e = rw (ap f (sym q) ∙ e) (inl refl)
      into (x ∷ xs) a (inr i) e = skip (f x) (filter_map f xs) (into xs a i e)
