-- ===== src/Prelude/Texts.antt =====
-- Texts as keys, and the library's `str::split` on a character.
use Prim.Native.Nat.{ℕ}
use mathlib.Core.Path.{◌≡◌, refl, ap, sym, ◌∙◌}
use mathlib.Core.Logic.{◌↔◌, ◌≢◌, inl, inr}
use mathlib.Core.Bool.{Bool, true, false, ◌&&◌}
use mathlib.Core.List.{List, [], ◌∷◌, ◌++◌}
use native.Mathlib.Omega.{arith}
use swarm_mesh.Prelude.Tests.{nat_eqb, nat_eqb_iff, if◌then◌else◌, Key, Bool-cases}
use swarm_mesh.Prelude.Lists.{All}
use swarm_mesh.Prelude.Results.{Text}

unfoldable pub text_eqb : Text → Text → Bool
text_eqb [] [] = true
text_eqb [] (d ∷ t) = false
text_eqb (c ∷ s) [] = false
text_eqb (c ∷ s) (d ∷ t) = let rest = text_eqb s t in nat_eqb c d && rest

pub text_eqb_iff : (s t : Text) → (text_eqb s t ≡ true) ↔ (s ≡ t)
unfolding text_eqb
text_eqb_iff [] [] = (λ e. refl, λ e. refl)
text_eqb_iff [] (d ∷ t) = ground arith
text_eqb_iff (c ∷ s) [] = ground arith
text_eqb_iff (c ∷ s) (d ∷ t) = ground (arith, text_eqb_iff s t)

instance unfoldable pub text_key : Key Text
unfolding text_eqb
text_key = record { agrees = text_eqb; agrees_iff = text_eqb_iff }

-- The character before the first part.
abbrev pub prepend : ℕ → List Text → List Text
prepend c [] = (c ∷ []) ∷ []
prepend c (p ∷ ps) = (c ∷ p) ∷ ps

unfoldable pub split : ℕ → Text → List Text
split sep [] = [] ∷ []
split sep (c ∷ s) = let rest = split sep s in if nat_eqb c sep then [] ∷ rest else prepend c rest

-- The separator does not stand in the text.
abbrev pub Lacks : ℕ → Text → Type 0
Lacks sep = All (λ c. c ≢ sep)

split-Lacks : (sep : ℕ) (s : Text) → Lacks sep s → split sep s ≡ s ∷ []
unfolding split
split-Lacks sep [] h = refl
split-Lacks sep (c ∷ s) (n, h) = ground (arith, split-Lacks sep s h)

split-append : (sep : ℕ) (s t : Text) → Lacks sep s → split sep (s ++ sep ∷ t) ≡ s ∷ split sep t
unfolding split
split-append sep [] t h = ground arith
split-append sep (c ∷ s) t (n, h) = ground (arith, split-append sep s t h)

-- Two texts that lack the separator are the parts of the text that joins them.
pub split-join :
    (sep : ℕ) (s t : Text) → Lacks sep s → Lacks sep t → split sep (s ++ sep ∷ t) ≡ s ∷ t ∷ []
split-join sep s t h k = split-append sep s t h ∙ ap (λ r. s ∷ r) (split-Lacks sep t k)

-- The text of which these are the parts.
abbrev pub join : ℕ → Text → List Text → Text
join sep p [] = p
join sep p (q ∷ ps) = p ++ sep ∷ join sep q ps

abbrev pub join_all : ℕ → List Text → Text
join_all sep [] = []
join_all sep (p ∷ ps) = join sep p ps

join_all-prepend : (sep c : ℕ) (ps : List Text) → join_all sep (prepend c ps) ≡ c ∷ join_all sep ps
join_all-prepend sep c [] = refl
join_all-prepend sep c (p ∷ []) = refl
join_all-prepend sep c (p ∷ q ∷ ps) = refl

split-ne-nil : (sep : ℕ) (s : Text) → split sep s ≢ []
unfolding split
split-ne-nil sep [] = ground arith
split-ne-nil sep (c ∷ s) = ground (arith, split-ne-nil sep s)

join_nil : (sep : ℕ) (ps : List Text) → ps ≢ [] → join_all sep ([] ∷ ps) ≡ sep ∷ join_all sep ps
join_nil sep [] h = absurd (h refl)
join_nil sep (p ∷ ps) h = refl

-- The parts of a text, joined, are the text.
pub join_all-split : (sep : ℕ) (s : Text) → join_all sep (split sep s) ≡ s
unfolding split
join_all-split sep [] = refl
join_all-split sep (c ∷ s) = elim (Bool-cases (nat_eqb c sep)) [
  | inl e ↦ rw e (
      join_nil sep (split sep s) (split-ne-nil sep s)
      ∙ ap (λ r. sep ∷ r) (join_all-split sep s)
      ∙ ap (λ d. d ∷ s) (sym ((nat_eqb_iff c sep).0 e)))
  | inr e ↦ rw e (join_all-prepend sep c (split sep s) ∙ ap (λ r. c ∷ r) (join_all-split sep s))
]

pub texts_eqb : List Text → List Text → Bool
texts_eqb [] [] = true
texts_eqb [] (t ∷ ts) = false
texts_eqb (s ∷ ss) [] = false
texts_eqb (s ∷ ss) (t ∷ ts) = let rest = texts_eqb ss ts in text_eqb s t && rest

pub texts_eqb_iff : (s t : List Text) → (texts_eqb s t ≡ true) ↔ (s ≡ t)
unfolding texts_eqb
texts_eqb_iff [] [] = (λ e. refl, λ e. refl)
texts_eqb_iff [] (t ∷ ts) = ground arith
texts_eqb_iff (s ∷ ss) [] = ground arith
texts_eqb_iff (s ∷ ss) (t ∷ ts) = ground (arith, text_eqb_iff s t, texts_eqb_iff ss ts)

instance unfoldable pub texts_key : Key (List Text)
unfolding texts_eqb
texts_key = record { agrees = texts_eqb; agrees_iff = texts_eqb_iff }
