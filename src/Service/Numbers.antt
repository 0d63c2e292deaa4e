-- ===== src/Service/Numbers.antt =====
-- Numbers read back from their text (apps/node/src/main.rs and crates/node/src/metrics.rs write ids,
-- and apps/mesh-registry/src/main.rs reads them), and their text is digits.
use swarm_mesh.Prelude.{
  ℕ, some-injective, zero, suc, ◌+◌, ◌-◌, ◌*◌, ◌/◌, ◌%◌, ◌^◌, ◌≤◌, ◌<◌, false, [], ◌∷◌, some, Text,
  ltb, nat_eqb, ◌≡◌, refl, sym, ap, subst, ◌∙◌, inl, inr, Bool-cases, Lacks, arith,
}
use native.Mathlib.Numerals.{unary_clauses}
use swarm_mesh.Decimal.{
  digits, to_string, parse_digits, parse_unsigned, parse_number, parse_u32, parse_u16,
}

parse_digits-digit :
    (limit d n : ℕ) (rest : Text)
    → d < 10
    → n * 10 + d < limit
    → parse_digits limit ((48 + d) ∷ rest) n ≡ parse_digits limit rest (n * 10 + d)
unfolding parse_digits
parse_digits-digit limit d n rest h b = let z : 48 + d - 48 ≡ d = omega arith in rw z (ground arith)

pow_suc : (k : ℕ) → 10 ^ suc k ≡ 10 ^ k * 10
pow_suc k = simp unary_clauses

parse_digits-digits :
    (limit k n : ℕ) (rest : Text)
    → n < 10 ^ k
    → n < limit
    → parse_digits limit (digits k n rest) 0 ≡ parse_digits limit rest n
unfolding digits
parse_digits-digits limit zero n rest h b = let z : n ≡ 0 = omega (arith, h) in rw z refl
parse_digits-digits limit (suc k) n rest h b = elim (Bool-cases (ltb n 10)) [
  | inl l ↦
      let small : n < 10 = ground arith in
      let same : 0 * 10 + n ≡ n = omega arith in
      rw l (
        parse_digits-digit limit n 0 rest small (omega (arith, b))
        ∙ ap (parse_digits limit rest) same)
  | inr l ↦
      let z : n / 10 * 10 + n % 10 ≡ n = omega arith in
      let low : n % 10 < 10 = omega arith in
      let high : n / 10 < 10 ^ k = omega (arith, h, pow_suc k) in
      rw l (
        parse_digits-digits limit k (n / 10) ((48 + n % 10) ∷ rest) high (omega (arith, b))
        ∙ parse_digits-digit limit (n % 10) (n / 10) rest low (rw z b)
        ∙ ap (parse_digits limit rest) z)
]

digits-more :
    (k n d : ℕ) (rest : Text)
    → (c : ℕ) × (cs : Text) × (digits k n ((48 + d) ∷ rest) ≡ c ∷ cs) × (48 ≤ c)
unfolding digits
digits-more zero n d rest = (48 + d, rest, refl, omega arith)
digits-more (suc k) n d rest = elim (Bool-cases (ltb n 10)) [
  | inl l ↦ (48 + n, (48 + d) ∷ rest, rw l refl, omega arith)
  | inr l ↦ rw l (digits-more k (n / 10) (n % 10) ((48 + d) ∷ rest))
]

-- The text of a number starts with a digit.
digits-head :
    (k n : ℕ) (rest : Text) → (c : ℕ) × (cs : Text) × (digits (suc k) n rest ≡ c ∷ cs) × (48 ≤ c)
unfolding digits
digits-head k n rest = elim (Bool-cases (ltb n 10)) [
  | inl l ↦ (48 + n, rest, rw l refl, omega arith)
  | inr l ↦ rw l (digits-more k (n / 10) (n % 10) rest)
]

parse_number-digits :
    (limit : ℕ) (cs : Text) (c : ℕ) (ds : Text)
    → cs ≡ c ∷ ds
    → 48 ≤ c
    → parse_number limit cs ≡ parse_digits limit cs 0
unfolding parse_number parse_unsigned
parse_number-digits limit cs c ds e h =
    let not_plus : nat_eqb c 43 ≡ false = ground arith in rw e (rw not_plus refl)

-- A number of a type with at most ten digits.
pub parse_number-to_string :
    (limit n : ℕ) → n < limit → n < 10 ^ 10 → parse_number limit (to_string n) ≡ some n
unfolding to_string parse_digits
parse_number-to_string limit n h b =
    let (c, cs, e, d) = digits-head 9 n [] in
    parse_number-digits limit (to_string n) c cs e d ∙ parse_digits-digits limit 10 n [] b h

-- Every `u32` reads back from its text.
pub parse_u32-to_string : (n : ℕ) → n < 2 ^ 32 → parse_u32 (to_string n) ≡ some n
unfolding parse_u32
parse_u32-to_string n h = parse_number-to_string (2 ^ 32) n h (omega (arith, h))

pub parse_u16-to_string : (n : ℕ) → n < 2 ^ 16 → parse_u16 (to_string n) ≡ some n
unfolding parse_u16
parse_u16-to_string n h = parse_number-to_string (2 ^ 16) n h (omega (arith, h))

-- Different ids have different texts.
pub to_string_injective : (m n : ℕ) → m < 2 ^ 32 → n < 2 ^ 32 → to_string m ≡ to_string n → m ≡ n
to_string_injective m n h k e =
    some-injective m n (sym (parse_u32-to_string m h) ∙ ap parse_u32 e ∙ parse_u32-to_string n k)

digits-Lacks : (sep k n : ℕ) (rest : Text) → 57 < sep → Lacks sep rest → Lacks sep (digits k n rest)
unfolding digits
digits-Lacks sep zero n rest h l = l
digits-Lacks sep (suc k) n rest h l = elim (Bool-cases (ltb n 10)) [
  | inl e ↦ rw e (ground arith, l)
  | inr e ↦
      rw e (digits-Lacks sep k (n / 10) ((48 + n % 10) ∷ rest) h (λ q. omega (arith, h, q), l))
]

-- A separator behind the digits in the code does not stand in the text of a number.
pub to_string-Lacks : (sep n : ℕ) → 57 < sep → Lacks sep (to_string n)
unfolding to_string
to_string-Lacks sep n h = digits-Lacks sep 10 n [] h tt

parse_digits-small :
    (limit : ℕ) (s : Text) (a n : ℕ) → a < limit → parse_digits limit s a ≡ some n → n < limit
unfolding parse_digits
parse_digits-small limit [] a n h e = subst (λ x. x < limit) (some-injective a n e) h
parse_digits-small limit (c ∷ cs) a n h e =
    ground (arith, parse_digits-small limit cs (a * 10 + (c - 48)) n)

parse_unsigned-small :
    (limit : ℕ) (s : Text) (n : ℕ) → 0 < limit → parse_unsigned limit s ≡ some n → n < limit
unfolding parse_unsigned
parse_unsigned-small limit [] n h e = absurd cc
parse_unsigned-small limit (c ∷ cs) n h e = parse_digits-small limit (c ∷ cs) 0 n h e

parse_number-small :
    (limit : ℕ) (s : Text) (n : ℕ) → 0 < limit → parse_number limit s ≡ some n → n < limit
unfolding parse_number
parse_number-small limit [] n h e = absurd cc
parse_number-small limit (c ∷ cs) n h e =
    ground (arith, parse_unsigned-small limit cs n h, parse_unsigned-small limit (c ∷ cs) n h)

pub parse_u32-small : (s : Text) (n : ℕ) → parse_u32 s ≡ some n → n < 2 ^ 32
unfolding parse_u32
parse_u32-small s n e = parse_number-small (2 ^ 32) s n (omega arith) e
