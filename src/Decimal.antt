-- ===== src/Decimal.antt =====
-- The standard library's `to_string` and `parse` of unsigned numbers, as apps/node/src/main.rs,
-- apps/mesh-registry/src/main.rs and crates/node/src/metrics.rs use them, on code points.
use swarm_mesh.Prelude.{
  ℕ, zero, suc, ◌+◌, ◌-◌, ◌*◌, ◌/◌, ◌%◌, ◌^◌, ◌&&◌, [], ◌∷◌, Option, none, some, Text, ltb, leb,
  nat_eqb, if◌then◌else◌,
}

-- Digits before `rest`. A `u32` has at most ten.
unfoldable pub digits : ℕ → ℕ → Text → Text
digits zero n rest = rest
digits (suc k) n rest =
    let more = digits k (n / 10) ((48 + n % 10) ∷ rest) in
    if ltb n 10 then (48 + n) ∷ rest else more

unfoldable pub to_string : ℕ → Text
unfolding digits
to_string n = digits 10 n []

-- The numbers of the type are those below `limit`.
unfoldable pub parse_digits : ℕ → Text → ℕ → Option ℕ
parse_digits limit [] n = some n
parse_digits limit (c ∷ cs) n =
    let rest = parse_digits limit cs (n * 10 + (c - 48)) in
    if leb 48 c && leb c 57 && ltb (n * 10 + (c - 48)) limit then rest else none

unfoldable pub parse_unsigned : ℕ → Text → Option ℕ
unfolding parse_digits
parse_unsigned limit [] = none
parse_unsigned limit (c ∷ cs) = parse_digits limit (c ∷ cs) 0

-- One `+` may stand before the digits.
unfoldable pub parse_number : ℕ → Text → Option ℕ
unfolding parse_unsigned
parse_number limit [] = none
parse_number limit (c ∷ cs) =
    if nat_eqb c 43 then parse_unsigned limit cs else parse_unsigned limit (c ∷ cs)

unfoldable pub parse_u32 : Text → Option ℕ
unfolding parse_number
parse_u32 s = parse_number (2 ^ 32) s

unfoldable pub parse_u16 : Text → Option ℕ
unfolding parse_number
parse_u16 s = parse_number (2 ^ 16) s
