-- ===== src/Double.antt =====
-- Addition of non-negative integers as ECMAScript numbers, that is IEEE 754 binary64, rounded to
-- nearest with ties to even.
pub mod Laws
use stadtstack.Base.{
  ℕ, zero, suc, ◌+◌, ◌*◌, ◌/◌, ◌%◌, ◌^◌, Bool, true, false, ◌&&◌, ◌||◌, ltb, eqb, if◌then◌else◌,
  Option, none, some, List, [], ◌∷◌,
}

-- 2^53: from here on not every integer is a number.
abbrev pub integer_limit : ℕ
integer_limit = 9007199254740992

-- `n` to a multiple of `unit`.
round_to : ℕ → ℕ → ℕ
round_to unit n =
    let q = n / unit in
    let r = n % unit in
    if ltb (2 * r) unit || (eqb (2 * r) unit && eqb (q % 2) 0) then q * unit else (q + 1) * unit

-- The unit in the last place doubles until 53 bits hold the quotient.
round_from : ℕ → ℕ → ℕ → ℕ
round_from zero unit n = round_to unit n
round_from (suc fuel) unit n =
    let coarser = round_from fuel (2 * unit) n in
    if ltb n (integer_limit * unit) then round_to unit n else coarser

-- Every finite number is below 2^1024, and a sum of two below 2^1025: 972 doublings are enough.
unfoldable pub round_double : ℕ → ℕ
unfolding round_from round_to
round_double n = round_from 972 1 n

unfoldable pub add_double : ℕ → ℕ → ℕ
add_double a b = round_double (a + b)

-- `xs.reduce((total, x) => total + x, 0)`
unfoldable pub sum_double : ℕ → List ℕ → ℕ
unfolding add_double
sum_double total [] = total
sum_double total (x ∷ xs) = sum_double (add_double total x) xs
