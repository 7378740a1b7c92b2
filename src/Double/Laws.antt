-- ===== src/Double/Laws.antt =====
-- Below 2^53 the rounded sum is the sum.
use stadtstack.Base.{
  ℕ, zero, suc, ◌+◌, ◌*◌, ◌/◌, ◌≤◌, ◌<◌, ◌≡◌, arith, List, [], ◌∷◌, ltb, Bool-cases, inl, inr, ap,
  ◌∙◌,
}
use native.Mathlib.Nat.{mul-le-mul_left, mul-le-mul_right}
use native.Mathlib.Decide.{dec_le}
use stadtstack.Double.{integer_limit, round_to, round_from, round_double, add_double, sum_double}

abbrev pub sum : List ℕ → ℕ
sum [] = 0
sum (x ∷ xs) = x + sum xs

round_to-one : (n : ℕ) → round_to 1 n ≡ n
unfolding round_to
round_to-one n = ground arith

-- Half of the limit is in the quotient.
quotient-ge : (limit unit n : ℕ) → 2 ≤ unit → limit * unit ≤ 2 * n → limit ≤ 2 * (n / unit) + 1
quotient-ge limit unit n h k = elim (dec_le limit (2 * (n / unit) + 1)) [
  | yes le ↦ le
  | no gt ↦ absurd (omega (arith, mul-le-mul_right unit (quotient_small gt)))
]
  where
    quotient_small : ¬ (limit ≤ 2 * (n / unit) + 1) → 2 * (n / unit) + 2 ≤ limit
    quotient_small gt = omega arith

round_to-ge :
    (unit n : ℕ) → 2 ≤ unit → integer_limit * unit ≤ 2 * n → integer_limit ≤ round_to unit n
unfolding round_to
round_to-ge unit n h k =
    grind (arith, quotient-ge integer_limit unit n h k, mul-le-mul_left (n / unit) h)

-- With a unit of two or more, what was rounded does not fall below 2^53.
round_from-ge :
    (fuel unit n : ℕ)
    → 2 ≤ unit
    → integer_limit * unit ≤ 2 * n
    → integer_limit ≤ round_from fuel unit n
unfolding round_from
round_from-ge zero unit n h k = round_to-ge unit n h k
round_from-ge (suc fuel) unit n h k = elim (Bool-cases (ltb n (integer_limit * unit))) [
  | inl fits ↦ rw (fits, round_from) (round_to-ge unit n h k)
  | inr large ↦
      rw (large, round_from) (round_from-ge fuel (2 * unit) n (omega arith) (ground arith))
]

round_from-exact : (fuel n : ℕ) → n < integer_limit → round_from (suc fuel) 1 n ≡ n
unfolding round_from
round_from-exact fuel n h = ground (arith, round_to-one n)

round_from_large : (fuel n : ℕ) → integer_limit ≤ n → integer_limit ≤ round_from (suc fuel) 1 n
unfolding round_from
round_from_large fuel n h = ground (arith, round_from-ge fuel 2 n)

pub round_double-exact : (n : ℕ) → n < integer_limit → round_double n ≡ n
unfolding round_double
round_double-exact n h = round_from-exact 971 n h

round_double-large : (n : ℕ) → integer_limit ≤ n → integer_limit ≤ round_double n
unfolding round_double
round_double-large n h = round_from_large 971 n h

-- A result below 2^53 is the number that was rounded.
pub round_double_small : (n : ℕ) → round_double n < integer_limit → round_double n ≡ n
round_double_small n h = elim (Bool-cases (ltb n integer_limit)) [
  | inl small ↦ round_double-exact n (ground arith)
  | inr large ↦ absurd (ground (arith, round_double-large n))
]

sum_double-large : (t : ℕ) (xs : List ℕ) → integer_limit ≤ t → integer_limit ≤ sum_double t xs
unfolding sum_double
sum_double-large t [] h = h
sum_double-large t (x ∷ xs) h =
    sum_double-large (round_double (t + x)) xs (round_double-large (t + x) (omega arith))

-- A rounded sum below 2^53 is the sum.
pub sum_double-exact :
    (t : ℕ) (xs : List ℕ) → sum_double t xs < integer_limit → sum_double t xs ≡ t + sum xs
unfolding sum_double
sum_double-exact t [] h = omega arith
sum_double-exact t (x ∷ xs) h = elim (Bool-cases (ltb (round_double (t + x)) integer_limit)) [
  | inl small ↦ omega (
    arith,
    sum_double-exact (round_double (t + x)) xs h,
    round_double_small (t + x) (ground arith),
  )
  | inr large ↦ absurd (ground (arith, sum_double-large (round_double (t + x)) xs))
]

round_from_second :
    (fuel n : ℕ)
    → integer_limit ≤ n
    → n < 2 * integer_limit
    → round_from (suc (suc fuel)) 1 n ≡ round_to 2 n
unfolding round_from
round_from_second fuel n low high = ground arith

round_double_second :
    (n : ℕ) → integer_limit ≤ n → n < 2 * integer_limit → round_double n ≡ round_to 2 n
unfolding round_double
round_double_second n low high = round_from_second 970 n low high

round_to_four : (m : ℕ) → (round_to 2 (4 * m) ≡ 4 * m) × (round_to 2 (4 * m + 1) ≡ 4 * m)
unfolding round_to
round_to_four m = (ground arith, ground arith)

zero_plus : (n : ℕ) → 0 + n ≡ n
zero_plus n = omega arith

add_double_zero :
    (m : ℕ) → integer_limit ≤ 4 * m → 4 * m < 2 * integer_limit → add_double 0 (4 * m) ≡ 4 * m
unfolding add_double
add_double_zero m low high =
    ap round_double (zero_plus (4 * m)) ∙ round_double_second (4 * m) low high ∙ (round_to_four m).0

-- From 2^53 on, adding one to a multiple of four is lost.
pub sum_double_loses_one :
    (m : ℕ)
    → integer_limit ≤ 4 * m
    → 4 * m + 1 < 2 * integer_limit
    → sum_double 0 (4 * m ∷ 1 ∷ []) ≡ 4 * m
unfolding sum_double add_double
sum_double_loses_one m low high =
    ap (λ n. round_double (n + 1)) (add_double_zero m low (omega arith))
    ∙ round_double_second (4 * m + 1) (omega arith) high
    ∙ (round_to_four m).1
