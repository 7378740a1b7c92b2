-- ===== src/CaseId/Derived.antt =====
-- The identity that is derived from an event is a UUID of version 7.
use stadtstack.Base.{
  ℕ, zero, suc, ◌-◌, ◌/◌, ◌%◌, ◌^◌, ◌≤◌, ◌<◌, Bool, true, ◌&&◌, ◌||◌, some, List, [], ◌∷◌, ◌++◌,
  ◌≡◌, refl, subst, arith, eqb, length, take, All, Option-cases, inl, inr,
}
use stadtstack.Value.{Number}
use stadtstack.CaseId.{
  is_hex, hexes, matches, node_pattern, variant_pattern, version_pattern, middle_pattern, node_text,
  variant_text, version_text, is_uuid_v7, hex_digit, hex_text, timestamp_ms, variant_digit, drop,
  char_at, uuid_text, derive_case_uuid_v7,
}

abbrev pub AllHex : List ℕ → Type 0
AllHex = All (λ c. is_hex c ≡ true)

hex_digit_lem : (n : ℕ) → n < 16 → is_hex (hex_digit n) ≡ true
hex_digit_lem n h = ground arith

hex_text-AllHex : (n t : ℕ) → AllHex (hex_text n t)
unfolding hex_text
hex_text-AllHex zero t = tt
hex_text-AllHex (suc n) t = (hex_digit_lem (t / 16 ^ n % 16) (omega arith), hex_text-AllHex n t)

hex_text-length : (n t : ℕ) → length (hex_text n t) ≡ n
unfolding hex_text
hex_text-length zero t = refl
hex_text-length (suc n) t = ground (arith, hex_text-length n t)

take-AllHex : (n : ℕ) (cs : List ℕ) → AllHex cs → AllHex (take n cs)
take-AllHex zero cs h = tt
take-AllHex (suc n) [] h = tt
take-AllHex (suc n) (c ∷ cs) h = (h.0, take-AllHex n cs h.1)

drop-AllHex : (n : ℕ) (cs : List ℕ) → AllHex cs → AllHex (drop n cs)
drop-AllHex zero cs h = h
drop-AllHex (suc n) [] h = tt
drop-AllHex (suc n) (c ∷ cs) h = drop-AllHex n cs h.1

length-take : (n : ℕ) (cs : List ℕ) → n ≤ length cs → length (take n cs) ≡ n
length-take zero cs h = refl
length-take (suc n) [] h = omega arith
length-take (suc n) (c ∷ cs) h = ground (arith, length-take n cs)

length-drop : (n : ℕ) (cs : List ℕ) → length (drop n cs) ≡ length cs - n
length-drop zero cs = omega arith
length-drop (suc n) [] = omega arith
length-drop (suc n) (c ∷ cs) = ground (arith, length-drop n cs)

matches-hexes :
    (n : ℕ) (rest : List (ℕ → Bool)) (xs ys : List ℕ)
    → AllHex xs
    → length xs ≡ n
    → matches rest ys ≡ true
    → matches (hexes n rest) (xs ++ ys) ≡ true
unfolding matches
matches-hexes zero rest [] ys h l m = m
matches-hexes zero rest (x ∷ xs) ys h l m = absurd (omega (arith, l))
matches-hexes (suc n) rest [] ys h l m = absurd (omega (arith, l))
matches-hexes (suc n) rest (x ∷ xs) ys h l m = ground (arith, h.0, matches-hexes n rest xs ys h.1)

both_true : {a b : Bool} → a ≡ true → b ≡ true → (a && b) ≡ true
both_true h k = ground arith

variant_digit_lem :
    (c : ℕ)
    → (eqb (variant_digit c) b'8'
        || eqb (variant_digit c) b'9'
        || eqb (variant_digit c) b'a'
        || eqb (variant_digit c) b'b')
      ≡ true
variant_digit_lem c = ground arith

variant_text_lem :
    (entropy : List ℕ)
    → AllHex entropy
    → length entropy ≡ 64
    → matches variant_pattern (variant_text entropy) ≡ true
unfolding matches
variant_text_lem entropy e le = both_true (variant_digit_lem (char_at 3 entropy)) (
    matches-hexes 3 node_pattern (take 3 (drop 4 entropy)) (node_text entropy)
      (take-AllHex 3 (drop 4 entropy) (drop-AllHex 4 entropy e))
      (length-take 3 (drop 4 entropy) (omega (arith, length-drop 4 entropy, le)))
      (matches-hexes 12 [] (take 12 (drop 7 entropy)) []
        (take-AllHex 12 (drop 7 entropy) (drop-AllHex 7 entropy e))
        (length-take 12 (drop 7 entropy) (omega (arith, length-drop 7 entropy, le))) refl))

uuid_text_lem :
    (time entropy : List ℕ)
    → AllHex time
    → length time ≡ 12
    → AllHex entropy
    → length entropy ≡ 64
    → is_uuid_v7 (uuid_text time entropy) ≡ true
unfolding is_uuid_v7 matches
uuid_text_lem time entropy t lt e le =
    matches-hexes 8 middle_pattern (take 8 time) (b'-' ∷ (drop 8 time ++ version_text entropy))
      (take-AllHex 8 time t) (length-take 8 time (omega (arith, lt)))
      (matches-hexes 4 version_pattern (drop 8 time) (version_text entropy) (drop-AllHex 8 time t)
        (omega (arith, length-drop 8 time, lt))
        (matches-hexes 3 variant_pattern (take 3 entropy) (variant_text entropy)
          (take-AllHex 3 entropy e) (length-take 3 entropy (omega (arith, le)))
          (variant_text_lem entropy e le)))

-- The derived identity is a UUID of version 7, where the digest is one of SHA-256: 64 hexadecimal
-- digits.
pub derive_case_uuid_v7_lem :
    (sha256_hex : List ℕ → List ℕ) (id uuid : List ℕ) (created_at : Number)
    → AllHex (sha256_hex id)
    → length (sha256_hex id) ≡ 64
    → derive_case_uuid_v7 sha256_hex id created_at ≡ some uuid
    → is_uuid_v7 uuid ≡ true
unfolding derive_case_uuid_v7
derive_case_uuid_v7_lem sha256_hex id uuid created_at hex size h =
    elim (Option-cases (timestamp_ms created_at)) [
      | inl refused ↦ absurd (ground arith)
      | inr (ms, kept) ↦
          subst (λ u. is_uuid_v7 u ≡ true) (ground arith)
            (uuid_text_lem (hex_text 12 ms) (sha256_hex id) (hex_text-AllHex 12 ms)
              (hex_text-length 12 ms) hex size)
    ]
