-- ===== src/CaseId/Laws.antt =====
-- Case identities: what is written is read back, and the kinds are kept apart.
use stadtstack.Base.{
  ℕ, ◌+◌, ◌≤◌, Bool, true, false, not, ◌&&◌, ◌||◌, if◌then◌else◌, eqb, is_some, Option-cases, none,
  some, List, [], ◌∷◌, ◌++◌, ◌≡◌, ◌≢◌, refl, ap, ◌∙◌, arith, length, length-append, Bool-cases, inl,
  inr,
}
use stadtstack.CaseId.{
  municipal_case_id_prefix, synthetic_case_id_prefix, is_municipality_id, matches, uuid_v7_pattern,
  is_uuid_v7, canonical_case_id, strip_prefix, split_last, read_identity, parse_stripped,
  parse_case_id, is_legacy_test_case_id, legacy_test_case_id_prefix,
}

matches-length : (ps : List (ℕ → Bool)) (cs : List ℕ) → matches ps cs ≡ true → length cs ≡ length ps
unfolding matches
matches-length [] [] h = refl
matches-length [] (c ∷ cs) h = cc
matches-length (p ∷ ps) [] h = cc
matches-length (p ∷ ps) (c ∷ cs) h = ground (arith, matches-length ps cs)

uuid-length : (cs : List ℕ) → is_uuid_v7 cs ≡ true → length cs ≡ 36
unfolding is_uuid_v7
uuid-length cs h = matches-length uuid_v7_pattern cs h

strip_prefix-append : (ps cs : List ℕ) → strip_prefix ps (ps ++ cs) ≡ some cs
unfolding strip_prefix
strip_prefix-append [] cs = refl
strip_prefix-append (p ∷ ps) cs = ground (arith, strip_prefix-append ps cs)

-- The last part is split off at its length.
split_last-append :
    (n : ℕ) (xs ys : List ℕ) → length ys ≡ n → ys ≢ [] → split_last n (xs ++ ys) ≡ (xs, ys)
unfolding split_last
split_last-append n [] [] h full = absurd (full refl)
split_last-append n [] (y ∷ ys) h full = ground arith
split_last-append n (x ∷ xs) ys h full =
    ground (arith, split_last-append n xs ys h full, length-append xs ys)

read_valid :
    (id municipality_id uuid : List ℕ)
    → (is_municipality_id municipality_id && is_uuid_v7 uuid) ≡ true
    → read_identity id (municipality_id, b':' ∷ uuid)
      ≡ some (record { case_id = id; municipality_id = municipality_id; uuid_v7 = uuid })
unfolding read_identity
read_valid id municipality_id uuid h = ground arith

-- A canonical case id, municipal or synthetic, is parsed to itself, with the municipality and the
-- UUID that it was made of.
pub parse-canonical :
    (prefix municipality_id uuid id : List ℕ)
    → canonical_case_id prefix municipality_id uuid ≡ some id
    → parse_case_id prefix id
      ≡ some (record { case_id = id; municipality_id = municipality_id; uuid_v7 = uuid })
unfolding canonical_case_id parse_case_id
parse-canonical prefix municipality_id uuid id h =
    elim (Bool-cases (is_municipality_id municipality_id && is_uuid_v7 uuid)) [
      | inr refused ↦ absurd (ground arith)
      | inl valid ↦
          let made : id ≡ prefix ++ (municipality_id ++ b':' ∷ uuid) = ground arith in
          let split =
            split_last-append 37 municipality_id (b':' ∷ uuid) (ground (arith, uuid-length uuid))
              (λ e. cc) in
          ap (λ cs. parse_stripped id (strip_prefix prefix cs)) made
          ∙ ap (parse_stripped id) (strip_prefix-append prefix (municipality_id ++ b':' ∷ uuid))
          ∙ ap (read_identity id) split
          ∙ read_valid id municipality_id uuid valid
    ]

-- Whether two prefixes differ at a place that both have.
differ : List ℕ → List ℕ → Bool
differ [] qs = false
differ (p ∷ ps) [] = false
differ (p ∷ ps) (q ∷ qs) = not (eqb p q) || differ ps qs

-- A text that has one of them does not have the other.
strip_prefix_excludes :
    (ps qs cs : List ℕ)
    → differ ps qs ≡ true
    → is_some (strip_prefix ps cs) ≡ true
    → strip_prefix qs cs ≡ none
unfolding strip_prefix differ
strip_prefix_excludes [] qs cs d h = cc
strip_prefix_excludes (p ∷ ps) [] cs d h = cc
strip_prefix_excludes (p ∷ ps) (q ∷ qs) [] d h = refl
strip_prefix_excludes (p ∷ ps) (q ∷ qs) (c ∷ cs) d h =
    ground (arith, strip_prefix_excludes ps qs cs, d, h)

-- What is parsed has the prefix.
parsed_has :
    (prefix cs : List ℕ)
    → is_some (parse_case_id prefix cs) ≡ true
    → is_some (strip_prefix prefix cs) ≡ true
unfolding parse_case_id
parsed_has prefix cs h = elim (Option-cases (strip_prefix prefix cs)) [
  | inl e ↦ absurd (ground arith)
  | inr (rest, e) ↦ ap is_some e
]

parsed_excludes :
    (prefix other cs : List ℕ)
    → differ prefix other ≡ true
    → is_some (strip_prefix prefix cs) ≡ true
    → parse_case_id other cs ≡ none
unfolding parse_case_id
parsed_excludes prefix other cs d h =
    ap (parse_stripped cs) (strip_prefix_excludes prefix other cs d h)

-- How many of the three kinds a text is taken for.
abbrev pub kinds_of : List ℕ → ℕ
kinds_of cs =
    (if is_some (parse_case_id municipal_case_id_prefix cs) then 1 else 0)
    + (if is_some (parse_case_id synthetic_case_id_prefix cs) then 1 else 0)
    + (if is_legacy_test_case_id cs then 1 else 0)

-- No text is taken for ids of two kinds: at most one of these holds, that it is parsed as a
-- municipal id, that it is parsed as a synthetic id, and that it is a legacy test id.
pub kinds_apart : (cs : List ℕ) → kinds_of cs ≤ 1
unfolding is_legacy_test_case_id differ
kinds_apart cs = elim (Bool-cases (is_some (strip_prefix municipal_case_id_prefix cs))) [
  | inl m ↦ ground (
    arith,
    parsed_excludes municipal_case_id_prefix synthetic_case_id_prefix cs refl m,
    strip_prefix_excludes municipal_case_id_prefix legacy_test_case_id_prefix cs refl m,
  )
  | inr m ↦ elim (Bool-cases (is_legacy_test_case_id cs)) [
    | inl l ↦ ground (
      arith,
      l,
      parsed_excludes legacy_test_case_id_prefix synthetic_case_id_prefix cs refl l,
      parsed_excludes legacy_test_case_id_prefix municipal_case_id_prefix cs refl l,
    )
    | inr l ↦ ground (arith, m, l, parsed_has municipal_case_id_prefix cs)
  ]
]
