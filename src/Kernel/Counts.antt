-- ===== src/Kernel/Counts.antt =====
-- What an accepted participation result guarantees.
use stadtstack.Base.{
  ℕ, ◌+◌, ◌*◌, ◌≤◌, ◌<◌, String, true, Option, none, some, List, [], ◌∷◌, ◌≡◌, refl, arith,
  IsDistinct, has_no_duplicates, has_no_duplicates-IsDistinct, ok, Option-cases, Result-cases, inl,
  inr, traverse,
}
use stadtstack.Double.{integer_limit, sum_double}
use stadtstack.Double.Laws.{sum, sum_double-exact, sum_double_loses_one}
use mathlib.Core.Path.{subst₂}
use stadtstack.Value.{nat, name, Value, num, str, Fields, end, field, get}
use stadtstack.Text.{trim, is_blank}
use stadtstack.Kernel.Types.{ParticipationOptionAggregate, RepresentationAudit, ParticipationResult}
use stadtstack.Kernel.Shape.{ResultShape, participation_result_shape}
use stadtstack.Kernel.Participation.{
  is_checksum, read_option, read_options, read_checksum, read_audit, read_timestamps, option_ids,
  option_counts, invited_at_least, count_of, read_result, normalize_participation_result,
}

-- Where the number of invitations is known, it bounds those who started.
abbrev pub IsInvited : Option ℕ → ℕ → Type 0
IsInvited none started = Unit
IsInvited (some invited) started = started ≤ invited

-- The counts of an audit bound the accepted total.
pub record IsCounted (total : ℕ) (a : RepresentationAudit) : Type 0 where
  pub accepted : total ≤ a.total_completed
  pub completed : a.total_completed ≤ a.total_started
  pub invited : IsInvited a.total_invited a.total_started

-- The options are distinct, and their counts add up in the arithmetic of numbers.
pub record IsTallied (total : ℕ) (os : List ParticipationOptionAggregate) : Type 0 where
  pub distinct : IsDistinct (option_ids os)
  pub tallied : sum_double 0 (option_counts os) ≡ total

abbrev pub InOrder : (String → Option ℕ) → String → String → String → Type 0
InOrder clock a b c =
    (i : ℕ) × (j : ℕ) × (k : ℕ) × (clock a ≡ some i)
    × (clock b ≡ some j)
    × (clock c ≡ some k)
    × (i ≤ j)
    × (j ≤ k)

invited_lem : (i : Option ℕ) (started : ℕ) → invited_at_least i started ≡ true → IsInvited i started
invited_lem none started h = tt
invited_lem (some invited) started h = ground arith

read_audit-IsCounted :
    (total : ℕ) (shape : ResultShape) (a : RepresentationAudit)
    → read_audit total shape ≡ ok a
    → IsCounted total a
unfolding read_audit
read_audit-IsCounted total shape a h = record {
  accepted = ground arith;
  completed = ground arith;
  invited = invited_lem a.total_invited a.total_started (ground arith);
}

read_options-IsTallied :
    (total : ℕ) (given : List Fields) (os : List ParticipationOptionAggregate)
    → read_options total given ≡ ok os
    → IsTallied total os
unfolding read_options
read_options-IsTallied total given os h = elim (Result-cases (traverse read_option given)) [
  | inl (e, fails) ↦ absurd (ground arith)
  | inr (given_options, found) ↦ record {
    distinct = has_no_duplicates-IsDistinct (option_ids os) (ground arith);
    tallied = ground arith;
  }
]

read_timestamps-InOrder :
    (clock : String → Option ℕ) (fs : Fields) (a b c : String)
    → read_timestamps clock fs ≡ ok (a, b, c)
    → InOrder clock a b c
unfolding read_timestamps
read_timestamps-InOrder clock fs a b c h = elim (Option-cases (clock a)) [
  | inl unread ↦ absurd (ground arith)
  | inr (i, e₁) ↦ elim (Option-cases (clock b)) [
    | inl unread ↦ absurd (ground arith)
    | inr (j, e₂) ↦ elim (Option-cases (clock c)) [
      | inl unread ↦ absurd (ground arith)
      | inr (k, e₃) ↦ (i, j, k, e₁, e₂, e₃, ground arith, ground arith)
    ]
  ]
]

read_checksum_lem :
    (fs : Fields) (s : String) → read_checksum fs ≡ ok s → is_checksum (trim s) ≡ true
unfolding read_checksum
read_checksum_lem fs s h = ground arith

-- An accepted result: its counts, its options, its times and its checksum.
pub record IsConsistent (clock : String → Option ℕ) (r : ParticipationResult) : Type 0 where
  pub counts : IsCounted r.total_accepted r.representation_audit
  pub options : IsTallied r.total_accepted r.options
  pub times : InOrder clock r.opened_at r.closed_at r.reviewed_at
  pub checksum : is_checksum (trim r.checksum) ≡ true

read_result-IsConsistent :
    (clock : String → Option ℕ) (shape : ResultShape) (r : ParticipationResult)
    → read_result clock shape ≡ ok r
    → IsConsistent clock r
unfolding read_result
read_result-IsConsistent clock shape r h =
    elim (Option-cases (count_of (get "totalAccepted" shape.fields))) [
      | inl uncounted ↦ absurd (ground arith)
      | inr (total, counted) ↦ elim (Result-cases (read_audit total shape)) [
        | inl (e, fails) ↦ absurd (ground arith)
        | inr (audit, audited) ↦ elim (Result-cases (read_options total shape.options)) [
          | inl (e, fails) ↦ absurd (ground arith)
          | inr (options, tallied) ↦ record {
            counts =
                subst₂ IsCounted (ground arith) (ground arith)
                  (read_audit-IsCounted total shape audit audited);
            options =
                subst₂ IsTallied (ground arith) (ground arith)
                  (read_options-IsTallied total shape.options options tallied);
            times =
                read_timestamps-InOrder clock shape.fields r.opened_at r.closed_at r.reviewed_at
                  (ground arith);
            checksum = read_checksum_lem shape.fields r.checksum (ground arith);
          }
        ]
      ]
    ]

-- An accepted result has a checksum of the required form, parseable times in order, counts that
-- bound one another, distinct options, and option counts that add up to the total in the
-- arithmetic of numbers.
pub normalize_participation_result-IsConsistent :
    (clock : String → Option ℕ) (v : Value) (r : ParticipationResult)
    → normalize_participation_result clock v ≡ ok r
    → IsConsistent clock r
unfolding normalize_participation_result
normalize_participation_result-IsConsistent clock v r h =
    elim (Result-cases (participation_result_shape v)) [
      | inl (e, fails) ↦ absurd (ground arith)
      | inr (shape, shaped) ↦ read_result-IsConsistent clock shape r (ground arith)
    ]

-- Where the total of an accepted result is below 2^53, its option counts add up to it exactly.
pub counts_add_up :
    (clock : String → Option ℕ) (v : Value) (r : ParticipationResult)
    → normalize_participation_result clock v ≡ ok r
    → r.total_accepted < integer_limit
    → sum (option_counts r.options) ≡ r.total_accepted
counts_add_up clock v r h small =
    let tally = (normalize_participation_result-IsConsistent clock v r h).options.tallied in
    omega (arith, tally, sum_double-exact 0 (option_counts r.options))

abbrev pub two_options : ℕ → List Fields
two_options m =
    field (name "optionId") (str "a")
      (field (name "label") (str "A") (field (name "aggregateCount") (num (nat (4 * m))) end))
    ∷ field (name "optionId") (str "b")
        (field (name "label") (str "B") (field (name "aggregateCount") (num (nat 1)) end))
    ∷ []

-- From 2^53 on the check of the counts misses a difference: options with the counts 4 * m and 1
-- are accepted for the total 4 * m.
pub read_options_misses_one :
    (m : ℕ)
    → integer_limit ≤ 4 * m
    → 4 * m + 1 < 2 * integer_limit
    → (os : List ParticipationOptionAggregate) × (read_options (4 * m) (two_options m) ≡ ok os)
      × (option_counts os ≡ 4 * m ∷ 1 ∷ [])
unfolding read_options read_option trim is_blank get has_no_duplicates
read_options_misses_one m low high = (
  record { option_id = "a"; label = "A"; aggregate_count = 4 * m }
      ∷ record { option_id = "b"; label = "B"; aggregate_count = 1 }
      ∷ [],
  ground (arith, sum_double_loses_one m low high),
  refl,
)
