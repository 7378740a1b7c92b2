-- ===== src/Kernel/Participation.antt =====
-- `normalizeParticipationResult`: what the kernel accepts as a reviewed participation result.
-- `Date.parse` is implementation-defined outside the ISO format, and stands as a parameter: the
-- milliseconds since the earliest time value, and `none` for NaN.
use stadtstack.Base.{
  ℕ, String, Bool, true, not, ◌&&◌, ◌||◌, Option, none, some, List, [], ◌∷◌, map, if◌then◌else◌,
  leb, eqb, has_no_duplicates, Result, ok, err, ◌>>=◌, ◌>>◌, guard, or_fail, traverse,
}
use stadtstack.Text.{trim, is_blank}
use stadtstack.Regex
use stadtstack.Regex.{
  Regex, test, seq, alt, star, start, end as text_end, literal, char_in, plus, times, between,
}
use stadtstack.Double.{sum_double}
use stadtstack.Value.{nat, Value, null, num, str, Fields, get, is_text}
use stadtstack.Kernel.Types.{
  no_authority, ParticipationOptionAggregate, RepresentationAudit, ParticipationResult,
}
use stadtstack.Kernel.Errors.{
  result, KernelError, type_error, participation_result_schema_invalid,
  participation_result_authority_invalid, participation_result_reference_required,
  participation_checksum_required, participation_checksum_invalid,
  participation_result_count_invalid, participation_timestamp_required,
  participation_timestamp_invalid, participation_timestamp_order_invalid,
  representation_count_invalid, representation_count_inconsistent,
  participation_result_option_invalid, participation_option_duplicate,
  participation_option_count_inconsistent,
}
use stadtstack.Kernel.Shape.{ResultShape, participation_result_shape, no_raw_values}

abbrev lower_or_digit : ℕ → Bool
lower_or_digit c = between b'a' b'f' c || between b'0' b'9' c

abbrev exactly : ℕ → Regex
exactly c = char_in (eqb c)

abbrev exact_text : List ℕ → Regex
exact_text [] = Regex.empty
exact_text (c ∷ cs) = seq (exactly c) (exact_text cs)

-- `^sha256:(?:[a-f0-9]{64}|synthetic-[A-Za-z0-9_-]+)$`
checksum_pattern : Regex
checksum_pattern = seq start (
    seq (exact_text (Regex.codes "sha256:")) (
      seq
        (alt (times 64 (char_in lower_or_digit)) (
          seq (exact_text (Regex.codes "synthetic-")) (
            plus (
              char_in (λ c.
                between b'A' b'Z' c
                || between b'a' b'z' c
                || between b'0' b'9' c
                || eqb c b'_'
                || eqb c b'-')))))
        text_end))

unfoldable pub is_checksum : String → Bool
unfolding checksum_pattern test
is_checksum s = test checksum_pattern s

-- `!value.trim()` throws a `TypeError` where the value is no text.
require_reference : Value → KernelError → Result KernelError String
require_reference (str s) e = do guard (not (is_blank s)) e; ok s
require_reference _ e = err type_error

-- A text that is not blank, as it was given.
abbrev nonblank : Value → Option String
nonblank (str s) = if is_blank s then none else some s
nonblank _ = none

-- `Number.isInteger(value) && value >= 0`
abbrev pub count_of : Value → Option ℕ
count_of (num (nat n)) = some n
count_of _ = none

-- `null`, or a count
abbrev optional_count : Value → Option (Option ℕ)
optional_count null = some none
optional_count (num (nat n)) = some (some n)
optional_count _ = none

abbrev pub invited_at_least : Option ℕ → ℕ → Bool
invited_at_least none n = true
invited_at_least (some invited) n = leb n invited

unfoldable pub read_option : Fields → Result KernelError ParticipationOptionAggregate
unfolding require_reference
read_option fs = do
  id ← require_reference (get "optionId" fs) participation_result_option_invalid
  label ← require_reference (get "label" fs) participation_result_option_invalid
  n ← or_fail (count_of (get "aggregateCount" fs)) participation_result_option_invalid
  ok (record { option_id = id; label = label; aggregate_count = n })

abbrev pub option_ids : List ParticipationOptionAggregate → List String
option_ids = map (λ o. o.option_id)

abbrev pub option_counts : List ParticipationOptionAggregate → List ℕ
option_counts = map (λ o. o.aggregate_count)

unfoldable pub read_options :
    ℕ → List Fields → Result KernelError (List ParticipationOptionAggregate)
unfolding read_option
read_options total given = do
  options ← traverse read_option given
  guard (has_no_duplicates (option_ids options)) participation_option_duplicate
  guard (eqb (sum_double 0 (option_counts options)) total) participation_option_count_inconsistent
  ok options

unfoldable pub read_checksum : Fields → Result KernelError String
read_checksum fs = do
  checksum ← or_fail (nonblank (get "checksum" fs)) participation_checksum_required
  guard (is_checksum (trim checksum)) participation_checksum_invalid
  ok checksum

-- The three references of a result, in the order of the source's condition.
unfoldable pub read_references : Fields → Result KernelError (String × String × String)
unfolding require_reference
read_references fs = do
  id ← require_reference (get "id" fs) participation_result_reference_required
  contract ← require_reference (get "contractId" fs) participation_result_reference_required
  artifact ← require_reference (get "resultArtifactRef" fs) participation_result_reference_required
  ok (id, contract, artifact)

unfoldable pub read_audit : ℕ → ResultShape → Result KernelError RepresentationAudit
read_audit total shape = do
  let audit = shape.audit
  invited ← or_fail (optional_count (get "totalInvited" audit)) representation_count_invalid
  started ← or_fail (count_of (get "totalStarted" audit)) representation_count_invalid
  completed ← or_fail (count_of (get "totalCompleted" audit)) representation_count_invalid
  guard (invited_at_least invited started && leb completed started && leb total completed)
      representation_count_inconsistent
  ok (record {
    target_population_description = get "targetPopulationDescription" audit;
    recruitment_method = get "recruitmentMethod" audit;
    sampling_method = get "samplingMethod" audit;
    total_invited = invited;
    total_started = started;
    total_completed = completed;
    limitations = shape.audit_limitations;
  })

module _ (date_parse : String → Option ℕ) where
  abbrev pub ordered : Option ℕ → Option ℕ → Option ℕ → Result KernelError (Unit {0})
  ordered (some a) (some b) (some c) =
      guard (leb a b && leb b c) participation_timestamp_order_invalid
  ordered _ _ _ = err participation_timestamp_invalid

  unfoldable pub read_timestamps : Fields → Result KernelError (String × String × String)
  read_timestamps fs = do
    opened ← or_fail (nonblank (get "openedAt" fs)) participation_timestamp_required
    closed ← or_fail (nonblank (get "closedAt" fs)) participation_timestamp_required
    reviewed ← or_fail (nonblank (get "reviewedAt" fs)) participation_timestamp_required
    ordered (date_parse opened) (date_parse closed) (date_parse reviewed)
    ok (opened, closed, reviewed)

  -- The checks that follow the shape and the screen.
  unfoldable pub read_result : ResultShape → Result KernelError ParticipationResult
  unfolding read_references read_checksum read_timestamps read_audit read_options
  read_result shape = do
    let fs = shape.fields
    guard (is_text "participation_result_v1" (get "schemaVersion" fs))
        participation_result_schema_invalid
    guard (is_text "none" (get "authorityBinding" fs)) participation_result_authority_invalid
    (id, contract_id, artifact_ref) ← read_references fs
    checksum ← read_checksum fs
    total ← or_fail (count_of (get "totalAccepted" fs)) participation_result_count_invalid
    (opened, closed, reviewed) ← read_timestamps fs
    audit ← read_audit total shape
    options ← read_options total shape.options
    ok (record {
      schema_version = "participation_result_v1";
      id = id;
      contract_id = contract_id;
      contract_version = get "contractVersion" fs;
      method_kind = get "methodKind" fs;
      method_version = get "methodVersion" fs;
      rule_id = get "ruleId" fs;
      rule_version = get "ruleVersion" fs;
      authority_binding = no_authority;
      question = get "question" fs;
      options = options;
      total_accepted = total;
      result_summary = get "resultSummary" fs;
      unresolved_dissent = shape.unresolved_dissent;
      representation_audit = audit;
      limitations = shape.limitations;
      opened_at = opened;
      closed_at = closed;
      reviewed_at = reviewed;
      result_artifact_ref = artifact_ref;
      minority_report_ref = get "minorityReportRef" fs;
      correction_state = get "correctionState" fs;
      checksum = checksum;
    })

  unfoldable pub normalize_participation_result : Value → Result KernelError ParticipationResult
  normalize_participation_result input = do
    shape ← participation_result_shape input
    no_raw_values result input
    read_result shape
