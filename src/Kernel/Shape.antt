-- ===== src/Kernel/Shape.antt =====
-- The shape of a participation result and the screen for raw participation data:
-- `assertParticipationResultShape` and `assertNoRawParticipationValues`. Values are finite trees,
-- so the source's cycle errors do not arise.
use stadtstack.Base.{
  ℕ, ◌+◌, String, Bool, not, ◌||◌, List, [], ◌∷◌, eqb, contains, Result, ok, err, ◌>>=◌, ◌>>◌,
  guard, or_fail, each,
}
use stadtstack.Text.{is_space}
use stadtstack.Regex.{
  Regex, test, seq, alt, star, boundary, char_in, literal, alternatives, plus, times, at_least,
  one_of, between, any_case,
}
use stadtstack.Value.{
  Key, name, symbol, Value, str, arr, obj, Items, nil, cons, Fields, end, field, get, own_keys,
  as_record,
}
use stadtstack.Kernel.Errors.{
  ResultPath, result, child, index, element, symbol_child, KernelError,
  participation_result_shape_invalid, participation_result_field_forbidden,
  raw_participation_data_forbidden, raw_participation_value_forbidden,
}
use stadtstack.Kernel.Provenance.{joint}

raw_participation_field : Regex
raw_participation_field = alternatives (
    literal "ballot"
    ∷ literal "wallet"
    ∷ literal "npub"
    ∷ seq (literal "participant") (seq joint (literal "id"))
    ∷ seq (literal "user") (seq joint (literal "id"))
    ∷ seq (literal "eligibility") (seq joint (literal "proof"))
    ∷ seq (literal "social") (seq joint (literal "graph"))
    ∷ literal "identity"
    ∷ [])

abbrev chars : (ℕ → Bool) → Regex
chars p = char_in (any_case p)

abbrev alphanumeric : ℕ → Bool
alphanumeric c = between b'0' b'9' c || between b'a' b'z' c

-- `\b(npub1)[0-9a-z][0-9a-z-]{7,}\b`
bech32_marker : String → Regex
bech32_marker prefix = seq boundary (
    seq (literal prefix) (
      seq (chars alphanumeric)
        (seq (at_least 7 (chars (λ c. alphanumeric c || eqb c b'-'))) boundary)))

-- `\b0x[a-f0-9]{40}\b`
address_marker : Regex
address_marker = seq boundary (
    seq (literal "0x")
      (seq (times 40 (chars (λ c. between b'a' b'f' c || between b'0' b'9' c))) boundary))

abbrev spaces : Regex
spaces = star (char_in is_space)

-- `"[^"\r\n]*"`, or with another quotation mark
abbrev quoted : ℕ → Regex
quoted q =
    seq (char_in (eqb q))
      (seq (star (char_in (λ c. not (one_of (q ∷ 13 ∷ 10 ∷ []) c)))) (char_in (eqb q)))

-- `\b(?:participant(?:id|[_-]?id)|…|wallet)\s*[:=]\s*(?:"…"|'…'|[^\s,;]+)`
assignment_marker : Regex
assignment_marker = seq boundary (
    seq
      (alternatives (
        seq (literal "participant") (alt (literal "id") (seq joint (literal "id")))
        ∷ seq (literal "user") (alt (literal "id") (seq joint (literal "id")))
        ∷ literal "identity"
        ∷ literal "ballot"
        ∷ literal "wallet"
        ∷ []))
      (seq spaces (
        seq (char_in (one_of (b':' ∷ b'=' ∷ []))) (
          seq spaces (
            alternatives (
              quoted 34
              ∷ quoted 39
              ∷ plus (char_in (λ c. not (is_space c || one_of (b',' ∷ b';' ∷ []) c)))
              ∷ []))))))

-- `RAW_PARTICIPATION_VALUE_MARKERS.some((marker) => marker.test(value))`
unfoldable pub has_raw_marker : String → Bool
unfolding bech32_marker address_marker assignment_marker test literal is_space
has_raw_marker s =
    test (bech32_marker "npub1") s
    || test (bech32_marker "nsec1") s
    || test address_marker s
    || test assignment_marker s

abbrev participation_result_keys : List String
participation_result_keys =
    "schemaVersion" ∷ "id" ∷ "contractId" ∷ "contractVersion" ∷ "methodKind" ∷ "methodVersion"
    ∷ "ruleId" ∷ "ruleVersion" ∷ "authorityBinding" ∷ "question" ∷ "options" ∷ "totalAccepted"
    ∷ "resultSummary" ∷ "unresolvedDissent" ∷ "representationAudit" ∷ "limitations" ∷ "openedAt"
    ∷ "closedAt" ∷ "reviewedAt" ∷ "resultArtifactRef" ∷ "minorityReportRef" ∷ "correctionState"
    ∷ "checksum" ∷ []

abbrev participation_option_keys : List String
participation_option_keys = "optionId" ∷ "label" ∷ "aggregateCount" ∷ []

abbrev representation_audit_keys : List String
representation_audit_keys =
    "targetPopulationDescription" ∷ "recruitmentMethod" ∷ "samplingMethod" ∷ "totalInvited"
    ∷ "totalStarted" ∷ "totalCompleted" ∷ "limitations" ∷ []

check_participation_key : List String → ResultPath → Key → Result KernelError (Unit {0})
check_participation_key allowed path (symbol s) =
    err (participation_result_field_forbidden (symbol_child path))
check_participation_key allowed path (name k) = do
  guard (not (test raw_participation_field k)) (raw_participation_data_forbidden (child path k))
  guard (contains k allowed) (participation_result_field_forbidden (child path k))

-- `assertAllowedParticipationObject`, which narrows its argument to the fields.
allowed_participation_object : List String → ResultPath → Value → Result KernelError Fields
unfolding check_participation_key raw_participation_field test literal
allowed_participation_object allowed path v = do
  fs ← or_fail (as_record v) (participation_result_shape_invalid path)
  each (check_participation_key allowed path) (own_keys fs)
  ok fs

-- `assertStringArray`: the texts of an array of texts.
string_items : ResultPath → Items → Result KernelError (List String)
string_items path nil = ok []
string_items path (cons (str s) vs) = string_items path vs >>= λ ss. ok (s ∷ ss)
string_items path (cons v vs) = err (participation_result_shape_invalid path)

string_array : ResultPath → Value → Result KernelError (List String)
unfolding string_items
string_array path (arr vs) = string_items path vs
string_array path _ = err (participation_result_shape_invalid path)

option_objects : ℕ → Items → Result KernelError (List Fields)
unfolding allowed_participation_object
option_objects i nil = ok []
option_objects i (cons v vs) = do
  fs ← allowed_participation_object participation_option_keys (index (child result "options") i) v
  rest ← option_objects (i + 1) vs
  ok (fs ∷ rest)

abbrev option_array : Value → Result KernelError (List Fields)
option_array v = elim v [
  | arr vs ↦ option_objects 0 vs
  | _ ↦ err (participation_result_shape_invalid (child result "options"))
]

-- What the shape check has established of the parts that later code reads.
pub record ResultShape : Type 0 where
  pub fields : Fields
  pub options : List Fields
  pub unresolved_dissent : List String
  pub limitations : List String
  pub audit : Fields
  pub audit_limitations : List String

unfoldable pub participation_result_shape : Value → Result KernelError ResultShape
unfolding allowed_participation_object option_objects string_array
participation_result_shape input = do
  fs ← allowed_participation_object participation_result_keys result input
  options ← option_array (get "options" fs)
  dissent ← string_array (child result "unresolvedDissent") (get "unresolvedDissent" fs)
  limitations ← string_array (child result "limitations") (get "limitations" fs)
  audit ←
      allowed_participation_object representation_audit_keys (child result "representationAudit")
        (get "representationAudit" fs)
  audit_limitations ←
      string_array (child (child result "representationAudit") "limitations")
        (get "limitations" audit)
  ok (record {
    fields = fs;
    options = options;
    unresolved_dissent = dissent;
    limitations = limitations;
    audit = audit;
    audit_limitations = audit_limitations;
  })

abbrev child_path : ResultPath → Key → ResultPath
child_path path (name k) = child path k
child_path path (symbol s) = symbol_child path

-- Depth first; the own key `length` of an array holds a number, and passes.
unfoldable mutual
  unfolding has_raw_marker

  pub no_raw_values : ResultPath → Value → Result KernelError (Unit {0})
  no_raw_values path (str s) =
      guard (not (has_raw_marker s)) (raw_participation_value_forbidden path)
  no_raw_values path (arr vs) = no_raw_items path 0 vs
  no_raw_values path (obj fs) = no_raw_fields path fs
  no_raw_values path v = ok tt

  pub no_raw_items : ResultPath → ℕ → Items → Result KernelError (Unit {0})
  no_raw_items path i nil = ok tt
  no_raw_items path i (cons v vs) = no_raw_values (element path i) v >> no_raw_items path (i + 1) vs

  pub no_raw_fields : ResultPath → Fields → Result KernelError (Unit {0})
  no_raw_fields path end = ok tt
  no_raw_fields path (field k v fs) = no_raw_values (child_path path k) v >> no_raw_fields path fs
