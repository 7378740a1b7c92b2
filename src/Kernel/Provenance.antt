-- ===== src/Kernel/Provenance.antt =====
-- `normalizeDiscussionProvenance` and its helpers: which provenance of a discussion is stored.
use stadtstack.Base.{
  String, Bool, true, false, not, ◌&&◌, ◌||◌, Option, none, some, List, [], ◌∷◌, eqb, if◌then◌else◌,
  ◌==◌, contains, Result, ok, err, ◌>>=◌, ◌>>◌, guard, or_fail, each,
}
use stadtstack.Regex.{Regex, test, seq, alternatives, literal, optional, char_in, one_of}
use stadtstack.Value.{
  Number, nat, other, Key, name, symbol, Value, undefined, null, bool, num, str, obj, Fields, end,
  field, get, own_keys, as_record, full_text, is_text, is_nan,
}
use stadtstack.Kernel.Types.{
  no_authority, CivicKernelConfig, DiscussionVerificationProof, nostr_nip01, synthetic_fixture,
  DiscussionSource, from_nostr, from_fixture, DiscussionScope, DiscussionProvenance,
}
use stadtstack.Kernel.Errors.{
  KernelError, discussion_provenance_private_field_forbidden, discussion_provenance_field_forbidden,
  discussion_provenance_scope_invalid, discussion_provenance_scope_mismatch,
  discussion_provenance_proof_invalid, discussion_provenance_invalid,
  discussion_provenance_schema_invalid, discussion_provenance_id_required,
  discussion_provenance_id_mismatch, discussion_provenance_source_invalid,
  discussion_provenance_source_ref_required, discussion_provenance_authority_invalid,
  discussion_provenance_event_invalid, discussion_provenance_event_id_mismatch,
  discussion_provenance_source_proof_mismatch,
}

abbrev discussion_provenance_keys : List String
discussion_provenance_keys =
    "schemaVersion" ∷ "id" ∷ "artifactId" ∷ "source" ∷ "sourceRef" ∷ "municipalityId" ∷ "caseId"
    ∷ "scope" ∷ "authorityBinding" ∷ "verificationProof" ∷ "event" ∷ []

abbrev discussion_scope_keys : List String
discussion_scope_keys = "municipalityId" ∷ "caseId" ∷ []

abbrev discussion_proof_keys : List String
discussion_proof_keys = "kind" ∷ "verified" ∷ "signature" ∷ "deterministic" ∷ "fixtureId" ∷ []

abbrev discussion_event_keys : List String
discussion_event_keys =
    "id" ∷ "pubkey" ∷ "createdAt" ∷ "kind" ∷ "content" ∷ "tags" ∷ "relayRefs" ∷ []

-- `[_-]?`
abbrev pub joint : Regex
joint = optional (char_in (one_of (b'_' ∷ b'-' ∷ [])))

discussion_private_marker : Regex
discussion_private_marker = alternatives (
    literal "private"
    ∷ literal "secret"
    ∷ literal "nsec"
    ∷ literal "wallet"
    ∷ literal "credential"
    ∷ literal "token"
    ∷ literal "password"
    ∷ seq (literal "raw") (seq joint (literal "citizen"))
    ∷ literal "participant"
    ∷ seq (literal "user") (seq joint (literal "id"))
    ∷ [])

-- One turn of the loop; `Object.keys` has no symbols.
check_discussion_key : List String → String → Key → Result KernelError (Unit {0})
check_discussion_key allowed path (symbol s) = ok tt
check_discussion_key allowed path (name k) = do
  guard (not (test discussion_private_marker k))
      (discussion_provenance_private_field_forbidden path k)
  guard (contains k allowed) (discussion_provenance_field_forbidden path k)

assert_discussion_keys : List String → String → Fields → Result KernelError (Unit {0})
unfolding check_discussion_key discussion_private_marker test literal
assert_discussion_keys allowed path fs = each (check_discussion_key allowed path) (own_keys fs)

require_discussion_string : Value → KernelError → Result KernelError String
require_discussion_string v e = or_fail (full_text v) e

given_scope : CivicKernelConfig → Value → Result KernelError DiscussionScope
unfolding assert_discussion_keys require_discussion_string
given_scope fallback input = do
  fs ← or_fail (as_record input) discussion_provenance_scope_invalid
  assert_discussion_keys discussion_scope_keys "scope" fs
  m ← require_discussion_string (get "municipalityId" fs) discussion_provenance_scope_invalid
  c ← require_discussion_string (get "caseId" fs) discussion_provenance_scope_invalid
  guard (m == fallback.municipality_id && c == fallback.case_id)
      discussion_provenance_scope_mismatch
  ok (record { municipality_id = m; case_id = c })

normalize_discussion_scope : CivicKernelConfig → Value → Result KernelError DiscussionScope
unfolding given_scope
normalize_discussion_scope fallback undefined =
    ok (record { municipality_id = fallback.municipality_id; case_id = fallback.case_id })
normalize_discussion_scope fallback input = given_scope fallback input

abbrev is_true : Value → Bool
is_true (bool true) = true
is_true _ = false

signed_proof : Fields → Result KernelError DiscussionVerificationProof
unfolding require_discussion_string
signed_proof fs = do
  guard (is_true (get "verified" fs)) discussion_provenance_proof_invalid
  s ← require_discussion_string (get "signature" fs) discussion_provenance_proof_invalid
  ok (nostr_nip01 s)

fixture_proof : Fields → Result KernelError DiscussionVerificationProof
unfolding require_discussion_string
fixture_proof fs = do
  guard (is_true (get "deterministic" fs)) discussion_provenance_proof_invalid
  s ← require_discussion_string (get "fixtureId" fs) discussion_provenance_proof_invalid
  ok (synthetic_fixture s)

normalize_discussion_proof : Value → Result KernelError DiscussionVerificationProof
unfolding assert_discussion_keys signed_proof fixture_proof
normalize_discussion_proof input = do
  fs ← or_fail (as_record input) discussion_provenance_proof_invalid
  assert_discussion_keys discussion_proof_keys "verificationProof" fs
  if is_text "nostr_nip01" (get "kind" fs)
      then signed_proof fs
      else if is_text "synthetic_fixture" (get "kind" fs)
      then fixture_proof fs
      else err discussion_provenance_proof_invalid

is_undefined : Value → Bool
is_undefined undefined = true
is_undefined _ = false

-- `a ?? b`
nullish_or : Value → Value → Value
nullish_or undefined b = b
nullish_or null b = b
nullish_or a b = a

number_same : Number → Number → Bool
number_same (nat a) (nat b) = eqb a b
number_same (other a) (other b) = eqb a b && not (is_nan a)
number_same _ _ = false

-- `===`; two objects of an input are never one object.
strict_eq : Value → Value → Bool
unfolding number_same
strict_eq undefined undefined = true
strict_eq null null = true
strict_eq (bool true) (bool true) = true
strict_eq (bool false) (bool false) = true
strict_eq (num a) (num b) = number_same a b
strict_eq (str a) (str b) = a == b
strict_eq _ _ = false

read_source : Value → Option DiscussionSource
read_source v =
    if is_text "nostr" v
    then some from_nostr
    else if is_text "synthetic_fixture" v
    then some from_fixture
    else none

top_level_scope : CivicKernelConfig → Fields → Result KernelError (Option DiscussionScope)
unfolding normalize_discussion_scope is_undefined
top_level_scope config fs =
    let m = get "municipalityId" fs in
    let c = get "caseId" fs in
    if is_undefined m && is_undefined c then ok none else (do
      scope ←
          normalize_discussion_scope config
            (obj (field (name "municipalityId") m (field (name "caseId") c end)))
      ok (some scope))

abbrev scopes_agree : Option DiscussionScope → DiscussionScope → Bool
scopes_agree none nested = true
scopes_agree (some top) nested =
    top.municipality_id == nested.municipality_id && top.case_id == nested.case_id

abbrev proof_fits : DiscussionSource → DiscussionVerificationProof → Bool
proof_fits from_nostr (nostr_nip01 s) = true
proof_fits from_fixture (synthetic_fixture s) = true
proof_fits _ _ = false

read_id : Fields → Result KernelError String
unfolding require_discussion_string nullish_or is_undefined strict_eq
read_id fs = do
  let given = get "id" fs
  let artifact = get "artifactId" fs
  id ← require_discussion_string (nullish_or given artifact) discussion_provenance_id_required
  guard (is_undefined given || is_undefined artifact || strict_eq given artifact)
      discussion_provenance_id_mismatch
  ok id

read_event : String → Fields → Result KernelError (String × String)
unfolding assert_discussion_keys require_discussion_string
read_event id fs = do
  event ← or_fail (as_record (get "event" fs)) discussion_provenance_event_invalid
  assert_discussion_keys discussion_event_keys "event" event
  event_id ← require_discussion_string (get "id" event) discussion_provenance_event_invalid
  pubkey ← require_discussion_string (get "pubkey" event) discussion_provenance_event_invalid
  guard (event_id == id) discussion_provenance_event_id_mismatch
  ok (event_id, pubkey)

unfoldable pub normalize_discussion_provenance :
    CivicKernelConfig → Value → Result KernelError DiscussionProvenance
unfolding assert_discussion_keys read_id read_source require_discussion_string top_level_scope
    normalize_discussion_scope read_event normalize_discussion_proof is_undefined
normalize_discussion_provenance config input = do
  fs ← or_fail (as_record input) discussion_provenance_invalid
  assert_discussion_keys discussion_provenance_keys "provenance" fs
  let schema = get "schemaVersion" fs
  guard (is_undefined schema || is_text "discussion_artifact_v1" schema)
      discussion_provenance_schema_invalid
  id ← read_id fs
  source ← or_fail (read_source (get "source" fs)) discussion_provenance_source_invalid
  source_ref ←
      require_discussion_string (get "sourceRef" fs) discussion_provenance_source_ref_required
  guard (is_text "none" (get "authorityBinding" fs)) discussion_provenance_authority_invalid
  top ← top_level_scope config fs
  nested ← normalize_discussion_scope config (get "scope" fs)
  guard (scopes_agree top nested) discussion_provenance_scope_mismatch
  (event_id, pubkey) ← read_event id fs
  proof ← normalize_discussion_proof (get "verificationProof" fs)
  guard (proof_fits source proof) discussion_provenance_source_proof_mismatch
  ok (record {
    id = id;
    source = source;
    source_ref = source_ref;
    scope = nested;
    authority_binding = no_authority;
    verification_proof = proof;
    event_id = event_id;
    event_pubkey = pubkey;
  })
