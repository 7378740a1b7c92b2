-- ===== src/Coordinator/Journal.antt =====
-- `appendEvent`, and what `replayJournal` checks of every event before it looks at the event's type.
mod Types
pub use Types.*
use stadtstack.Base.{
  ℕ, zero, suc, ◌+◌, ◌/◌, ◌%◌, String, Bool, true, false, not, ◌&&◌, ◌||◌, Option, none, some, List,
  [], ◌∷◌, ◌++◌, eqb, leb, ltb, length, ◌==◌, Result, ok, err, guard, ◌>>=◌, ◌>>◌, if◌then◌else◌,
}
use stadtstack.Value.{nat, Value, null, num, str, obj, name, end, field}
use Prim.Native.String
use stadtstack.Regex.{codes}
use stadtstack.Coordinator.Canonical.{canonicalize, canonical_fields}

-- The decimal digits of a number, which has at most as many as the first argument.
decimal_digits : ℕ → ℕ → String
decimal_digits zero n = ""
decimal_digits (suc k) n =
    let rest = decimal_digits k (n / 10) in
    let digit = String.slice "0123456789" (n % 10) (n % 10 + 1) in
    if ltb n 10 then digit else String.◌++◌ rest digit

decimal : ℕ → String
unfolding decimal_digits
decimal n = decimal_digits (suc n) n

-- `urn:stadtstack:case-event:${caseId}:${caseVersion}`
unfoldable pub event_id_of : String → ℕ → String
unfolding decimal
event_id_of case_id n =
    String.◌++◌ "urn:stadtstack:case-event:" (String.◌++◌ case_id (String.◌++◌ ":" (decimal n)))

abbrev is_lower_hex : ℕ → Bool
is_lower_hex c = (leb 48 c && leb c 57) || (leb 97 c && leb c 102)

all_lower_hex : List ℕ → Bool
all_lower_hex [] = true
all_lower_hex (c ∷ cs) = is_lower_hex c && all_lower_hex cs

-- `SHA256`, on the codes: the prefix, and 64 digits.
has_digest : List ℕ → List ℕ → Bool
unfolding all_lower_hex
has_digest [] cs = eqb (length cs) 64 && all_lower_hex cs
has_digest (p ∷ ps) [] = false
has_digest (p ∷ ps) (c ∷ cs) = eqb p c && has_digest ps cs

unfoldable pub is_sha256 : String → Bool
unfolding has_digest
is_sha256 s = has_digest (codes "sha256:") (codes s)

-- What the policies of a case allow at an index.
abbrev pub policy_allows : JournalOptions → EventType → Bool
policy_allows o type =
    not ((o.citizen_adoption_policy || o.synthetic_adoption_policy) && is_signed_admission type)

abbrev pub synthetic_allows : JournalOptions → ℕ → EventType → Bool
synthetic_allows o index type = not (
    o.synthetic_adoption_policy
    && ltb 2 index
    && (not o.synthetic_department_review || not (is_synthetic_review type)))

abbrev pub is_chained : JournalOptions → ℕ → String → StoredEvent → Bool
is_chained o index prior e =
    e.schema_version == "case_event_v1"
    && e.case_id == o.case_id
    && eqb e.case_version (suc index)
    && e.prior_event_checksum == prior
    && is_sha256 e.payload_checksum
    && is_sha256 e.event_checksum
    && e.event_id == event_id_of o.case_id (suc index)

unfoldable pub check_place :
    JournalOptions → ℕ → String → StoredEvent → Result CoordinatorError (Unit {0})
unfolding event_id_of is_sha256
check_place o index prior e =
    guard (is_chained o index prior e) journal_chain_invalid
    >> guard (policy_allows o e.event_type) journal_chain_invalid
    >> guard (synthetic_allows o index e.event_type) synthetic_case_continuation_unavailable

-- The checksum of a canonical value, `sha256:` and the hexadecimal SHA-256 of its JSON text, is a
-- parameter.
module _ (checksum_of : Value → String) where
  abbrev pub checksum_if : Option Value → Result CoordinatorError String
  checksum_if (some c) = ok (checksum_of c)
  checksum_if none = err canonical_value_invalid

  -- `sha256`
  unfoldable pub sha256 : Value → Result CoordinatorError String
  unfolding canonicalize canonical_fields
  sha256 v = checksum_if (canonicalize v)

  -- `genesisChecksum`
  unfoldable pub genesis_checksum : String → String
  genesis_checksum case_id = checksum_of (
      obj (
        field (name "caseId") (str case_id)
          (field (name "schemaVersion") (str "case_genesis_v1") end)))

  abbrev pub head_of : String → JournalState → String
  head_of case_id s = if eqb (length s.events) 0 then genesis_checksum case_id else s.head_checksum

  abbrev pub unsealed :
      JournalOptions
      → JournalState
      → ActorBinding
      → EventType
      → Value
      → Option String
      → String
      → StoredEvent
  unsealed o s actor type payload correction payload_checksum =
      let version = suc (length s.events) in
      record {
        schema_version = "case_event_v1";
        event_id = event_id_of o.case_id version;
        case_id = o.case_id;
        case_version = version;
        event_type = type;
        prior_event_checksum = head_of o.case_id s;
        actor_binding = actor;
        payload_checksum = payload_checksum;
        correction_of = correction;
        event_checksum = "";
        payload = payload;
      }

  -- `appendEvent`: the state with the event, whose own checksum leaves the payload out.
  unfoldable pub append_event :
      JournalOptions
      → JournalState
      → ActorBinding
      → EventType
      → Value
      → Option String
      → Result CoordinatorError JournalState
  unfolding sha256 genesis_checksum event_id_of
  append_event o s actor type payload correction = sha256 payload >>= λ payload_checksum.
      let e = unsealed o s actor type payload correction payload_checksum in
      sha256 (event_without_checksum e) >>= λ checksum. ok (record {
        events = s.events ++ record e { event_checksum = checksum } ∷ [];
        head_checksum = checksum;
      })

  unfoldable pub check_checksums : StoredEvent → Result CoordinatorError String
  unfolding sha256
  check_checksums e = sha256 (event_without_checksum e) >>= λ checksum.
      guard (checksum == e.event_checksum) event_checksum_invalid
      >> sha256 e.payload
      >>= λ payload_checksum.
          guard (payload_checksum == e.payload_checksum) payload_checksum_invalid
          >> ok e.event_checksum

  -- The checks of `replayJournal` on one event, up to its type.
  unfoldable pub check_event :
      JournalOptions → ℕ → String → StoredEvent → Result CoordinatorError String
  unfolding check_place check_checksums
  check_event o index prior e = check_place o index prior e >> check_checksums e

  -- The loop of `replayJournal`: the checksum of the last event.
  unfoldable pub check_chain :
      JournalOptions → ℕ → String → List StoredEvent → Result CoordinatorError String
  unfolding check_event
  check_chain o index prior [] = ok prior
  check_chain o index prior (e ∷ es) =
      check_event o index prior e >>= λ next. check_chain o (suc index) next es

  unfoldable pub check_journal : JournalOptions → JournalState → Result CoordinatorError (Unit {0})
  unfolding check_chain genesis_checksum
  check_journal o s = check_chain o 0 (genesis_checksum o.case_id) s.events >>= λ prior.
      guard (s.head_checksum == prior) journal_chain_invalid
