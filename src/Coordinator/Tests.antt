-- ===== src/Coordinator/Tests.antt =====
-- A coordinator that takes in a discussion and an assignment, and the theorems there. Its checksum
-- tells event headers from other values.
use stadtstack.Base.{
  String, Bool, true, false, Option, none, some, List, [], ◌∷◌, All, ◌≡◌, refl, sym, ap, ◌∙◌, inl,
  inr, ◌⊎◌, Result, ok, err, ◌==◌, if◌then◌else◌, ltb, not, ◌&&◌,
}
use stadtstack.Value.{Value, nat, null, num, str, obj, name, end, field}
use stadtstack.Coordinator.Canonical.{canonicalize}
use stadtstack.Coordinator.Journal
use stadtstack.Coordinator.Commit
use stadtstack.Coordinator.Evidence.{HashesIn, SameEvents, head-SameEvents}
use stadtstack.Coordinator.Reached.{CoordinatorReach, begun, handled, IsSound, coordinator-IsSound}

abbrev header_checksum : String
header_checksum = "sha256:aaaaaaaaaaaaaaaaaaaaaaaaaaaaaaaaaaaaaaaaaaaaaaaaaaaaaaaaaaaaaaaa"

abbrev other_checksum : String
other_checksum = "sha256:0000000000000000000000000000000000000000000000000000000000000000"

abbrev is_header : Value → Bool
is_header (obj (field (name k) v fs)) = k == "actorBinding"
is_header _ = false

-- A fingerprint of a command that expects a version other than 0.
abbrev expects_later : Value → Bool
expects_later (obj (field k a (field l b (field m c (field n (num (nat version)) fs))))) =
    ltb 0 version
expects_later _ = false

abbrev sample_checksum : Value → String
sample_checksum v = if is_header v && not (expects_later v) then header_checksum else other_checksum

either_shaped :
    (b : Bool) → Journal.is_sha256 (if b then header_checksum else other_checksum) ≡ true
unfolding Journal.is_sha256
either_shaped true = refl
either_shaped false = refl

sample_shaped : (v : Value) → Journal.is_sha256 (sample_checksum v) ≡ true
sample_shaped v = either_shaped (is_header v && not (expects_later v))

abbrev sample_options : Journal.JournalOptions
sample_options = record {
  case_id = "urn:stadtstack:case:roebel:1";
  citizen_adoption_policy = false;
  synthetic_adoption_policy = false;
  synthetic_department_review = false;
  policy_version = "case-intake-v1";
  actors = ("anna", Journal.citizen) ∷ ("steward", Journal.case_steward) ∷ [];
  replay_types = λ es. ok tt;
}

abbrev anna : Journal.ActorBinding
anna = record { actor_id = "anna"; actor_class = Journal.citizen }

abbrev steward : Journal.ActorBinding
steward = record { actor_id = "steward"; actor_class = Journal.case_steward }

abbrev note : String → Commit.Content
note s = record { payload = obj (field (name "note") (str s) end); correction_of = none }

abbrev intake : Commit.Command
intake = record {
  command_type = Commit.intake_discussion;
  case_id = "urn:stadtstack:case:roebel:1";
  policy_version = "case-intake-v1";
  actor = anna;
  idempotency_key = "k1";
  hashed_payload = null;
  expected_case_version = 0;
  contents = λ s. ok (note "case" ∷ note "discussion" ∷ []);
}

abbrev assignment : Commit.Command
assignment = record {
  command_type = Commit.assign_department_package;
  case_id = "urn:stadtstack:case:roebel:1";
  policy_version = "case-intake-v1";
  actor = steward;
  idempotency_key = "k2";
  hashed_payload = null;
  expected_case_version = 2;
  contents = λ s. ok (note "package" ∷ []);
}

abbrev start : Commit.Coordinator
start = Commit.initial_coordinator sample_checksum sample_options

abbrev or_start :
    Result Journal.CoordinatorError (Commit.Coordinator × Commit.Receipt)
    → Commit.Coordinator × Commit.Receipt
or_start (ok next) = next
or_start (err e) = (start, Commit.receipt_of sample_checksum sample_options 0 start.journal)

abbrev taken_in : Commit.Coordinator × Commit.Receipt
taken_in = or_start (Commit.handle sample_checksum sample_options start intake)

abbrev assigned : Commit.Coordinator × Commit.Receipt
assigned = or_start (Commit.handle sample_checksum sample_options taken_in.0 assignment)

intake_is_taken : Commit.handle sample_checksum sample_options start intake ≡ ok taken_in
unfolding Commit.handle Commit.initial_coordinator
intake_is_taken = refl

assignment_is_taken :
    Commit.handle sample_checksum sample_options taken_in.0 assignment ≡ ok assigned
unfolding Commit.handle Commit.initial_coordinator
assignment_is_taken = refl

assigned_version : assigned.1.case_version ≡ 3
unfolding Commit.handle Commit.initial_coordinator
assigned_version = refl

assigned_id : assigned.1.event_ids ≡ "urn:stadtstack:case-event:urn:stadtstack:case:roebel:1:3" ∷ []
unfolding Commit.handle Commit.initial_coordinator
assigned_id = refl

start_reached : CoordinatorReach sample_checksum sample_shaped sample_options start
start_reached = begun

assigned_reached : CoordinatorReach sample_checksum sample_shaped sample_options assigned.0
assigned_reached =
    handled (handled start_reached intake intake_is_taken) assignment assignment_is_taken

coordinator-IsSound_example : IsSound sample_checksum sample_shaped sample_options assigned.0
coordinator-IsSound_example =
    coordinator-IsSound sample_checksum sample_shaped sample_options assigned_reached

-- The intake is sent again after the assignment, and once more for another version.
abbrev later_intake : Commit.Command
later_intake = record intake { expected_case_version = 1 }

retry_conflicts :
    Commit.handle sample_checksum sample_options assigned.0 later_intake
    ≡ err Journal.idempotency_conflict
unfolding Commit.handle Commit.initial_coordinator
retry_conflicts = refl

-- A journal of one event.
abbrev one_event : Journal.JournalState
one_event =
    (or_start (
      Commit.handle sample_checksum sample_options start
        (record assignment { expected_case_version = 0 }))).0.journal

abbrev blank : Journal.StoredEvent
blank = record {
  schema_version = "";
  event_id = "";
  case_id = "";
  case_version = 0;
  event_type = Journal.case_created;
  prior_event_checksum = "";
  actor_binding = anna;
  payload_checksum = "";
  correction_of = none;
  event_checksum = "";
  payload = null;
}

abbrev first_event : List Journal.StoredEvent → Journal.StoredEvent
first_event [] = blank
first_event (e ∷ es) = e

some-injective : {A : Type 0} {x y : A} → some x ≡ some y → x ≡ y
some-injective h = cc

checksums_differ : header_checksum ≡ other_checksum → ⊥
checksums_differ h = let different : true ≡ false = ap (λ s. s == header_checksum) h in cc

abbrev canonical_or_null : Option Value → Value
canonical_or_null (some v) = v
canonical_or_null none = null

abbrev header_value : Value
header_value =
    canonical_or_null (canonicalize (Journal.event_without_checksum (first_event one_event.events)))

-- The header and the payload of its event.
abbrev Sampled : Value → Type 0
Sampled v = (v ≡ header_value) ⊎ (v ≡ obj (field (name "note") (str "package") end))

Sampled-apart :
    (a b : Value) → Sampled a → Sampled b → sample_checksum a ≡ sample_checksum b → a ≡ b
unfolding Commit.handle Commit.initial_coordinator
Sampled-apart a b (inl p) (inl q) e = p ∙ sym q
Sampled-apart a b (inr p) (inr q) e = p ∙ sym q
Sampled-apart a b (inl p) (inr q) e =
    absurd (checksums_differ (sym (ap sample_checksum p) ∙ e ∙ ap sample_checksum q))
Sampled-apart a b (inr p) (inl q) e =
    absurd (checksums_differ (sym (ap sample_checksum q) ∙ sym e ∙ ap sample_checksum p))

one_event-Sampled : All (HashesIn Sampled) one_event.events
unfolding Commit.handle Commit.initial_coordinator
one_event-Sampled = (
  record {
    header_in = λ c h. inl (some-injective (sym h));
    payload_in = λ c h. inr (some-injective (sym h));
  },
  tt,
)

one_event_passes : Journal.check_journal sample_checksum sample_options one_event ≡ ok tt
unfolding Commit.handle Commit.initial_coordinator
one_event_passes = refl

head-SameEvents_example : SameEvents one_event.events one_event.events
head-SameEvents_example =
    head-SameEvents sample_checksum Sampled Sampled-apart sample_options sample_options one_event
      one_event one_event_passes one_event_passes one_event-Sampled one_event-Sampled refl refl
