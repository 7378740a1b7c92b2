-- ===== src/Coordinator/Commit.antt =====
-- The frame of `handle` in memory: the gate of the policies, the replay, the fingerprint, idempotency, the expected
-- version, the append and the receipt. What a command's own branch gives, the payloads of its events
-- or an error, is a function of the journal.
use stadtstack.Base.{
  ℕ, zero, suc, String, Bool, true, false, not, ◌&&◌, ◌||◌, Option, none, some, List, [], ◌∷◌, map,
  eqb, length, is_empty, ◌==◌, lookup, insert, Result, ok, guard, or_fail, ◌>>=◌, ◌>>◌,
  if◌then◌else◌,
}
use stadtstack.Value.{Value, nat, num, str, obj, name, end, field}
use stadtstack.Coordinator.Journal

pub data CommandType : Type 0 where
  intake_discussion admit_signed_suggestion admit_signed_topic_suggestion : CommandType
  admit_citizen_adoption admit_synthetic_adoption : CommandType
  assign_department_package record_department_draft attest_department_review : CommandType
  record_advisory_participation retract_advisory_participation record_reviewed_outcome : CommandType
  derive_citizen_brief correct_department_draft retract_department_response : CommandType

-- The commands that a case with an adoption policy does not take.
abbrev pub needs_adoption : CommandType → Bool
needs_adoption intake_discussion = true
needs_adoption admit_signed_suggestion = true
needs_adoption admit_signed_topic_suggestion = true
needs_adoption _ = false

-- `SYNTHETIC_REVIEW_COMMANDS`
abbrev pub is_synthetic_review_command : CommandType → Bool
is_synthetic_review_command assign_department_package = true
is_synthetic_review_command record_department_draft = true
is_synthetic_review_command attest_department_review = true
is_synthetic_review_command derive_citizen_brief = true
is_synthetic_review_command correct_department_draft = true
is_synthetic_review_command retract_department_response = true
is_synthetic_review_command _ = false

abbrev pub is_synthetic_admission : CommandType → Bool
is_synthetic_admission admit_synthetic_adoption = true
is_synthetic_admission _ = false

abbrev pub synthetic_takes : Journal.JournalOptions → CommandType → Bool
synthetic_takes o c =
    is_synthetic_admission c || (o.synthetic_department_review && is_synthetic_review_command c)

-- What `handle` checks of a command before it looks at the policies: its case, its policy version,
-- and that its actor is registered with its class.
abbrev pub binding_gate :
    Journal.JournalOptions
    → String
    → String
    → Journal.ActorBinding
    → Result Journal.CoordinatorError (Unit {0})
binding_gate o case_id policy_version actor =
    guard (case_id == o.case_id) (Journal.refused "case_id_invalid")
    >> guard (policy_version == o.policy_version) (Journal.refused "policy_version_invalid")
    >> or_fail (lookup actor.actor_id o.actors) (Journal.refused "actor_not_registered")
    >>= λ registered.
        guard (Journal.class_text registered == Journal.class_text actor.actor_class)
          (Journal.refused "actor_binding_mismatch")

abbrev pub policy_gate :
    Journal.JournalOptions → CommandType → Result Journal.CoordinatorError (Unit {0})
policy_gate o c =
    guard (not (o.citizen_adoption_policy && needs_adoption c))
      (Journal.refused "citizen_adoption_required")
    >> guard (not o.synthetic_adoption_policy || synthetic_takes o c)
        Journal.synthetic_case_continuation_unavailable

abbrev pub adoption_admitted : Journal.JournalOptions → Journal.EventType
adoption_admitted o =
    if o.synthetic_adoption_policy
    then Journal.synthetic_adoption_admitted
    else Journal.citizen_adoption_admitted

-- The types of the events that a command appends, in order.
abbrev pub event_types : Journal.JournalOptions → CommandType → List Journal.EventType
event_types o intake_discussion = Journal.case_created ∷ Journal.discussion_recorded ∷ []
event_types o admit_citizen_adoption =
    Journal.case_created ∷ Journal.discussion_recorded ∷ adoption_admitted o ∷ []
event_types o admit_synthetic_adoption =
    Journal.case_created ∷ Journal.discussion_recorded ∷ adoption_admitted o ∷ []
event_types o admit_signed_topic_suggestion =
    Journal.case_created ∷ Journal.discussion_recorded ∷ Journal.signed_topic_suggestion_admitted
    ∷ []
event_types o admit_signed_suggestion = Journal.signed_suggestion_admitted ∷ []
event_types o assign_department_package = Journal.department_package_assigned ∷ []
event_types o record_department_draft = Journal.department_draft_recorded ∷ []
event_types o attest_department_review = Journal.department_review_attested ∷ []
event_types o record_advisory_participation = Journal.advisory_participation_recorded ∷ []
event_types o retract_advisory_participation = Journal.advisory_participation_retracted ∷ []
event_types o record_reviewed_outcome = Journal.reviewed_outcome_recorded ∷ []
event_types o derive_citizen_brief = Journal.citizen_brief_derived ∷ []
event_types o correct_department_draft = Journal.department_draft_corrected ∷ []
event_types o retract_department_response = Journal.department_response_retracted ∷ []

abbrev pub creates_case : CommandType → Bool
creates_case intake_discussion = true
creates_case admit_signed_topic_suggestion = true
creates_case admit_citizen_adoption = true
creates_case admit_synthetic_adoption = true
creates_case _ = false

-- A payload and what its event corrects.
pub record Content : Type 0 where
  pub payload : Value
  pub correction_of : Option String

pub record Receipt : Type 0 where
  pub case_version : ℕ
  pub event_ids : List String
  pub journal_head_checksum : String

pub record Remembered : Type 0 where
  pub fingerprint : String
  pub receipt : Receipt

pub record Coordinator : Type 0 where
  pub journal : Journal.JournalState
  pub idempotency : List (String × Remembered)

-- A command that has passed the checks on its form, with the object that stands for its payload in
-- its fingerprint.
pub record Command : Type 0 where
  pub command_type : CommandType
  pub case_id : String
  pub policy_version : String
  pub actor : Journal.ActorBinding
  pub idempotency_key : String
  pub hashed_payload : Value
  pub expected_case_version : ℕ
  pub contents : Journal.JournalState → Result Journal.CoordinatorError (List Content)

abbrev pub command_text : CommandType → String
command_text intake_discussion = "intake_discussion_v1"
command_text admit_signed_suggestion = "admit_signed_suggestion_v1"
command_text admit_signed_topic_suggestion = "admit_signed_topic_suggestion_v1"
command_text admit_citizen_adoption = "admit_citizen_adoption_v1"
command_text admit_synthetic_adoption = "admit_synthetic_adoption_v1"
command_text assign_department_package = "assign_department_package_v1"
command_text record_department_draft = "record_department_draft_v1"
command_text attest_department_review = "attest_department_review_v1"
command_text record_advisory_participation = "record_advisory_participation_v1"
command_text retract_advisory_participation = "retract_advisory_participation_v1"
command_text record_reviewed_outcome = "record_reviewed_outcome_v1"
command_text derive_citizen_brief = "derive_citizen_brief_v1"
command_text correct_department_draft = "correct_department_draft_v1"
command_text retract_department_response = "retract_department_response_v1"

-- What the fingerprint of a command is a checksum of.
abbrev pub fingerprint_value : Command → Value
fingerprint_value c = obj (
    field (name "schemaVersion") (str "command_envelope_v1") (
      field (name "commandType") (str (command_text c.command_type)) (
        field (name "caseId") (str c.case_id) (
          field (name "actorBinding")
            (obj (
              field (name "actorId") (str c.actor.actor_id)
                (field (name "actorClass") (str (Journal.class_text c.actor.actor_class)) end)))
            (field (name "expectedCaseVersion") (num (nat c.expected_case_version)) (
              field (name "visibility") (str "private_case") (
                field (name "policyVersion") (str c.policy_version)
                  (field (name "payload") c.hashed_payload end))))))))

abbrev pub command_gate :
    Journal.JournalOptions → Command → Result Journal.CoordinatorError (Unit {0})
command_gate o c = binding_gate o c.case_id c.policy_version c.actor >> policy_gate o c.command_type

unfoldable pub drop_events : ℕ → List Journal.StoredEvent → List Journal.StoredEvent
drop_events zero es = es
drop_events (suc n) [] = []
drop_events (suc n) (e ∷ es) = drop_events n es

module _ (checksum_of : Value → String) (o : Journal.JournalOptions) where
  unfoldable pub initial_coordinator : Coordinator
  unfolding Journal.genesis_checksum
  initial_coordinator = record {
    journal = record {
      events = [];
      head_checksum = Journal.genesis_checksum checksum_of o.case_id;
    };
    idempotency = [];
  }

  -- One event for each type, with the content at its place.
  unfoldable pub append_events :
      Journal.ActorBinding
      → List Journal.EventType
      → List Content
      → Journal.JournalState
      → Result Journal.CoordinatorError Journal.JournalState
  unfolding Journal.append_event
  append_events actor [] contents s = ok s
  append_events actor (t ∷ ts) [] s = ok s
  append_events actor (t ∷ ts) (c ∷ cs) s =
      Journal.append_event checksum_of o s actor t c.payload c.correction_of >>= λ next.
      append_events actor ts cs next

  unfoldable pub receipt_of : ℕ → Journal.JournalState → Receipt
  unfolding drop_events
  receipt_of before s = record {
    case_version = length s.events;
    event_ids = map (λ e. e.event_id) (drop_events before s.events);
    journal_head_checksum = s.head_checksum;
  }

  -- A command that was not seen before.
  unfoldable pub admit :
      Coordinator → Command → String → Result Journal.CoordinatorError (Coordinator × Receipt)
  unfolding append_events receipt_of insert
  admit k c fingerprint =
      guard (eqb c.expected_case_version (length k.journal.events)) Journal.case_version_conflict
      >> c.contents k.journal
      >>= λ contents.
          guard (not (creates_case c.command_type) || is_empty k.journal.events)
            (Journal.refused "topic_case_already_created")
          >> append_events c.actor (event_types o c.command_type) contents k.journal
          >>= λ next.
              let receipt = receipt_of (length k.journal.events) next in
              ok (
                record {
                  journal = next;
                  idempotency =
                      insert c.idempotency_key
                        (record { fingerprint = fingerprint; receipt = receipt }) k.idempotency;
                },
                receipt,
              )

  -- A command whose key was seen before gives its receipt again, or is in conflict with it.
  abbrev pub recall :
      Coordinator
      → Command
      → String
      → Option Remembered
      → Result Journal.CoordinatorError (Coordinator × Receipt)
  recall k c fingerprint none = admit k c fingerprint
  recall k c fingerprint (some r) =
      guard (r.fingerprint == fingerprint) Journal.idempotency_conflict >> ok (k, r.receipt)

  -- `handle`
  unfoldable pub handle :
      Coordinator → Command → Result Journal.CoordinatorError (Coordinator × Receipt)
  unfolding admit Journal.check_journal Journal.sha256 lookup
  handle k c =
      command_gate o c
      >> Journal.check_journal checksum_of o k.journal
      >> o.replay_types k.journal.events
      >> Journal.sha256 checksum_of (fingerprint_value c)
      >>= λ fingerprint. recall k c fingerprint (lookup c.idempotency_key k.idempotency)
