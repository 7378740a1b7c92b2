-- ===== src/Coordinator/Journal/Types.antt =====
-- The types of the journal: events, their headers and the options that the chain depends on.
use stadtstack.Base.{ℕ, String, Bool, true, false, Option, none, some, List, Result}
use stadtstack.Value.{nat, Value, null, num, str, obj, name, end, field}

pub data CoordinatorError : Type 0 where
  journal_chain_invalid event_checksum_invalid payload_checksum_invalid : CoordinatorError
  canonical_value_invalid synthetic_case_continuation_unavailable : CoordinatorError
  idempotency_conflict case_version_conflict : CoordinatorError
  refused : String → CoordinatorError

pub data ActorClass : Type 0 where
  citizen public administration council : ActorClass
  case_steward department_agent department_reviewer participation_reviewer : ActorClass

abbrev pub class_text : ActorClass → String
class_text citizen = "citizen"
class_text public = "public"
class_text administration = "administration"
class_text council = "council"
class_text case_steward = "case_steward"
class_text department_agent = "department_agent"
class_text department_reviewer = "department_reviewer"
class_text participation_reviewer = "participation_reviewer"

pub record ActorBinding : Type 0 where
  pub actor_id : String
  pub actor_class : ActorClass

pub data EventType : Type 0 where
  case_created discussion_recorded signed_suggestion_admitted : EventType
  signed_topic_suggestion_admitted citizen_adoption_admitted synthetic_adoption_admitted : EventType
  department_package_assigned department_draft_recorded department_review_attested : EventType
  citizen_brief_derived department_draft_corrected department_response_retracted : EventType
  advisory_participation_recorded advisory_participation_retracted : EventType
  reviewed_outcome_recorded : EventType

abbrev pub type_text : EventType → String
type_text case_created = "case_created_v1"
type_text discussion_recorded = "discussion_recorded_v1"
type_text signed_suggestion_admitted = "signed_suggestion_admitted_v1"
type_text signed_topic_suggestion_admitted = "signed_topic_suggestion_admitted_v1"
type_text citizen_adoption_admitted = "citizen_adoption_admitted_v1"
type_text synthetic_adoption_admitted = "synthetic_adoption_admitted_v1"
type_text department_package_assigned = "department_package_assigned_v1"
type_text department_draft_recorded = "department_draft_recorded_v1"
type_text department_review_attested = "department_review_attested_v1"
type_text citizen_brief_derived = "citizen_brief_derived_v1"
type_text department_draft_corrected = "department_draft_corrected_v1"
type_text department_response_retracted = "department_response_retracted_v1"
type_text advisory_participation_recorded = "advisory_participation_recorded_v1"
type_text advisory_participation_retracted = "advisory_participation_retracted_v1"
type_text reviewed_outcome_recorded = "reviewed_outcome_recorded_v1"

-- `SYNTHETIC_REVIEW_EVENTS`
abbrev pub is_synthetic_review : EventType → Bool
is_synthetic_review department_package_assigned = true
is_synthetic_review department_draft_recorded = true
is_synthetic_review department_review_attested = true
is_synthetic_review citizen_brief_derived = true
is_synthetic_review department_draft_corrected = true
is_synthetic_review department_response_retracted = true
is_synthetic_review _ = false

abbrev pub is_signed_admission : EventType → Bool
is_signed_admission signed_suggestion_admitted = true
is_signed_admission signed_topic_suggestion_admitted = true
is_signed_admission _ = false

-- An event; its payload is kept behind the coordinator.
pub record StoredEvent : Type 0 where
  pub schema_version : String
  pub event_id : String
  pub case_id : String
  pub case_version : ℕ
  pub event_type : EventType
  pub prior_event_checksum : String
  pub actor_binding : ActorBinding
  pub payload_checksum : String
  pub correction_of : Option String
  pub event_checksum : String
  pub payload : Value

pub record JournalState : Type 0 where
  pub events : List StoredEvent
  pub head_checksum : String

-- What the journal and the frame of `handle` read of the options; a policy is there or not. The
-- checks that `replayJournal` makes of events by their types are a function of the events.
pub record JournalOptions : Type 0 where
  pub case_id : String
  pub citizen_adoption_policy : Bool
  pub synthetic_adoption_policy : Bool
  pub synthetic_department_review : Bool
  pub policy_version : String
  pub actors : List (String × ActorClass)
  pub replay_types : List StoredEvent → Result CoordinatorError (Unit {0})

abbrev pub text_or_null : Option String → Value
text_or_null none = null
text_or_null (some s) = str s

-- `eventWithoutChecksum`
abbrev pub event_without_checksum : StoredEvent → Value
event_without_checksum e = obj (
    field (name "schemaVersion") (str e.schema_version) (
      field (name "eventId") (str e.event_id) (
        field (name "caseId") (str e.case_id) (
          field (name "caseVersion") (num (nat e.case_version)) (
            field (name "eventType") (str (type_text e.event_type)) (
              field (name "priorEventChecksum") (str e.prior_event_checksum) (
                field (name "actorBinding")
                  (obj (
                    field (name "actorId") (str e.actor_binding.actor_id) (
                      field (name "actorClass") (str (class_text e.actor_binding.actor_class))
                        end)))
                  (field (name "payloadChecksum") (str e.payload_checksum)
                    (field (name "correctionOf") (text_or_null e.correction_of) end)))))))))
