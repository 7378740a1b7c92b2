-- ===== src/Coordinator/Departments/Replay.antt =====
-- The branches of `replayJournal` for department packages.
use stadtstack.Base.{
  ℕ, String, Bool, true, not, ◌&&◌, ◌||◌, Option, none, some, List, [], ◌∷◌, contains, leb, is_some,
  lookup, insert, ◌==◌, Result, ok, guard, or_fail, ◌>>=◌, ◌>>◌, if◌then◌else◌,
}
use stadtstack.Value.{Value}
use stadtstack.Coordinator.Journal
use stadtstack.Coordinator.Departments.State

-- Where an event stands: its index, its actor, its id and what it corrects.
pub record Place : Type 0 where
  pub index : ℕ
  pub actor_binding : Journal.ActorBinding
  pub event_id : String
  pub correction_of : Option String

pub record PackagePayload : Type 0 where
  pub department_package : State.DepartmentPackage
  pub package_checksum : String
  pub authority_binding : String

pub record DraftPayload : Type 0 where
  pub package_id : String
  pub package_checksum : String
  pub draft : State.DepartmentDraft
  pub draft_artifact_checksum : String
  pub authority_binding : String

pub record ReviewPayload : Type 0 where
  pub review : State.DepartmentReview
  pub policy_version : String
  pub attestation_checksum : String
  pub authority_binding : String

pub record CorrectionPayload : Type 0 where
  pub package_id : String
  pub package_checksum : String
  pub prior_draft_artifact_checksum : String
  pub draft : State.DepartmentDraft
  pub draft_artifact_checksum : String
  pub authority_binding : String

pub record RetractionPayload : Type 0 where
  pub retraction : State.DepartmentRetraction
  pub authority_binding : String

pub data Payload : Type 0 where
  assigned : PackagePayload → Payload
  drafted : DraftPayload → Payload
  reviewed : ReviewPayload → Payload
  corrected : CorrectionPayload → Payload
  retracted : RetractionPayload → Payload

abbrev pub invalid : Journal.CoordinatorError
invalid = Journal.journal_chain_invalid

abbrev pub is_required : Option (List String) → String → Bool
is_required none d = true
is_required (some ds) d = contains d ds

-- The draft, the review and the decision that corrections and retractions need.
abbrev pub accepted_response :
    State.Department → Option (State.RecordedDraft × State.RecordedReview)
accepted_response d = elim d.draft [
  | none ↦ none
  | some draft ↦ elim d.review [
    | none ↦ none
    | some review ↦ if State.is_accepted review.review.decision then some (draft, review) else none
  ]
]

module _ (checksum_of : Value → String) (o : State.CaseOptions) where
  abbrev pub is_actor_of : Journal.ActorClass → String → Journal.ActorBinding → Bool
  is_actor_of c d actor =
      State.is_class actor.actor_class c && State.has_scope c d (lookup actor.actor_id o.actors)

  abbrev pub is_steward : Journal.ActorBinding → Bool
  is_steward actor =
      State.is_class actor.actor_class Journal.case_steward
      && State.has_class Journal.case_steward (lookup actor.actor_id o.actors)

  abbrev pub recorded_draft : State.DepartmentDraft → String → Place → State.RecordedDraft
  recorded_draft draft checksum e = record {
    draft = draft;
    draft_artifact_checksum = checksum;
    actor_binding = e.actor_binding;
    event_id = e.event_id;
  }

  abbrev pub set_department : String → State.Department → State.CaseState → State.CaseState
  set_department id d c = record c { departments = insert id d c.departments }

  abbrev pub recorded_review : ReviewPayload → Place → State.RecordedReview
  recorded_review p e = record {
    review = p.review;
    policy_version = p.policy_version;
    actor_binding = e.actor_binding;
    attestation_checksum = p.attestation_checksum;
    event_id = e.event_id;
  }

  -- Tests that fail with `journal_chain_invalid`: before a checksum is computed, and with it.
  unfoldable pub checked :
      Bool
      → Value
      → (String → Bool)
      → State.CaseState
      → Result Journal.CoordinatorError State.CaseState
  checked fits v matches next = guard fits invalid >> Journal.sha256 checksum_of v >>= λ checksum.
      guard (matches checksum) invalid >> ok next

  unfoldable pub replay_assigned :
      State.CaseState → Place → PackagePayload → Result Journal.CoordinatorError State.CaseState
  unfolding checked lookup insert
  replay_assigned c e p =
      let given = p.department_package in
      checked
        (leb 2 e.index
          && not (is_some e.correction_of)
          && (not o.require_signed_suggestion_admission || c.signed_suggestion_admission)
          && not (is_some (lookup given.id c.departments))
          && not (State.has_package given.department_id c.departments)
          && is_required o.required_department_ids given.department_id
          && p.authority_binding == "none")
        (State.package_value given)
        (λ checksum.
          p.package_checksum == checksum
          && given.suggestion_id == c.suggestion_id
          && is_steward e.actor_binding)
        (set_department given.id
          (record {
            department_package = given;
            package_checksum = p.package_checksum;
            draft = none;
            review = none;
            correction_state = State.current;
          })
          c)

  unfoldable pub replay_drafted :
      State.CaseState → Place → DraftPayload → Result Journal.CoordinatorError State.CaseState
  unfolding checked lookup insert
  replay_drafted c e p = or_fail (lookup p.package_id c.departments) invalid >>= λ d.
      checked
        (not (is_some d.draft)
          && not (is_some e.correction_of)
          && p.authority_binding == "none"
          && p.package_id == d.department_package.id
          && p.package_checksum == d.package_checksum)
        (State.draft_value p.draft)
        (λ checksum.
          p.draft_artifact_checksum == checksum
          && is_actor_of Journal.department_agent d.department_package.department_id e.actor_binding
          && e.actor_binding.actor_id == d.department_package.assigned_agent_actor_id)
        (set_department p.package_id
          (record d {
            draft = some (recorded_draft p.draft p.draft_artifact_checksum e);
            correction_state = State.current;
          })
          c)

  unfoldable pub replay_reviewed :
      State.CaseState → Place → ReviewPayload → Result Journal.CoordinatorError State.CaseState
  unfolding checked lookup insert
  replay_reviewed c e p = or_fail (lookup p.review.package_id c.departments) invalid >>= λ d.
      or_fail d.draft invalid >>= λ draft.
      checked
        (not (is_some d.review)
          && not (is_some e.correction_of)
          && p.authority_binding == "none"
          && p.policy_version == o.policy_version)
        (State.attestation_value p.review p.policy_version e.actor_binding)
        (λ checksum.
          p.attestation_checksum == checksum
          && p.review.package_id == d.department_package.id
          && p.review.draft_artifact_checksum == draft.draft_artifact_checksum
          && is_actor_of Journal.department_reviewer d.department_package.department_id
              e.actor_binding
          && not (e.actor_binding.actor_id == draft.actor_binding.actor_id)
          && e.actor_binding.actor_id == d.department_package.assigned_reviewer_actor_id)
        (set_department p.review.package_id
          (record d { review = some (recorded_review p e); correction_state = State.current }) c)

  unfoldable pub replay_corrected :
      State.CaseState → Place → CorrectionPayload → Result Journal.CoordinatorError State.CaseState
  unfolding checked lookup insert
  replay_corrected c e p = or_fail (lookup p.package_id c.departments) invalid >>= λ d.
      or_fail (accepted_response d) invalid >>= λ held.
      checked
        (State.is_text held.0.event_id e.correction_of
          && p.authority_binding == "none"
          && p.package_checksum == d.package_checksum
          && p.prior_draft_artifact_checksum == held.0.draft_artifact_checksum)
        (State.draft_value p.draft)
        (λ checksum.
          p.draft_artifact_checksum == checksum
          && is_actor_of Journal.department_agent d.department_package.department_id e.actor_binding
          && e.actor_binding.actor_id == d.department_package.assigned_agent_actor_id)
        (set_department p.package_id
          (record d {
            draft = some (recorded_draft p.draft p.draft_artifact_checksum e);
            review = none;
            correction_state = State.corrected;
          })
          c)

  unfoldable pub replay_retracted :
      State.CaseState → Place → RetractionPayload → Result Journal.CoordinatorError State.CaseState
  unfolding lookup insert
  replay_retracted c e p = or_fail (lookup p.retraction.package_id c.departments) invalid >>= λ d.
      or_fail (accepted_response d) invalid >>= λ held.
      guard
        (State.is_text held.1.event_id e.correction_of
          && p.authority_binding == "none"
          && p.retraction.package_checksum == d.package_checksum
          && p.retraction.target_draft_artifact_checksum == held.0.draft_artifact_checksum
          && p.retraction.target_review_attestation_checksum == held.1.attestation_checksum
          && is_steward e.actor_binding)
        invalid
      >> ok (
          set_department p.retraction.package_id
            (record d { draft = none; review = none; correction_state = State.retracted }) c)

  unfoldable pub replay_payload :
      State.CaseState → Place → Payload → Result Journal.CoordinatorError State.CaseState
  unfolding replay_assigned replay_drafted replay_reviewed replay_corrected replay_retracted
  replay_payload c e (assigned p) = replay_assigned c e p
  replay_payload c e (drafted p) = replay_drafted c e p
  replay_payload c e (reviewed p) = replay_reviewed c e p
  replay_payload c e (corrected p) = replay_corrected c e p
  replay_payload c e (retracted p) = replay_retracted c e p

  -- The events of a journal for department packages, in order.
  unfoldable pub replay_departments :
      State.CaseState → List (Place × Payload) → Result Journal.CoordinatorError State.CaseState
  unfolding replay_payload
  replay_departments c [] = ok c
  replay_departments c ((e, p) ∷ rest) =
      replay_payload c e p >>= λ next. replay_departments next rest
