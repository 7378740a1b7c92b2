-- ===== src/Coordinator/Departments/Commands.antt =====
-- The branches of `handle` for department packages: what a command needs, and the payload of the
-- event that it appends, with the id of the event that it corrects.
use stadtstack.Base.{
  String, Bool, false, not, ◌&&◌, ◌||◌, Option, none, some, List, [], contains, length, ltb,
  is_some, lookup, ◌==◌, Result, ok, guard, or_fail, ◌>>=◌, ◌>>◌,
}
use stadtstack.Value.{Value}
use stadtstack.Coordinator.Journal
use stadtstack.Coordinator.Departments.State
use stadtstack.Coordinator.Departments.Replay

pub data DepartmentCommand : Type 0 where
  assign_department_package : State.DepartmentPackage → DepartmentCommand
  record_department_draft : String → String → State.DepartmentDraft → DepartmentCommand
  attest_department_review : State.DepartmentReview → DepartmentCommand
  correct_department_draft : String → String → String → State.DepartmentDraft → DepartmentCommand
  retract_department_response : State.DepartmentRetraction → DepartmentCommand

-- `existing?.departments`
abbrev pub departments_of : Option State.CaseState → List (String × State.Department)
departments_of none = []
departments_of (some c) = c.departments

-- The number of departments that a case may have, and which.
abbrev pub lacks_room : Option (List String) → List (String × State.Department) → Bool
lacks_room none ds = ltb 0 (length ds)
lacks_room (some required) ds = false

abbrev pub is_not_required : Option (List String) → String → List (String × State.Department) → Bool
is_not_required none d ds = false
is_not_required (some required) d ds =
    not (contains d required) || not (ltb (length ds) (length required))

-- A draft with its review.
abbrev pub response_of : State.Department → Option (State.RecordedDraft × State.RecordedReview)
response_of d = elim d.draft [
  | none ↦ none
  | some draft ↦ elim d.review [ none ↦ none | some review ↦ some (draft, review) ]
]

module _ (checksum_of : Value → String) (o : State.CaseOptions) where
  unfoldable pub assign :
      Option State.CaseState
      → State.ActorRegistration
      → State.DepartmentPackage
      → Result Journal.CoordinatorError (Replay.Payload × Option String)
  unfolding lookup
  assign existing registered given =
      guard (State.is_class registered.actor_class Journal.case_steward)
        (Journal.refused "actor_role_forbidden")
      >> or_fail existing (Journal.refused "case_not_found")
      >>= λ c.
          guard (not o.require_signed_suggestion_admission || c.signed_suggestion_admission)
            (Journal.refused "signed_suggestion_admission_required")
          >> guard (given.suggestion_id == c.suggestion_id)
              (Journal.refused "department_suggestion_mismatch")
          >> guard
              (not (is_some (lookup given.id c.departments))
                && not (State.has_package given.department_id c.departments))
              (Journal.refused "department_package_already_recorded")
          >> guard (not (lacks_room o.required_department_ids c.departments))
              (Journal.refused "department_package_already_recorded")
          >> guard
              (not (is_not_required o.required_department_ids given.department_id c.departments))
              (Journal.refused "department_department_not_required")
          >> guard
              (State.has_scope Journal.department_agent given.department_id
                  (lookup given.assigned_agent_actor_id o.actors)
                && State.has_scope Journal.department_reviewer given.department_id
                    (lookup given.assigned_reviewer_actor_id o.actors))
              (Journal.refused "department_actor_scope_mismatch")
          >> Journal.sha256 checksum_of (State.package_value given)
          >>= λ checksum. ok (
            Replay.assigned (record {
              department_package = given;
              package_checksum = checksum;
              authority_binding = "none";
            }),
            none,
          )

  unfoldable pub record_draft :
      Option State.CaseState
      → Journal.ActorBinding
      → State.ActorRegistration
      → String
      → String
      → State.DepartmentDraft
      → Result Journal.CoordinatorError (Replay.Payload × Option String)
  unfolding lookup
  record_draft existing actor registered package_id package_checksum draft =
      guard (State.is_class registered.actor_class Journal.department_agent)
        (Journal.refused "actor_role_forbidden")
      >> or_fail (lookup package_id (departments_of existing))
          (Journal.refused "department_package_not_assigned")
      >>= λ d.
          guard (not (is_some d.draft)) (Journal.refused "department_draft_already_recorded")
          >> guard (package_id == d.department_package.id)
              (Journal.refused "department_package_mismatch")
          >> guard (package_checksum == d.package_checksum)
              (Journal.refused "department_package_checksum_invalid")
          >> guard (actor.actor_id == d.department_package.assigned_agent_actor_id)
              (Journal.refused "department_agent_not_assigned")
          >> guard (State.is_text d.department_package.department_id registered.department_id)
              (Journal.refused "department_actor_scope_mismatch")
          >> Journal.sha256 checksum_of (State.draft_value draft)
          >>= λ checksum. ok (
            Replay.drafted (record {
              package_id = package_id;
              package_checksum = package_checksum;
              draft = draft;
              draft_artifact_checksum = checksum;
              authority_binding = "none";
            }),
            none,
          )

  unfoldable pub attest :
      Option State.CaseState
      → Journal.ActorBinding
      → State.ActorRegistration
      → State.DepartmentReview
      → Result Journal.CoordinatorError (Replay.Payload × Option String)
  unfolding lookup
  attest existing actor registered review =
      guard (State.is_class registered.actor_class Journal.department_reviewer)
        (Journal.refused "actor_role_forbidden")
      >> or_fail (lookup review.package_id (departments_of existing))
          (Journal.refused "department_draft_not_recorded")
      >>= λ d. or_fail d.draft (Journal.refused "department_draft_not_recorded") >>= λ draft.
          guard (not (is_some d.review)) (Journal.refused "department_review_already_recorded")
          >> guard (review.package_id == d.department_package.id)
              (Journal.refused "department_package_mismatch")
          >> guard (review.draft_artifact_checksum == draft.draft_artifact_checksum)
              (Journal.refused "department_draft_checksum_invalid")
          >> guard (State.is_text d.department_package.department_id registered.department_id)
              (Journal.refused "department_actor_scope_mismatch")
          >> guard (actor.actor_id == d.department_package.assigned_reviewer_actor_id)
              (Journal.refused "department_reviewer_not_assigned")
          >> guard (not (actor.actor_id == draft.actor_binding.actor_id))
              (Journal.refused "department_reviewer_not_distinct")
          >> Journal.sha256 checksum_of (State.attestation_value review o.policy_version actor)
          >>= λ checksum. ok (
            Replay.reviewed (record {
              review = review;
              policy_version = o.policy_version;
              attestation_checksum = checksum;
              authority_binding = "none";
            }),
            none,
          )

  unfoldable pub correct :
      Option State.CaseState
      → Journal.ActorBinding
      → State.ActorRegistration
      → String
      → String
      → String
      → State.DepartmentDraft
      → Result Journal.CoordinatorError (Replay.Payload × Option String)
  unfolding lookup
  correct existing actor registered package_id package_checksum prior draft =
      guard (State.is_class registered.actor_class Journal.department_agent)
        (Journal.refused "actor_role_forbidden")
      >> or_fail (lookup package_id (departments_of existing))
          (Journal.refused "department_draft_not_recorded")
      >>= λ d. or_fail (response_of d) (Journal.refused "department_draft_not_recorded") >>= λ held.
          guard (package_checksum == d.package_checksum)
            (Journal.refused "department_package_checksum_invalid")
          >> guard (prior == held.0.draft_artifact_checksum)
              (Journal.refused "department_draft_checksum_invalid")
          >> guard (State.is_accepted held.1.review.decision)
              (Journal.refused "department_review_not_accepted")
          >> guard (actor.actor_id == d.department_package.assigned_agent_actor_id)
              (Journal.refused "department_agent_not_assigned")
          >> guard (State.is_text d.department_package.department_id registered.department_id)
              (Journal.refused "department_actor_scope_mismatch")
          >> Journal.sha256 checksum_of (State.draft_value draft)
          >>= λ checksum. ok (
            Replay.corrected (record {
              package_id = package_id;
              package_checksum = package_checksum;
              prior_draft_artifact_checksum = prior;
              draft = draft;
              draft_artifact_checksum = checksum;
              authority_binding = "none";
            }),
            some held.0.event_id,
          )

  unfoldable pub retract :
      Option State.CaseState
      → State.ActorRegistration
      → State.DepartmentRetraction
      → Result Journal.CoordinatorError (Replay.Payload × Option String)
  unfolding lookup
  retract existing registered retraction =
      guard (State.is_class registered.actor_class Journal.case_steward)
        (Journal.refused "actor_role_forbidden")
      >> or_fail (lookup retraction.package_id (departments_of existing))
          (Journal.refused "department_response_not_found")
      >>= λ d. or_fail (response_of d) (Journal.refused "department_response_not_found") >>= λ held.
          guard (retraction.package_checksum == d.package_checksum)
            (Journal.refused "department_package_checksum_invalid")
          >> guard
              (retraction.target_draft_artifact_checksum == held.0.draft_artifact_checksum
                && retraction.target_review_attestation_checksum == held.1.attestation_checksum)
              (Journal.refused "department_response_checksum_invalid")
          >> guard (State.is_accepted held.1.review.decision)
              (Journal.refused "department_review_not_accepted")
          >> ok (
            Replay.retracted (record { retraction = retraction; authority_binding = "none" }),
            some held.1.event_id,
          )

  abbrev pub department_branch :
      Option State.CaseState
      → Journal.ActorBinding
      → State.ActorRegistration
      → DepartmentCommand
      → Result Journal.CoordinatorError (Replay.Payload × Option String)
  department_branch existing actor registered (assign_department_package given) =
      assign existing registered given
  department_branch existing actor registered (record_department_draft id checksum draft) =
      record_draft existing actor registered id checksum draft
  department_branch existing actor registered (attest_department_review review) =
      attest existing actor registered review
  department_branch existing actor registered (correct_department_draft id checksum prior draft) =
      correct existing actor registered id checksum prior draft
  department_branch existing actor registered (retract_department_response retraction) =
      retract existing registered retraction

  -- A command on departments, whose policy version is that of the options.
  unfoldable pub handle_department :
      Option State.CaseState
      → Journal.ActorBinding
      → DepartmentCommand
      → Result Journal.CoordinatorError (Replay.Payload × Option String)
  unfolding assign record_draft attest correct retract lookup
  handle_department existing actor c =
      or_fail (lookup actor.actor_id o.actors) (Journal.refused "actor_not_registered")
      >>= λ registered.
          guard (State.is_class registered.actor_class actor.actor_class)
            (Journal.refused "actor_binding_mismatch")
          >> department_branch existing actor registered c
