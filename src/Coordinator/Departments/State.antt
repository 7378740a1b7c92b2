-- ===== src/Coordinator/Departments/State.antt =====
-- The types of department packages, and the values of theirs that are hashed.
use stadtstack.Base.{String, Bool, true, false, ◌&&◌, ◌||◌, Option, none, some, List, [], ◌∷◌, ◌==◌}
use stadtstack.Value.{Value, Items, nil, cons, str, arr, obj, name, end, field}
use stadtstack.Coordinator.Journal

pub record ActorRegistration : Type 0 where
  pub actor_class : Journal.ActorClass
  pub department_id : Option String

pub data Decision : Type 0 where
  accepted rejected : Decision

pub data CorrectionState : Type 0 where
  current corrected retracted : CorrectionState

pub record DepartmentPackage : Type 0 where
  pub id : String
  pub department_id : String
  pub suggestion_id : String
  pub request : String
  pub assigned_agent_actor_id : String
  pub assigned_reviewer_actor_id : String

pub record DepartmentDraft : Type 0 where
  pub id : String
  pub public_summary : String
  pub public_citations : List String
  pub private_evidence_refs : List String

pub record DepartmentReview : Type 0 where
  pub package_id : String
  pub draft_artifact_checksum : String
  pub decision : Decision
  pub reviewed_at : String

pub record DepartmentRetraction : Type 0 where
  pub package_id : String
  pub package_checksum : String
  pub target_draft_artifact_checksum : String
  pub target_review_attestation_checksum : String

pub record RecordedDraft : Type 0 where
  pub draft : DepartmentDraft
  pub draft_artifact_checksum : String
  pub actor_binding : Journal.ActorBinding
  pub event_id : String

pub record RecordedReview : Type 0 where
  pub review : DepartmentReview
  pub policy_version : String
  pub actor_binding : Journal.ActorBinding
  pub attestation_checksum : String
  pub event_id : String

-- `ReplayedDepartmentState`
pub record Department : Type 0 where
  pub department_package : DepartmentPackage
  pub package_checksum : String
  pub draft : Option RecordedDraft
  pub review : Option RecordedReview
  pub correction_state : CorrectionState

-- What the branches on departments use of a replayed case.
pub record CaseState : Type 0 where
  pub suggestion_id : String
  pub signed_suggestion_admission : Bool
  pub departments : List (String × Department)

pub record CaseOptions : Type 0 where
  pub policy_version : String
  pub actors : List (String × ActorRegistration)
  pub required_department_ids : Option (List String)
  pub require_signed_suggestion_admission : Bool

abbrev pub decision_text : Decision → String
decision_text accepted = "accepted"
decision_text rejected = "rejected"

abbrev pub is_accepted : Decision → Bool
is_accepted accepted = true
is_accepted rejected = false

-- Of two actor classes, `===`.
abbrev pub is_class : Journal.ActorClass → Journal.ActorClass → Bool
is_class a b = Journal.class_text a == Journal.class_text b

-- Of a text that may be missing, `===`.
abbrev pub is_text : String → Option String → Bool
is_text s none = false
is_text s (some t) = t == s

abbrev pub has_class : Journal.ActorClass → Option ActorRegistration → Bool
has_class c none = false
has_class c (some r) = is_class r.actor_class c

abbrev pub has_scope : Journal.ActorClass → String → Option ActorRegistration → Bool
has_scope c d none = false
has_scope c d (some r) = is_class r.actor_class c && is_text d r.department_id

-- Whether a department has a package.
abbrev pub has_package : String → List (String × Department) → Bool
has_package d [] = false
has_package d ((key, held) ∷ rest) =
    held.department_package.department_id == d || has_package d rest

abbrev pub texts : List String → Items
texts [] = nil
texts (s ∷ ss) = cons (str s) (texts ss)

abbrev pub package_value : DepartmentPackage → Value
package_value p = obj (
    field (name "id") (str p.id) (
      field (name "departmentId") (str p.department_id) (
        field (name "suggestionId") (str p.suggestion_id) (
          field (name "request") (str p.request) (
            field (name "assignedAgentActorId") (str p.assigned_agent_actor_id) (
              field (name "assignedReviewerActorId") (str p.assigned_reviewer_actor_id)
                (field (name "authorityBinding") (str "none") end)))))))

abbrev pub draft_value : DepartmentDraft → Value
draft_value d = obj (
    field (name "schemaVersion") (str "department_draft_v1") (
      field (name "id") (str d.id) (
        field (name "publicSummary") (str d.public_summary) (
          field (name "publicCitations") (arr (texts d.public_citations)) (
            field (name "privateEvidenceRefs") (arr (texts d.private_evidence_refs))
              (field (name "authorityBinding") (str "none") end))))))

abbrev pub review_value : DepartmentReview → Value
review_value r = obj (
    field (name "packageId") (str r.package_id) (
      field (name "draftArtifactChecksum") (str r.draft_artifact_checksum) (
        field (name "decision") (str (decision_text r.decision))
          (field (name "reviewedAt") (str r.reviewed_at) end))))

abbrev pub attestation_value : DepartmentReview → String → Journal.ActorBinding → Value
attestation_value r policy_version actor = obj (
    field (name "review") (review_value r) (
      field (name "policyVersion") (str policy_version) (
        field (name "actorBinding")
          (obj (
            field (name "actorId") (str actor.actor_id)
              (field (name "actorClass") (str (Journal.class_text actor.actor_class)) end)))
          end)))
