-- ===== src/Coordinator/Departments/Tests.antt =====
-- A department whose agent drafts and whose reviewer accepts: the commands, and the replay of the
-- events that they append.
use stadtstack.Base.{
  arith, String, false, Option, none, some, List, [], ◌∷◌, ◌≡◌, refl, Result, ok, err,
}
use stadtstack.Value.{Value, null}
use stadtstack.Coordinator.Journal
use stadtstack.Coordinator.Departments.State
use stadtstack.Coordinator.Departments.Replay
use stadtstack.Coordinator.Departments.Commands
use stadtstack.Coordinator.Departments.Holding.{AllSeparated}
use stadtstack.Coordinator.Departments.Accepted.{handle_department-Replays}
use stadtstack.Coordinator.Departments.Separation.{replay_departments-AllSeparated}

abbrev fixed_checksum : Value → String
fixed_checksum v = "sha256:0000000000000000000000000000000000000000000000000000000000000000"

abbrev registration : Journal.ActorClass → Option String → State.ActorRegistration
registration c d = record { actor_class = c; department_id = d }

abbrev sample_options : State.CaseOptions
sample_options = record {
  policy_version = "case-intake-v1";
  actors =
      ("steward", registration Journal.case_steward none)
      ∷ ("agent", registration Journal.department_agent (some "roads"))
      ∷ ("reviewer", registration Journal.department_reviewer (some "roads"))
      ∷ [];
  required_department_ids = none;
  require_signed_suggestion_admission = false;
}

abbrev no_departments : State.CaseState
no_departments = record {
  suggestion_id = "s1";
  signed_suggestion_admission = false;
  departments = [];
}

abbrev roads : State.DepartmentPackage
roads = record {
  id = "p1";
  department_id = "roads";
  suggestion_id = "s1";
  request = "Can the path be lit?";
  assigned_agent_actor_id = "agent";
  assigned_reviewer_actor_id = "reviewer";
}

abbrev answer : State.DepartmentDraft
answer = record {
  id = "d1";
  public_summary = "It can.";
  public_citations = [];
  private_evidence_refs = [];
}

abbrev acceptance : State.DepartmentReview
acceptance = record {
  package_id = "p1";
  draft_artifact_checksum = fixed_checksum null;
  decision = State.accepted;
  reviewed_at = "2026-01-01T00:00:00.000Z";
}

abbrev actor : String → Journal.ActorClass → Journal.ActorBinding
actor id c = record { actor_id = id; actor_class = c }

abbrev Outcome : Type 0
Outcome = Result Journal.CoordinatorError (Replay.Payload × Option String)

abbrev assigned : Replay.PackagePayload
assigned = record {
  department_package = roads;
  package_checksum = fixed_checksum null;
  authority_binding = "none";
}

abbrev drafted : Replay.DraftPayload
drafted = record {
  package_id = "p1";
  package_checksum = fixed_checksum null;
  draft = answer;
  draft_artifact_checksum = fixed_checksum null;
  authority_binding = "none";
}

abbrev reviewed : Replay.ReviewPayload
reviewed = record {
  review = acceptance;
  policy_version = "case-intake-v1";
  attestation_checksum = fixed_checksum null;
  authority_binding = "none";
}

abbrev place : String → Journal.ActorClass → Replay.Place
place id c = record { index = 2; actor_binding = actor id c; event_id = id; correction_of = none }

abbrev three_events : List (Replay.Place × Replay.Payload)
three_events =
    (place "steward" Journal.case_steward, Replay.assigned assigned)
    ∷ (place "agent" Journal.department_agent, Replay.drafted drafted)
    ∷ (place "reviewer" Journal.department_reviewer, Replay.reviewed reviewed)
    ∷ []

assign_appends :
    Commands.handle_department fixed_checksum sample_options
      (some no_departments)
      (actor "steward" Journal.case_steward)
      (Commands.assign_department_package roads)
    ≡ ok (Replay.assigned assigned, none)
unfolding Commands.handle_department Journal.sha256
assign_appends = refl

foreign_draft_fails :
    Commands.handle_department fixed_checksum sample_options
      (some no_departments)
      (actor "agent" Journal.department_agent)
      (Commands.record_department_draft "p2" "" answer)
    ≡ err (Journal.refused "department_package_not_assigned")
unfolding Commands.handle_department
foreign_draft_fails = refl

abbrev or_empty : Result Journal.CoordinatorError State.CaseState → State.CaseState
or_empty (ok c) = c
or_empty (err e) = no_departments

abbrev reviewed_case : State.CaseState
reviewed_case =
    or_empty (Replay.replay_departments fixed_checksum sample_options no_departments three_events)

three_events_replayed :
    Replay.replay_departments fixed_checksum sample_options no_departments three_events
    ≡ ok reviewed_case
unfolding Replay.replay_departments Journal.sha256
three_events_replayed = refl

replay_departments-AllSeparated_example : AllSeparated fixed_checksum sample_options reviewed_case
replay_departments-AllSeparated_example =
    replay_departments-AllSeparated fixed_checksum sample_options three_events "s1" false
      three_events_replayed

handle_department-Replays_example :
    (next : State.CaseState) × (Replay.replay_payload fixed_checksum sample_options no_departments
        (place "steward" Journal.case_steward)
        (Replay.assigned assigned)
      ≡ ok next)
handle_department-Replays_example =
    handle_department-Replays fixed_checksum sample_options no_departments 2 "steward"
      (actor "steward" Journal.case_steward) (Commands.assign_department_package roads)
      (omega arith) assign_appends
