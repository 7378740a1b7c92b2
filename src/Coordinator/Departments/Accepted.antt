-- ===== src/Coordinator/Departments/Accepted.antt =====
-- What the branches of `handle` append for departments, the branches of `replayJournal` accept.
use stadtstack.Base.{
  ℕ, ◌≤◌, String, true, not, ◌&&◌, ◌||◌, Option, some, is_some, lookup, ◌==◌, eq_refl, ok, guard,
  or_fail, ◌>>◌, ◌≡◌, subst, ◌∙◌, arith, >>=-eq-ok, or_fail-eq-ok, guard_then-eq-ok,
}
use stadtstack.Value.{Value}
use stadtstack.Coordinator.Journal
use stadtstack.Coordinator.Departments.State
use stadtstack.Coordinator.Departments.Replay
use stadtstack.Coordinator.Departments.Commands
use stadtstack.Coordinator.Departments.Accepting.{
  found_again, guard_found-eq-ok, place, Replays, checked-ok, guarded-ok, in_scope, is_steward_lem,
  accepted_again, record_draft-Replays,
}
use stadtstack.Coordinator.Receipts.{ok-injective, >>=-ok}

module _ (checksum_of : Value → String) (o : State.CaseOptions) where
  attest-Replays :
      (c : State.CaseState) (index : ℕ) (event_id : String) (actor : Journal.ActorBinding)
      (r : State.ActorRegistration) (review : State.DepartmentReview)
      {out : Replay.Payload × Option String}
      → lookup actor.actor_id o.actors ≡ some r
      → State.is_class r.actor_class actor.actor_class ≡ true
      → Commands.attest checksum_of o (some c) actor r review ≡ ok out
      → Replays checksum_of o c index actor event_id out
  unfolding Commands.attest Replay.replay_payload Replay.replay_reviewed
  attest-Replays c index event_id actor r review l same h =
      let (d, h1, h2) =
        >>=-eq-ok
          (guard (State.is_class r.actor_class Journal.department_reviewer)
              (Journal.refused "actor_role_forbidden")
            >> or_fail (lookup review.package_id c.departments)
                (Journal.refused "department_draft_not_recorded"))
          _ h in
      let (role, found) =
        guard_then-eq-ok (State.is_class r.actor_class Journal.department_reviewer) _ _ h1 in
      let (draft, got, h3) =
        >>=-eq-ok (or_fail d.draft (Journal.refused "department_draft_not_recorded")) _ h2 in
      let (s, h4, h5) =
        >>=-eq-ok
          (guard (not (is_some d.review)) (Journal.refused "department_review_already_recorded")
            >> guard (review.package_id == d.department_package.id)
                (Journal.refused "department_package_mismatch")
            >> guard (review.draft_artifact_checksum == draft.draft_artifact_checksum)
                (Journal.refused "department_draft_checksum_invalid")
            >> guard (State.is_text d.department_package.department_id r.department_id)
                (Journal.refused "department_actor_scope_mismatch")
            >> guard (actor.actor_id == d.department_package.assigned_reviewer_actor_id)
                (Journal.refused "department_reviewer_not_assigned")
            >> guard (not (actor.actor_id == draft.actor_binding.actor_id))
                (Journal.refused "department_reviewer_not_distinct")
            >> Journal.sha256 checksum_of (State.attestation_value review o.policy_version actor))
          _ h3 in
      let scope =
        in_scope checksum_of o Journal.department_reviewer d.department_package.department_id actor
          r l same role (ground (arith, h4)) in
      subst (Replays checksum_of o c index actor event_id) (ok-injective h5) (
        _,
        >>=-ok (or_fail (lookup review.package_id c.departments) Replay.invalid) _
              (found_again (lookup review.package_id c.departments) _ Replay.invalid found)
            ∙ >>=-ok (or_fail d.draft Replay.invalid) _ (found_again d.draft _ Replay.invalid got)
            ∙ checked-ok checksum_of o _ _ _ _ s (ground (arith, eq_refl o.policy_version, h4))
                (ground (arith, h4)) (ground (arith, eq_refl s, scope, h4)),
      )

  correct-Replays :
      (c : State.CaseState) (index : ℕ) (event_id : String) (actor : Journal.ActorBinding)
      (r : State.ActorRegistration) (id checksum prior : String) (draft : State.DepartmentDraft)
      {out : Replay.Payload × Option String}
      → lookup actor.actor_id o.actors ≡ some r
      → State.is_class r.actor_class actor.actor_class ≡ true
      → Commands.correct checksum_of o (some c) actor r id checksum prior draft ≡ ok out
      → Replays checksum_of o c index actor event_id out
  unfolding Commands.correct Replay.replay_payload Replay.replay_corrected
  correct-Replays c index event_id actor r id checksum prior draft l same h =
      let (d, h1, h2) =
        >>=-eq-ok
          (guard (State.is_class r.actor_class Journal.department_agent)
              (Journal.refused "actor_role_forbidden")
            >> or_fail (lookup id c.departments) (Journal.refused "department_draft_not_recorded"))
          _ h in
      let (role, found) =
        guard_then-eq-ok (State.is_class r.actor_class Journal.department_agent) _ _ h1 in
      let (held, got, h3) =
        >>=-eq-ok
          (or_fail (Commands.response_of d) (Journal.refused "department_draft_not_recorded")) _
          h2 in
      let (s, h4, h5) =
        >>=-eq-ok
          (guard (checksum == d.package_checksum)
              (Journal.refused "department_package_checksum_invalid")
            >> guard (prior == held.0.draft_artifact_checksum)
                (Journal.refused "department_draft_checksum_invalid")
            >> guard (State.is_accepted held.1.review.decision)
                (Journal.refused "department_review_not_accepted")
            >> guard (actor.actor_id == d.department_package.assigned_agent_actor_id)
                (Journal.refused "department_agent_not_assigned")
            >> guard (State.is_text d.department_package.department_id r.department_id)
                (Journal.refused "department_actor_scope_mismatch")
            >> Journal.sha256 checksum_of (State.draft_value draft))
          _ h3 in
      let scope =
        in_scope checksum_of o Journal.department_agent d.department_package.department_id actor r l
          same role (ground (arith, h4)) in
      subst (Replays checksum_of o c index actor event_id) (ok-injective h5) (
        _,
        >>=-ok (or_fail (lookup id c.departments) Replay.invalid) _
              (found_again (lookup id c.departments) _ Replay.invalid found)
            ∙ >>=-ok (or_fail (Replay.accepted_response d) Replay.invalid) _
                (accepted_again checksum_of o d _ got (ground (arith, h4)))
            ∙ checked-ok checksum_of o _ _ _ _ s (ground (arith, eq_refl held.0.event_id, h4))
                (ground (arith, h4)) (ground (arith, eq_refl s, scope, h4)),
      )

  retract-Replays :
      (c : State.CaseState) (index : ℕ) (event_id : String) (actor : Journal.ActorBinding)
      (r : State.ActorRegistration) (retraction : State.DepartmentRetraction)
      {out : Replay.Payload × Option String}
      → lookup actor.actor_id o.actors ≡ some r
      → State.is_class r.actor_class actor.actor_class ≡ true
      → Commands.retract checksum_of o (some c) r retraction ≡ ok out
      → Replays checksum_of o c index actor event_id out
  unfolding Commands.retract Replay.replay_payload Replay.replay_retracted
  retract-Replays c index event_id actor r retraction l same h =
      let (d, h1, h2) =
        >>=-eq-ok
          (guard (State.is_class r.actor_class Journal.case_steward)
              (Journal.refused "actor_role_forbidden")
            >> or_fail (lookup retraction.package_id c.departments)
                (Journal.refused "department_response_not_found"))
          _ h in
      let (role, found) =
        guard_then-eq-ok (State.is_class r.actor_class Journal.case_steward) _ _ h1 in
      let (held, got, h3) =
        >>=-eq-ok
          (or_fail (Commands.response_of d) (Journal.refused "department_response_not_found")) _
          h2 in
      let steward = is_steward_lem checksum_of o actor r l same role in
      let (u, h4, h5) =
        >>=-eq-ok
          (guard (retraction.package_checksum == d.package_checksum)
              (Journal.refused "department_package_checksum_invalid")
            >> guard
                (retraction.target_draft_artifact_checksum == held.0.draft_artifact_checksum
                  && retraction.target_review_attestation_checksum == held.1.attestation_checksum)
                (Journal.refused "department_response_checksum_invalid")
            >> guard (State.is_accepted held.1.review.decision)
                (Journal.refused "department_review_not_accepted"))
          _ h3 in
      subst (Replays checksum_of o c index actor event_id) (ok-injective h5) (
        _,
        >>=-ok (or_fail (lookup retraction.package_id c.departments) Replay.invalid) _
              (found_again (lookup retraction.package_id c.departments) _ Replay.invalid found)
            ∙ >>=-ok (or_fail (Replay.accepted_response d) Replay.invalid) _
                (accepted_again checksum_of o d _ got (ground (arith, h4)))
            ∙ guarded-ok checksum_of o _ _ (ground (arith, eq_refl held.1.event_id, steward, h4)),
      )

  assign-Replays :
      (c : State.CaseState) (index : ℕ) (event_id : String) (actor : Journal.ActorBinding)
      (r : State.ActorRegistration) (given : State.DepartmentPackage)
      {out : Replay.Payload × Option String}
      → lookup actor.actor_id o.actors ≡ some r
      → State.is_class r.actor_class actor.actor_class ≡ true
      → 2 ≤ index
      → Commands.assign checksum_of o (some c) r given ≡ ok out
      → Replays checksum_of o c index actor event_id out
  unfolding Commands.assign Replay.replay_payload Replay.replay_assigned
  assign-Replays c index event_id actor r given l same later h =
      let (role, h1) =
        guard_found-eq-ok (State.is_class r.actor_class Journal.case_steward) _ c _ h in
      let steward = is_steward_lem checksum_of o actor r l same role in
      let (s, h2, h3) =
        >>=-eq-ok
          (guard (not o.require_signed_suggestion_admission || c.signed_suggestion_admission)
              (Journal.refused "signed_suggestion_admission_required")
            >> guard (given.suggestion_id == c.suggestion_id)
                (Journal.refused "department_suggestion_mismatch")
            >> guard
                (not (is_some (lookup given.id c.departments))
                  && not (State.has_package given.department_id c.departments))
                (Journal.refused "department_package_already_recorded")
            >> guard (not (Commands.lacks_room o.required_department_ids c.departments))
                (Journal.refused "department_package_already_recorded")
            >> guard
                (not (
                  Commands.is_not_required o.required_department_ids given.department_id
                    c.departments))
                (Journal.refused "department_department_not_required")
            >> guard
                (State.has_scope Journal.department_agent given.department_id
                    (lookup given.assigned_agent_actor_id o.actors)
                  && State.has_scope Journal.department_reviewer given.department_id
                      (lookup given.assigned_reviewer_actor_id o.actors))
                (Journal.refused "department_actor_scope_mismatch")
            >> Journal.sha256 checksum_of (State.package_value given))
          _ h1 in
      subst (Replays checksum_of o c index actor event_id) (ok-injective h3) (
        _,
        checked-ok checksum_of o _ _ _ _ s (ground (arith, h2)) (ground (arith, h2))
            (ground (arith, eq_refl s, steward, h2)),
      )

  branch-Replays :
      (c : State.CaseState) (index : ℕ) (event_id : String) (actor : Journal.ActorBinding)
      (r : State.ActorRegistration) (command : Commands.DepartmentCommand)
      {out : Replay.Payload × Option String}
      → lookup actor.actor_id o.actors ≡ some r
      → State.is_class r.actor_class actor.actor_class ≡ true
      → 2 ≤ index
      → Commands.department_branch checksum_of o (some c) actor r command ≡ ok out
      → Replays checksum_of o c index actor event_id out
  branch-Replays c index id actor r (Commands.assign_department_package p) l same later h =
      assign-Replays c index id actor r p l same later h
  branch-Replays c index id actor r (Commands.record_department_draft p x d) l same later h =
      record_draft-Replays checksum_of o c index id actor r p x d l same h
  branch-Replays c index id actor r (Commands.attest_department_review v) l same later h =
      attest-Replays c index id actor r v l same h
  branch-Replays c index id actor r (Commands.correct_department_draft p x y d) l same later h =
      correct-Replays c index id actor r p x y d l same h
  branch-Replays c index id actor r (Commands.retract_department_response t) l same later h =
      retract-Replays c index id actor r t l same h

  -- Where a case has its first two events: what a command on departments appends, the replay
  -- accepts after the events so far, whatever the id of the new event.
  pub handle_department-Replays :
      (c : State.CaseState) (index : ℕ) (event_id : String) (actor : Journal.ActorBinding)
      (command : Commands.DepartmentCommand) {out : Replay.Payload × Option String}
      → 2 ≤ index
      → Commands.handle_department checksum_of o (some c) actor command ≡ ok out
      → (next : State.CaseState) × (Replay.replay_payload checksum_of o c
            (place checksum_of o index actor event_id out.1)
            out.0
          ≡ ok next)
  unfolding Commands.handle_department
  handle_department-Replays c index event_id actor command later h =
      let (r, known, h1) =
        >>=-eq-ok
          (or_fail (lookup actor.actor_id o.actors) (Journal.refused "actor_not_registered")) _ h in
      let (same, branch) =
        guard_then-eq-ok (State.is_class r.actor_class actor.actor_class) _ _ h1 in
      branch-Replays c index event_id actor r command (or_fail-eq-ok _ _ known) same later branch
