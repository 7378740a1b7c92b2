-- ===== src/Coordinator/Departments/Separation.antt =====
-- The replay of a journal keeps drafting and reviewing apart in every department.
use stadtstack.Base.{
  String, Bool, none, some, List, [], ◌∷◌, lookup, ok, or_fail, ◌≡◌, sym, subst, arith, >>=-eq-ok,
  or_fail-eq-ok, guard_then-eq-ok,
}
use stadtstack.Value.{Value}
use stadtstack.Coordinator.Departments.State
use stadtstack.Coordinator.Departments.Replay
use stadtstack.Coordinator.Departments.Holding.{
  ReviewHolds, AllSeparated, undrafted, set-AllSeparated, checked-Checked, found-IsSeparated,
  same_sum,
}
use stadtstack.Coordinator.Receipts.{ok-injective}

module _ (checksum_of : Value → String) (o : State.CaseOptions) where
  replay_drafted-AllSeparated :
      (c : State.CaseState) (e : Replay.Place) (p : Replay.DraftPayload) {next : State.CaseState}
      → AllSeparated checksum_of o c
      → Replay.replay_drafted checksum_of o c e p ≡ ok next
      → AllSeparated checksum_of o next
  unfolding Replay.replay_drafted
  replay_drafted-AllSeparated c e p h done =
      let (d, found, rest) =
        >>=-eq-ok (or_fail (lookup p.package_id c.departments) Replay.invalid) _ done in
      let held = found-IsSeparated checksum_of o c p.package_id h found in
      let k = checked-Checked checksum_of o _ _ _ _ rest in
      subst (AllSeparated checksum_of o) k.results (
        set-AllSeparated checksum_of o c p.package_id _ h (record {
          drafted = record {
            agent = ground (arith, k.match);
            scope = ground (arith, k.match);
            hashed =
                same_sum checksum_of o (State.draft_value p.draft) k.is_sum
                  (ground (arith, k.match));
          };
          reviewed =
              undrafted checksum_of o d.department_package d.draft d.review
                (some (Replay.recorded_draft checksum_of o p.draft p.draft_artifact_checksum e))
                held.reviewed (ground (arith, k.fit));
          packaged = held.packaged;
        }))

  replay_corrected-AllSeparated :
      (c : State.CaseState) (e : Replay.Place) (p : Replay.CorrectionPayload)
      {next : State.CaseState}
      → AllSeparated checksum_of o c
      → Replay.replay_corrected checksum_of o c e p ≡ ok next
      → AllSeparated checksum_of o next
  unfolding Replay.replay_corrected
  replay_corrected-AllSeparated c e p h done =
      let (d, found, more) =
        >>=-eq-ok (or_fail (lookup p.package_id c.departments) Replay.invalid) _ done in
      let (pair, got, rest) =
        >>=-eq-ok (or_fail (Replay.accepted_response d) Replay.invalid) _ more in
      let held = found-IsSeparated checksum_of o c p.package_id h found in
      let k = checked-Checked checksum_of o _ _ _ _ rest in
      subst (AllSeparated checksum_of o) k.results (
        set-AllSeparated checksum_of o c p.package_id _ h (record {
          drafted = record {
            agent = ground (arith, k.match);
            scope = ground (arith, k.match);
            hashed =
                same_sum checksum_of o (State.draft_value p.draft) k.is_sum
                  (ground (arith, k.match));
          };
          reviewed = tt;
          packaged = held.packaged;
        }))

  replay_retracted-AllSeparated :
      (c : State.CaseState) (e : Replay.Place) (p : Replay.RetractionPayload)
      {next : State.CaseState}
      → AllSeparated checksum_of o c
      → Replay.replay_retracted checksum_of o c e p ≡ ok next
      → AllSeparated checksum_of o next
  unfolding Replay.replay_retracted
  replay_retracted-AllSeparated c e p h done =
      let (d, found, more) =
        >>=-eq-ok (or_fail (lookup p.retraction.package_id c.departments) Replay.invalid) _ done in
      let (pair, got, rest) =
        >>=-eq-ok (or_fail (Replay.accepted_response d) Replay.invalid) _ more in
      let held = found-IsSeparated checksum_of o c p.retraction.package_id h found in
      subst (AllSeparated checksum_of o) (ok-injective (guard_then-eq-ok _ _ _ rest).1) (
        set-AllSeparated checksum_of o c p.retraction.package_id
          (record d { draft = none; review = none; correction_state = State.retracted }) h
          (record { drafted = tt; reviewed = tt; packaged = held.packaged }))

  replay_assigned-AllSeparated :
      (c : State.CaseState) (e : Replay.Place) (p : Replay.PackagePayload) {next : State.CaseState}
      → AllSeparated checksum_of o c
      → Replay.replay_assigned checksum_of o c e p ≡ ok next
      → AllSeparated checksum_of o next
  unfolding Replay.replay_assigned
  replay_assigned-AllSeparated c e p h done =
      let k = checked-Checked checksum_of o _ _ _ _ done in
      subst (AllSeparated checksum_of o) k.results (
        set-AllSeparated checksum_of o c p.department_package.id _ h (record {
          drafted = tt;
          reviewed = tt;
          packaged =
              same_sum checksum_of o (State.package_value p.department_package) k.is_sum
                (ground (arith, k.match));
        }))

  replay_reviewed-AllSeparated :
      (c : State.CaseState) (e : Replay.Place) (p : Replay.ReviewPayload) {next : State.CaseState}
      → AllSeparated checksum_of o c
      → Replay.replay_reviewed checksum_of o c e p ≡ ok next
      → AllSeparated checksum_of o next
  unfolding Replay.replay_reviewed
  replay_reviewed-AllSeparated c e p h done =
      let (d, found, more) =
        >>=-eq-ok (or_fail (lookup p.review.package_id c.departments) Replay.invalid) _ done in
      let (draft, got, rest) = >>=-eq-ok (or_fail d.draft Replay.invalid) _ more in
      let held = found-IsSeparated checksum_of o c p.review.package_id h found in
      let k = checked-Checked checksum_of o _ _ _ _ rest in
      subst (AllSeparated checksum_of o) k.results (
        set-AllSeparated checksum_of o c p.review.package_id _ h (record {
          drafted = held.drafted;
          reviewed =
              subst
                (λ r.
                  ReviewHolds checksum_of o d.department_package r
                    (some (Replay.recorded_review checksum_of o p e)))
                (sym (or_fail-eq-ok d.draft _ got))
                (record {
                  reviewer = ground (arith, k.match);
                  scope = ground (arith, k.match);
                  distinct = ground (arith, k.match);
                  same_draft = ground (arith, k.match);
                  attested =
                      same_sum checksum_of o
                        (State.attestation_value p.review p.policy_version e.actor_binding) k.is_sum
                        (ground (arith, k.match));
                });
          packaged = held.packaged;
        }))

  replay_payload-AllSeparated :
      (c : State.CaseState) (e : Replay.Place) (p : Replay.Payload) {next : State.CaseState}
      → AllSeparated checksum_of o c
      → Replay.replay_payload checksum_of o c e p ≡ ok next
      → AllSeparated checksum_of o next
  unfolding Replay.replay_payload
  replay_payload-AllSeparated c e (Replay.assigned p) h done =
      replay_assigned-AllSeparated c e p h done
  replay_payload-AllSeparated c e (Replay.drafted p) h done =
      replay_drafted-AllSeparated c e p h done
  replay_payload-AllSeparated c e (Replay.reviewed p) h done =
      replay_reviewed-AllSeparated c e p h done
  replay_payload-AllSeparated c e (Replay.corrected p) h done =
      replay_corrected-AllSeparated c e p h done
  replay_payload-AllSeparated c e (Replay.retracted p) h done =
      replay_retracted-AllSeparated c e p h done

  kept-AllSeparated :
      (es : List (Replay.Place × Replay.Payload)) (c : State.CaseState) {next : State.CaseState}
      → AllSeparated checksum_of o c
      → Replay.replay_departments checksum_of o c es ≡ ok next
      → AllSeparated checksum_of o next
  unfolding Replay.replay_departments
  kept-AllSeparated [] c h done = subst (AllSeparated checksum_of o) (ok-injective done) h
  kept-AllSeparated ((e, p) ∷ es) c h done =
      let (next, one, rest) = >>=-eq-ok (Replay.replay_payload checksum_of o c e p) _ done in
      kept-AllSeparated es next (replay_payload-AllSeparated c e p h one) rest

  -- Whatever events on departments the replay accepts, from a case without departments: every draft
  -- is of the assigned agent, who is registered for the department, and every review is of that
  -- draft and of the assigned reviewer, who is registered for the department and did not write it;
  -- packages, drafts and reviews have the checksums they are recorded with.
  pub replay_departments-AllSeparated :
      (es : List (Replay.Place × Replay.Payload)) (id : String) (admission : Bool)
      {next : State.CaseState}
      → Replay.replay_departments checksum_of o
          (record { suggestion_id = id; signed_suggestion_admission = admission; departments = [] })
          es
        ≡ ok next
      → AllSeparated checksum_of o next
  replay_departments-AllSeparated es id admission done = kept-AllSeparated es _ tt done
