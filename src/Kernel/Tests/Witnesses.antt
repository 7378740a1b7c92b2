-- ===== src/Kernel/Tests/Witnesses.antt =====
-- The theorems on the kernel at the sample case.
use stadtstack.Base.{
  true, false, some, List, [], ◌∷◌, ◌≡◌, ◌≢◌, ◌↔◌, refl, arith, inl, inr, ok, any,
}
use stadtstack.Kernel.Types.{
  CivicCommand, record_discussion, craft_suggestion, submit_suggestion_for_administration,
  record_department_response, review_department_response, publish_reviewed_citizen_brief,
}
use stadtstack.Kernel.State.{KernelState, initial_state}
use stadtstack.Kernel.Dispatch.{dispatch}
use stadtstack.Kernel.Runs.{Reach, here, next, reachable-Inv}
use stadtstack.Kernel.Invariant.{Inv}
use stadtstack.Kernel.Replay.{dispatch_idempotent}
use stadtstack.Value.{undefined}
use stadtstack.Double.Laws.{sum}
use stadtstack.Kernel.Types.{
  CivicActor, ParticipationOptionAggregate, department_reviewer, draft, pending_review,
}
use stadtstack.Kernel.Errors.{result}
use stadtstack.Kernel.Shape.{no_raw_values}
use stadtstack.Kernel.Participation.{normalize_participation_result, read_options, option_counts}
use stadtstack.Kernel.Config.{snapshot_civic_kernel_config}
use stadtstack.Kernel.Packages.{dispatch_review}
use stadtstack.Kernel.Project.{council, public, project_for}
use stadtstack.Kernel.Roles.{IsAuthorized, dispatch-IsAuthorized}
use stadtstack.Kernel.Counts.{
  IsConsistent, normalize_participation_result-IsConsistent, counts_add_up, two_options,
  read_options_misses_one,
}
use stadtstack.Kernel.Invariant.{submitted_count, unreviewed}
use stadtstack.Kernel.Publication.{publication-needs, publication_blocked, submission_keeps_brief}
use stadtstack.Kernel.History.{Extends, Reach-Extends}
use stadtstack.Kernel.Privacy.{project_for-public, project_for-council}
use stadtstack.Kernel.Screen.{EveryText, IsScreened, no_raw_values_iff}
use stadtstack.Kernel.Registry.{IsConfig, snapshot_civic_kernel_config-IsConfig}
use stadtstack.Kernel.Reviews.{dispatch_review-succeeds}
use stadtstack.Kernel.Tests.{run}
use stadtstack.Kernel.Samples.{
  citizen_envelope, steward_envelope, agent_envelope, reviewer_envelope, publisher_envelope,
  sample_config, sample_discussion, result_input, sample_clock, accepted_result, config_input,
  package_with, response_with, lake_path, discussed, drafted, submitted, responded, assessed,
  published, redrafted, resubmitted,
}

abbrev Step : KernelState → CivicCommand → KernelState → Type 0
Step s c t = dispatch sample_clock sample_config s c ≡ ok t

discuss-Step : Step initial_state (record_discussion citizen_envelope sample_discussion) discussed
unfolding run initial_state
discuss-Step = refl

draft-Step : Step discussed (craft_suggestion citizen_envelope "s1" "d1" "Bench") drafted
unfolding run
draft-Step = refl

submit-Step : Step drafted (submit_suggestion_for_administration steward_envelope "s1") submitted
unfolding run
submit-Step = refl

response-Step :
    Step submitted
      (record_department_response agent_envelope "s1:mobility" "fine" ("law" ∷ []))
      responded
unfolding run
response-Step = refl

review-Step : Step responded (review_department_response reviewer_envelope "s1:mobility") assessed
unfolding run
review-Step = refl

publish-Step : Step assessed (publish_reviewed_citizen_brief publisher_envelope "brief") published
unfolding run
publish-Step = refl

redraft-Step : Step published (craft_suggestion citizen_envelope "s2" "d1" "Path") redrafted
unfolding run
redraft-Step = refl

resubmit-Step :
    Step redrafted (submit_suggestion_for_administration steward_envelope "s2") resubmitted
unfolding run
resubmit-Step = refl

published_reached : Reach sample_clock sample_config initial_state published
published_reached =
    next
      (next
        (next (next (next (next here _ discuss-Step) _ draft-Step) _ submit-Step) _ response-Step) _
        review-Step)
      _ publish-Step

resubmitted_reached : Reach sample_clock sample_config initial_state resubmitted
resubmitted_reached = next (next published_reached _ redraft-Step) _ resubmit-Step

dispatch_idempotent_example :
    dispatch sample_clock sample_config discussed
      (record_discussion citizen_envelope sample_discussion)
    ≡ ok discussed
dispatch_idempotent_example =
    dispatch_idempotent sample_clock sample_config initial_state discussed
      (record_discussion citizen_envelope sample_discussion) discuss-Step

reachable-Inv_example : Inv sample_config published
reachable-Inv_example = reachable-Inv sample_clock sample_config published_reached

dispatch-IsAuthorized_example :
    (actor : CivicActor) × IsAuthorized sample_config submitted
      (record_department_response agent_envelope "s1:mobility" "fine" ("law" ∷ []))
      actor
dispatch-IsAuthorized_example =
    dispatch-IsAuthorized sample_clock sample_config submitted responded
      (record_department_response agent_envelope "s1:mobility" "fine" ("law" ∷ [])) response-Step

result_accepted :
    normalize_participation_result sample_clock result_input ≡ ok (accepted_result undefined)
unfolding run
result_accepted = refl

normalize_participation_result-IsConsistent_example :
    IsConsistent sample_clock (accepted_result undefined)
normalize_participation_result-IsConsistent_example =
    normalize_participation_result-IsConsistent sample_clock result_input
      (accepted_result undefined) result_accepted

counts_add_up_example : sum (3 ∷ 4 ∷ []) ≡ 7
counts_add_up_example =
    counts_add_up sample_clock result_input (accepted_result undefined) result_accepted
      (omega arith)

read_options_misses_one_example :
    (os : List ParticipationOptionAggregate) × (read_options 9007199254740992
        (two_options 2251799813685248)
      ≡ ok os)
    × (option_counts os ≡ 9007199254740992 ∷ 1 ∷ [])
read_options_misses_one_example =
    read_options_misses_one 2251799813685248 (omega arith) (omega arith)

assessed_reached : Reach sample_clock sample_config initial_state assessed
assessed_reached =
    next (next (next (next (next here _ discuss-Step) _ draft-Step) _ submit-Step) _ response-Step)
      _ review-Step

publication-needs_example :
    (submitted_count assessed.suggestions ≡ 1)
    × (any unreviewed assessed.department_work_packages ≡ false)
publication-needs_example =
    publication-needs sample_clock sample_config (λ e. cc) assessed published publisher_envelope
      "brief" (reachable-Inv sample_clock sample_config assessed_reached) publish-Step

publication_blocked_example :
    dispatch sample_clock sample_config resubmitted
      (publish_reviewed_citizen_brief publisher_envelope "again")
    ≢ ok published
publication_blocked_example =
    publication_blocked sample_clock sample_config (λ e. cc) published publisher_envelope "again"
      (reachable-Inv sample_clock sample_config resubmitted_reached) (omega arith) here

submission_keeps_brief_example :
    (resubmitted.reviewed_citizen_brief ≡ redrafted.reviewed_citizen_brief)
    × (any unreviewed resubmitted.department_work_packages ≡ true)
unfolding run
submission_keeps_brief_example =
    submission_keeps_brief sample_clock sample_config (λ e. cc) redrafted resubmitted
      steward_envelope "s2" (lake_path draft) refl refl resubmit-Step

Reach-Extends_example : Extends published resubmitted
Reach-Extends_example =
    Reach-Extends sample_clock sample_config (next (next here _ redraft-Step) _ resubmit-Step)

project_for-public_example :
    project_for sample_config published public
    ≡ project_for sample_config
        (record published { department_work_packages = []; response_authors = [] })
        public
project_for-public_example =
    project_for-public sample_config published
      (record published { department_work_packages = []; response_authors = [] })
      (record { discussions = refl; suggestions = refl; brief = (refl, refl); result = refl })

project_for-council_example :
    project_for sample_config submitted council
    ≡ project_for sample_config (record submitted { department_work_packages = [] }) council
project_for-council_example =
    project_for-council sample_config submitted (record submitted { department_work_packages = [] })
      (record { discussions = refl; suggestions = refl; brief = tt; result = refl }) refl

no_raw_values_iff_example :
    (no_raw_values result result_input ≡ ok tt) ↔ EveryText IsScreened result_input
no_raw_values_iff_example = no_raw_values_iff result result_input

config_accepted : snapshot_civic_kernel_config config_input ≡ ok sample_config
unfolding snapshot_civic_kernel_config run
config_accepted = refl

snapshot_civic_kernel_config-IsConfig_example : IsConfig sample_config
snapshot_civic_kernel_config-IsConfig_example =
    snapshot_civic_kernel_config-IsConfig config_input sample_config config_accepted

responded_reached : Reach sample_clock sample_config initial_state responded
responded_reached =
    next (next (next (next here _ discuss-Step) _ draft-Step) _ submit-Step) _ response-Step

dispatch_review-succeeds_example :
    dispatch_review responded
      (record { id = "reviewer-1"; role = department_reviewer; department_id = some "mobility" })
      "s1:mobility"
    ≡ ok assessed
unfolding run
dispatch_review-succeeds_example =
    dispatch_review-succeeds sample_config responded
      (record { id = "reviewer-1"; role = department_reviewer; department_id = some "mobility" })
      (package_with (some (response_with pending_review))) "s1:mobility"
      (snapshot_civic_kernel_config-IsConfig config_input sample_config config_accepted)
      (reachable-Inv sample_clock sample_config responded_reached) (inr (inr (inr (inl refl)))) refl
      refl refl (λ e. cc)
