-- ===== src/Kernel/Tests.antt =====
-- The kernel on concrete commands.
mod Witnesses
use stadtstack.Base.{
  String, Option, none, some, List, [], ◌∷◌, ◌≡◌, refl, true, false, Result, ok, err, ◌>>=◌, lookup,
  insert, from_entries, has_no_duplicates,
}
use stadtstack.Text.{trim, is_blank}
use stadtstack.Double.{sum_double, add_double, round_double}
use stadtstack.Value.{get, has_own, own_keys, truthy, items}
use stadtstack.Kernel.Types.{
  department_agent, CivicCommand, record_discussion, craft_suggestion,
  submit_suggestion_for_administration, record_department_response, review_department_response,
  publish_reviewed_citizen_brief, record_participation_result,
}
use stadtstack.Kernel.Errors.{KernelError}
use stadtstack.Kernel.Shape.{has_raw_marker, participation_result_shape, no_raw_values}
use stadtstack.Kernel.Participation.{is_checksum, normalize_participation_result, read_result}
use stadtstack.Kernel.State.{KernelState, initial_state, update_first}
use stadtstack.Kernel.Actors.{normalize_actor_fields, normalize_civic_actor}
use stadtstack.Kernel.Config.{actor_registry}
use stadtstack.Kernel.Discussions.{
  dispatch_discussion, store_discussion, discussion_provenance, dispatch_suggestion,
}
use stadtstack.Kernel.Packages.{
  dispatch_submission, submit, dispatch_response, review, dispatch_review, dispatch_brief,
}
use stadtstack.Kernel.Dispatch.{
  dispatch, authenticate, dispatch_result, store_result, dispatch_participation,
}
use stadtstack.Kernel.Samples.{
  citizen_envelope, steward_envelope, agent_envelope, reviewer_envelope, publisher_envelope,
  participation_envelope, sample_config, sample_discussion, result_input, sample_clock,
}

actor_ok :
    normalize_civic_actor agent_envelope
    ≡ ok (record { id = "agent-1"; role = department_agent; department_id = some "mobility" })
unfolding normalize_actor_fields normalize_civic_actor own_keys get has_own trim is_blank
actor_ok = refl

marker_found : has_raw_marker "vote of User_ID = 7" ≡ true
unfolding has_raw_marker
marker_found = refl

marker_absent : has_raw_marker "xnpub1abcdefgh identity" ≡ false
unfolding has_raw_marker
marker_absent = refl

checksum_ok : is_checksum "sha256:synthetic-a_1" ≡ true
unfolding is_checksum
checksum_ok = refl

unfoldable run : KernelState → List CivicCommand → Result KernelError KernelState
unfolding dispatch initial_state authenticate normalize_actor_fields normalize_civic_actor own_keys
    get has_own trim is_blank actor_registry from_entries insert lookup truthy dispatch_discussion
    store_discussion discussion_provenance dispatch_suggestion dispatch_submission submit
    update_first dispatch_response review dispatch_review dispatch_brief dispatch_participation
    dispatch_result store_result normalize_participation_result participation_result_shape
    no_raw_values read_result is_checksum has_no_duplicates sum_double add_double round_double items
run s [] = ok s
run s (c ∷ cs) = dispatch sample_clock sample_config s c >>= λ t. run t cs

brief_flow : List CivicCommand
brief_flow =
    record_discussion citizen_envelope sample_discussion
    ∷ craft_suggestion citizen_envelope "s1" "d1" "Bench"
    ∷ submit_suggestion_for_administration steward_envelope "s1"
    ∷ record_department_response agent_envelope "s1:mobility" "fine" ("law" ∷ [])
    ∷ review_department_response reviewer_envelope "s1:mobility"
    ∷ publish_reviewed_citizen_brief publisher_envelope "brief"
    ∷ record_participation_result participation_envelope result_input
    ∷ []

abbrev brief_of : Result KernelError KernelState → Option (List String)
brief_of (ok s) = elim s.reviewed_citizen_brief [ none ↦ none | some b ↦ some b.citations ]
brief_of (err e) = none

brief_published : brief_of (run initial_state brief_flow) ≡ some ("law" ∷ [])
unfolding run brief_flow initial_state
brief_published = refl
