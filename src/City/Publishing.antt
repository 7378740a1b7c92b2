-- ===== src/City/Publishing.antt =====
-- The operations of `createCityControlPlane` that publish: the brief, the participation result and
-- the projections.
use stadtstack.Base.{
  ℕ, String, ◌&&◌, Option, none, some, [], ◌∷◌, if◌then◌else◌, ◌==◌, is_some, Result, ok, err,
  ◌>>=◌, ◌>>◌, guard, or_fail,
}
use stadtstack.Value.{Value, obj, get, as_record}
use stadtstack.Value.Json.{same_json}
use stadtstack.Kernel.Types.{
  participation_reviewer, publisher, CivicKernelConfig, CivicProjection, CouncilDryRunBrief,
  ParticipationResult, publish_reviewed_citizen_brief, record_reviewed_participation_result,
}
use stadtstack.Kernel.Project.{council, parse_viewer, project_for, build_council_dry_run_brief}
use stadtstack.City.Types.{
  civic, ActorRecord, CityConfig, PublishedBriefReceipt, CityError, kernel_error,
  viewer_profile_invalid, brief_summary_required, brief_conflict, reviewed_brief_missing,
  participation_result_required, participation_result_conflict, participation_result_missing,
  reviewed_citizen_brief_required,
}
use stadtstack.City.Requests.{
  required_string, read_request, assert_request_keys, assert_profile_caller, assert_profile_access,
}
use stadtstack.City.Config.{role_actor}
use stadtstack.City.State.{PlaneState, Outcome, by_entry, checked, dispatched}
use stadtstack.City.Operations.{as_administration, as_public}

module _ (clock : String → Option ℕ) (city : CityConfig) (config : CivicKernelConfig) where
  unfoldable pub publication_request : Value → Result CityError (ActorRecord × String)
  publication_request raw = do
    request ← read_request raw
    assert_request_keys request ("callerId" ∷ "summary" ∷ [])
    actor ← assert_profile_caller city request (civic publisher ∷ [])
    summary ← required_string (get "summary" request) brief_summary_required
    ok (actor, summary)

  unfoldable pub publication_receipt : PlaneState → Result CityError PublishedBriefReceipt
  publication_receipt s = do
    guard (is_some (as_administration clock city config s).reviewed_citizen_brief)
        reviewed_brief_missing
    brief ← or_fail (as_public clock city config s).reviewed_citizen_brief reviewed_brief_missing
    ok (record {
      brief = brief;
      administration = as_administration clock city config s;
      public_projection = as_public clock city config s;
    })

  unfoldable pub publish : PlaneState → ActorRecord → String → Outcome PublishedBriefReceipt
  publish s actor summary =
      by_entry s.published_brief
        (dispatched clock config s
          (publish_reviewed_citizen_brief (role_actor actor.id publisher none) summary)
          (λ t.
            let u : PlaneState = record t {
              published_brief = some (record { summary = summary; publisher_id = actor.id });
            } in
            record { state = u; answer = publication_receipt u }))
        (λ entry.
          if entry.publisher_id == actor.id && entry.summary == summary
          then record { state = s; answer = publication_receipt s }
          else record { state = s; answer = err brief_conflict })

  unfoldable pub publish_reviewed_brief : PlaneState → Value → Outcome PublishedBriefReceipt
  publish_reviewed_brief s raw =
      checked s (publication_request raw) (λ (actor, summary). publish s actor summary)

  unfoldable pub participation_request : PlaneState → Value → Result CityError (ActorRecord × Value)
  participation_request s raw = do
    request ← read_request raw
    assert_request_keys request ("callerId" ∷ "result" ∷ [])
    actor ← assert_profile_caller city request (civic participation_reviewer ∷ [])
    fields ← or_fail (as_record (get "result" request)) participation_result_required
    guard (is_some (as_public clock city config s).reviewed_citizen_brief)
        reviewed_citizen_brief_required
    ok (actor, obj fields)

  unfoldable pub participation_receipt : PlaneState → Result CityError ParticipationResult
  participation_receipt s =
      or_fail (as_public clock city config s).participation_result participation_result_missing

  unfoldable pub pass_participation : PlaneState → ActorRecord → Value → Outcome ParticipationResult
  pass_participation s actor result =
      by_entry s.participation
        (dispatched clock config s
          (record_reviewed_participation_result (role_actor actor.id participation_reviewer none)
            result)
          (λ t.
            let u : PlaneState = record t { participation = some result } in
            record { state = u; answer = participation_receipt u }))
        (λ old.
          if same_json old result
          then record { state = s; answer = participation_receipt s }
          else record { state = s; answer = err participation_result_conflict })

  unfoldable pub record_reviewed_participation : PlaneState → Value → Outcome ParticipationResult
  record_reviewed_participation s raw =
      checked s (participation_request s raw) (λ (actor, result). pass_participation s actor result)

  unfoldable pub project_profile : PlaneState → Value → Result CityError CivicProjection
  project_profile s raw = do
    request ← read_request raw
    assert_request_keys request ("callerId" ∷ "profile" ∷ [])
    text ← required_string (get "profile" request) viewer_profile_invalid
    profile ← or_fail (parse_viewer text) viewer_profile_invalid
    _ ← assert_profile_access city request profile
    ok (project_for config s.kernel profile)

  unfoldable pub prepare_council_dry_run_brief :
      PlaneState → Value → Result CityError CouncilDryRunBrief
  prepare_council_dry_run_brief s raw = do
    request ← read_request raw
    assert_request_keys request ("callerId" ∷ [])
    _ ← assert_profile_access city request council
    elim (build_council_dry_run_brief config s.kernel) [
      | ok brief ↦ ok brief
      | err e ↦ err (kernel_error e)
    ]
