-- ===== src/City/Tests.antt =====
-- The control plane on concrete requests.
mod Witnesses
use stadtstack.Base.{
  ℕ, String, Option, none, some, List, [], ◌∷◌, ◌≡◌, refl, ok, lookup, insert, has_no_duplicates,
}
use stadtstack.Base.{from_entries}
use stadtstack.Text.{trim, is_blank}
use stadtstack.Double.{sum_double, add_double, round_double}
use stadtstack.Value.{get, has_own, own_keys, truthy, items}
use stadtstack.Kernel.Shape.{participation_result_shape, no_raw_values}
use stadtstack.Kernel.Participation.{is_checksum, normalize_participation_result, read_result}
use stadtstack.Kernel.Actors.{normalize_actor_fields, normalize_civic_actor}
use stadtstack.Kernel.Config.{actor_registry}
use stadtstack.Kernel.Discussions.{
  dispatch_discussion, store_discussion, discussion_provenance, dispatch_suggestion,
}
use stadtstack.Kernel.Packages.{
  dispatch_submission, submit, dispatch_response, review as kernel_review, dispatch_review,
  dispatch_brief,
}
use stadtstack.Kernel.Dispatch.{
  dispatch, authenticate, dispatch_result, store_result, dispatch_participation,
}
use stadtstack.Kernel.Project.{project_for}
use stadtstack.City.Requests.{
  required_string, assert_request_keys, assert_profile_caller, registered_caller,
  assert_nested_keys, normalize_response,
}
use stadtstack.City.Ingestion.{ingest_discussion, ingestion_request, received, pass_discussion}
use stadtstack.City.Operations.{
  craft, suggestion_request, projection_suggestion, submit_to_administration, submission_request,
  submission_receipt, record_response, response_request, respond, pass_response, forget_reviews,
  response_from_projection, review_response, review_request, pass_review,
}
use stadtstack.City.Publishing.{
  publish_reviewed_brief, publication_request, publish, publication_receipt,
  record_reviewed_participation, participation_request, pass_participation, participation_receipt,
}
use stadtstack.Kernel.State.{initial_state, update_first}
use stadtstack.Kernel.Config.{snapshot_civic_kernel_config}
use stadtstack.Kernel.Samples.{
  sample_config, sample_clock, published, participation_envelope, result_input,
}
use stadtstack.City.Config.{
  normalize_config, kernel_input, kernel_actors, read_city_actor, add_actors,
  resolve_department_actors, matching_actors,
}
use stadtstack.City.State.{PlaneState, initial_plane, dispatched}
use stadtstack.City.Runs.{
  CityRequest, ingestion, craft_request, submission, response, review, publication, participation,
  perform,
}
use stadtstack.City.Samples.{
  sample_city, sample_city_input, sample_address, sample_adapter, sample_receipt,
  ingestion_of_event, bench_request, submit_request, reply_request, assess_request, brief_request,
}

unfoldable perform_all : PlaneState → List CityRequest → PlaneState
unfolding perform initial_plane ingest_discussion ingestion_request received pass_discussion
    required_string assert_request_keys assert_profile_caller registered_caller assert_nested_keys
    normalize_response craft suggestion_request projection_suggestion submit_to_administration
    submission_request submission_receipt record_response response_request respond pass_response
    forget_reviews response_from_projection review_response review_request pass_review
    publish_reviewed_brief publication_request publish publication_receipt
    record_reviewed_participation participation_request pass_participation participation_receipt
    dispatched dispatch initial_state authenticate normalize_actor_fields normalize_civic_actor
    own_keys get has_own trim is_blank actor_registry from_entries insert lookup truthy
    dispatch_discussion store_discussion discussion_provenance dispatch_suggestion
    dispatch_submission submit update_first dispatch_response kernel_review dispatch_review
    dispatch_brief dispatch_participation dispatch_result store_result
    normalize_participation_result participation_result_shape no_raw_values read_result is_checksum
    has_no_duplicates sum_double add_double round_double items project_for
perform_all s [] = s
perform_all s (r ∷ rs) =
    perform_all (perform sample_adapter sample_clock sample_city sample_config s r) rs

abbrev publication_flow : List CityRequest
publication_flow =
    ingestion ingestion_of_event (ok sample_receipt)
    ∷ craft_request bench_request
    ∷ submission submit_request
    ∷ response reply_request
    ∷ review assess_request
    ∷ publication brief_request
    ∷ []

brief_published : (perform_all initial_plane publication_flow).kernel ≡ published
unfolding perform_all
brief_published = refl

city_accepted : normalize_config sample_address sample_city_input ≡ ok sample_city
unfolding perform_all normalize_config add_actors read_city_actor resolve_department_actors
    matching_actors
city_accepted = refl

kernel_accepted : snapshot_civic_kernel_config (kernel_input sample_city) ≡ ok sample_config
unfolding perform_all snapshot_civic_kernel_config kernel_input kernel_actors
kernel_accepted = refl
