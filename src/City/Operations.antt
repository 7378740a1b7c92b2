-- ===== src/City/Operations.antt =====
-- The operations of `createCityControlPlane` on suggestions and department responses, each with its
-- own order of checks and writes.
use Prim.Native.String
use text.Mathlib.Text.{starts_with}
use stadtstack.Base.{
  ℕ, String, Bool, true, false, not, ◌&&◌, Option, none, some, List, [], ◌∷◌, ◌++◌, if◌then◌else◌,
  ◌==◌, find, contains, lookup, insert, Result, ok, err, ◌>>=◌, ◌>>◌, guard, or_fail,
}
use stadtstack.Value.{Value, get, as_record}
use stadtstack.Kernel.Types.{
  citizen, case_steward, department_agent, department_reviewer, CivicKernelConfig, Suggestion,
  DepartmentWorkPackage, CivicProjection, craft_suggestion, submit_suggestion_for_administration,
  record_department_response, review_department_response,
}
use stadtstack.Kernel.Actors.{optional_eq}
use stadtstack.Kernel.Packages.{has_id}
use stadtstack.Kernel.Project.{administration, public, project_for}
use stadtstack.City.Types.{
  civic, ActorRecord, CityConfig, SubmissionReceipt, CityError, suggestion_required,
  suggestion_id_required, suggestion_discussion_required, suggestion_title_required,
  suggestion_not_found, department_work_package_required, department_work_package_not_found,
  department_agent_scope_mismatch, department_reviewer_scope_mismatch, department_response_conflict,
  department_reviewer_independence,
}
use stadtstack.City.Requests.{
  required_string, read_request, assert_request_keys, assert_nested_keys, assert_profile_caller,
  ResponseInput, normalize_response,
}
use stadtstack.City.Config.{role_actor}
use stadtstack.City.State.{PlaneState, Outcome, by_entry, checked, dispatched}

unfoldable pub projection_suggestion : CivicProjection → String → Result CityError Suggestion
projection_suggestion projection id =
    or_fail (find (λ x. x.id == id) projection.suggestions) suggestion_not_found

-- `projection.departmentWorkPackages ?? []`
abbrev pub packages_of : CivicProjection → List DepartmentWorkPackage
packages_of projection = elim projection.department_work_packages [ none ↦ [] | some ps ↦ ps ]

unfoldable pub response_from_projection :
    CivicProjection → String → Result CityError DepartmentWorkPackage
response_from_projection projection id =
    or_fail (find (has_id id) (packages_of projection)) department_work_package_not_found

-- A key of `responseReviews`: `${workPackageId}:${actorId}`.
abbrev pub review_key : String → String → String
review_key work_package_id actor_id = String.◌++◌ work_package_id (String.◌++◌ ":" actor_id)

-- The loop that deletes a package's reviews.
unfoldable pub forget_reviews : String → List String → List String
forget_reviews prefix [] = []
forget_reviews prefix (key ∷ keys) =
    let rest = forget_reviews prefix keys in if starts_with key prefix then rest else key ∷ rest

abbrev pub same_texts : List String → List String → Bool
same_texts [] [] = true
same_texts (x ∷ xs) (y ∷ ys) = x == y && same_texts xs ys
same_texts _ _ = false

-- `canonical(a) === canonical(b)`
abbrev pub same_response : ResponseInput → ResponseInput → Bool
same_response a b = a.summary == b.summary && same_texts a.citations b.citations

module _ (clock : String → Option ℕ) (city : CityConfig) (config : CivicKernelConfig) where
  abbrev pub as_administration : PlaneState → CivicProjection
  as_administration s = project_for config s.kernel administration

  abbrev pub as_public : PlaneState → CivicProjection
  as_public s = project_for config s.kernel public

  -- The caller, and the id, the discussion and the title of the suggestion.
  unfoldable pub suggestion_request :
      Value → Result CityError (ActorRecord × String × String × String)
  suggestion_request raw = do
    request ← read_request raw
    assert_request_keys request ("callerId" ∷ "suggestion" ∷ [])
    actor ← assert_profile_caller city request (civic citizen ∷ [])
    source ← or_fail (as_record (get "suggestion" request)) suggestion_required
    assert_nested_keys source ("id" ∷ "discussionId" ∷ "title" ∷ []) "suggestion"
    id ← required_string (get "id" source) suggestion_id_required
    discussion_id ← required_string (get "discussionId" source) suggestion_discussion_required
    title ← required_string (get "title" source) suggestion_title_required
    ok (actor, id, discussion_id, title)

  unfoldable pub craft : PlaneState → Value → Outcome Suggestion
  craft s raw = checked s (suggestion_request raw) (λ (actor, id, discussion_id, title).
      dispatched clock config s
        (craft_suggestion (role_actor actor.id citizen none) id discussion_id title)
        (λ t. record { state = t; answer = projection_suggestion (as_administration t) id }))

  unfoldable pub submission_request : Value → Result CityError (ActorRecord × String)
  submission_request raw = do
    request ← read_request raw
    assert_request_keys request ("callerId" ∷ "suggestionId" ∷ [])
    actor ← assert_profile_caller city request (civic case_steward ∷ [])
    id ← required_string (get "suggestionId" request) suggestion_id_required
    ok (actor, id)

  unfoldable pub submission_receipt : PlaneState → String → Result CityError SubmissionReceipt
  submission_receipt t id = do
    suggestion ← projection_suggestion (as_administration t) id
    ok (record {
      suggestion = suggestion;
      department_work_packages = packages_of (as_administration t);
    })

  unfoldable pub submit_to_administration : PlaneState → Value → Outcome SubmissionReceipt
  submit_to_administration s raw = checked s (submission_request raw) (λ (actor, id).
      dispatched clock config s
        (submit_suggestion_for_administration (role_actor actor.id case_steward none) id)
        (λ t. record { state = t; answer = submission_receipt t id }))

  -- The caller, the id of the work package and the response.
  unfoldable pub response_request :
      PlaneState → Value → Result CityError (ActorRecord × String × ResponseInput)
  response_request s raw = do
    request ← read_request raw
    assert_request_keys request ("callerId" ∷ "workPackageId" ∷ "response" ∷ [])
    actor ← assert_profile_caller city request (civic department_agent ∷ [])
    id ← required_string (get "workPackageId" request) department_work_package_required
    work_package ← response_from_projection (as_administration s) id
    guard
        (optional_eq actor.department_id (some work_package.department_id)
          && optional_eq (lookup work_package.department_id city.department_agents) (some actor.id))
        department_agent_scope_mismatch
    response ← normalize_response (get "response" request)
    ok (actor, id, response)

  -- `kernel.dispatch` of a response, the entry in the ledger, and the receipt.
  unfoldable pub pass_response :
      PlaneState → ActorRecord → String → ResponseInput → Outcome DepartmentWorkPackage
  pass_response s actor id response =
      dispatched clock config s
        (record_department_response (role_actor actor.id department_agent actor.department_id) id
          response.summary response.citations)
        (λ t.
          let u : PlaneState = record t {
            response_inputs =
                insert id (record { actor_id = actor.id; response = response }) t.response_inputs;
          } in
          record { state = u; answer = response_from_projection (as_administration u) id })

  unfoldable pub respond :
      PlaneState → ActorRecord → String → ResponseInput → Outcome DepartmentWorkPackage
  respond s actor id response =
      by_entry (lookup id s.response_inputs)
        (pass_response (record s { published_brief = none }) actor id response)
        (λ entry.
          if not (entry.actor_id == actor.id)
          then record { state = s; answer = err department_response_conflict }
          else if same_response entry.response response
          then record { state = s; answer = response_from_projection (as_administration s) id }
          else pass_response
              (record s {
                published_brief = none;
                response_reviews = forget_reviews (review_key id "") s.response_reviews;
              })
              actor id response)

  unfoldable pub record_response : PlaneState → Value → Outcome DepartmentWorkPackage
  record_response s raw =
      checked s (response_request s raw) (λ (actor, id, response). respond s actor id response)

  unfoldable pub review_request : PlaneState → Value → Result CityError (ActorRecord × String)
  review_request s raw = do
    request ← read_request raw
    assert_request_keys request ("callerId" ∷ "workPackageId" ∷ [])
    actor ← assert_profile_caller city request (civic department_reviewer ∷ [])
    id ← required_string (get "workPackageId" request) department_work_package_required
    work_package ← response_from_projection (as_administration s) id
    guard
        (optional_eq actor.department_id (some work_package.department_id)
          && optional_eq (lookup work_package.department_id city.department_reviewers)
              (some actor.id))
        department_reviewer_scope_mismatch
    guard
        (elim (lookup id s.response_inputs) [
          | none ↦ true
          | some entry ↦ not (entry.actor_id == actor.id)
        ])
        department_reviewer_independence
    ok (actor, id)

  unfoldable pub pass_review : PlaneState → ActorRecord → String → Outcome DepartmentWorkPackage
  pass_review s actor id =
      if contains (review_key id actor.id) s.response_reviews
      then record { state = s; answer = response_from_projection (as_administration s) id }
      else dispatched clock config s
          (review_department_response (role_actor actor.id department_reviewer actor.department_id)
            id)
          (λ t.
            let u : PlaneState = record t {
              response_reviews = t.response_reviews ++ review_key id actor.id ∷ [];
            } in
            record { state = u; answer = response_from_projection (as_administration u) id })

  unfoldable pub review_response : PlaneState → Value → Outcome DepartmentWorkPackage
  review_response s raw = checked s (review_request s raw) (λ (actor, id). pass_review s actor id)
