-- ===== src/City/Requests.antt =====
-- The checks of src/city-control-plane.ts on requests and callers.
use stadtstack.Base.{
  String, not, ◌||◌, Option, none, some, List, [], ◌∷◌, lookup, contains, is_empty, Result, ok, err,
  ◌>>=◌, ◌>>◌, guard, or_fail, each, traverse,
}
use stadtstack.Value.{
  Key, name, symbol, Value, arr, Fields, get, has_own, own_keys, items, as_record, full_text,
}
use stadtstack.Kernel.Types.{
  citizen, case_steward, department_agent, department_reviewer, participation_reviewer, publisher,
}
use stadtstack.Kernel.Project.{ViewerRole, administration, council, public}
use stadtstack.City.Types.{
  CityRole, civic, council_member, public_viewer, includes_role, ActorRecord, CityConfig, CityError,
  city_control_request_invalid, caller_field_forbidden, actor_id_required,
  actor_role_self_assertion, actor_not_registered, actor_role_forbidden, actor_profile_forbidden,
  city_control_request_field_forbidden, department_response_invalid,
  department_response_summary_required, department_response_citation_required,
}

unfoldable pub required_string : Value → CityError → Result CityError String
required_string v e = or_fail (full_text v) e

abbrev pub read_request : Value → Result CityError Fields
read_request v = or_fail (as_record v) city_control_request_invalid

unfoldable pub actor_id_from_request : Fields → Result CityError String
unfolding required_string
actor_id_from_request request = do
  guard (not (has_own "actorId" request || has_own "caller" request)) caller_field_forbidden
  required_string (get "callerId" request) actor_id_required

abbrev pub assert_no_self_asserted_role : Fields → Result CityError (Unit {0})
assert_no_self_asserted_role request =
    guard
      (not (has_own "role" request || has_own "actorRole" request || has_own "callerRole" request))
      actor_role_self_assertion

check_key : Option String → List String → Key → Result CityError (Unit {0})
check_key path allowed (symbol s) = err (city_control_request_field_forbidden path (symbol s))
check_key path allowed (name k) =
    guard (contains k allowed) (city_control_request_field_forbidden path (name k))

unfoldable pub assert_request_keys : Fields → List String → Result CityError (Unit {0})
unfolding check_key
assert_request_keys request allowed = do
  assert_no_self_asserted_role request
  each (check_key none allowed) (own_keys request)

unfoldable pub assert_nested_keys : Fields → List String → String → Result CityError (Unit {0})
unfolding check_key
assert_nested_keys value allowed path = each (check_key (some path) allowed) (own_keys value)

-- The caller as a registered actor, whatever its role.
unfoldable pub registered_caller : CityConfig → Fields → Result CityError ActorRecord
unfolding actor_id_from_request
registered_caller config request = do
  assert_no_self_asserted_role request
  id ← actor_id_from_request request
  or_fail (lookup id config.actors) actor_not_registered

unfoldable pub assert_profile_caller :
    CityConfig → Fields → List CityRole → Result CityError ActorRecord
assert_profile_caller config request allowed = do
  actor ← registered_caller config request
  guard (includes_role allowed actor.role) actor_role_forbidden
  ok actor

abbrev pub profile_roles : ViewerRole → List CityRole
profile_roles administration =
    civic case_steward
    ∷ civic department_agent
    ∷ civic department_reviewer
    ∷ civic participation_reviewer
    ∷ civic publisher
    ∷ []
profile_roles council = council_member ∷ []
profile_roles public = civic citizen ∷ public_viewer ∷ []

unfoldable pub assert_profile_access :
    CityConfig → Fields → ViewerRole → Result CityError ActorRecord
assert_profile_access config request profile = do
  actor ← registered_caller config request
  guard (includes_role (profile_roles profile) actor.role) actor_profile_forbidden
  ok actor

pub record ResponseInput : Type 0 where
  pub summary : String
  pub citations : List String

-- An array of texts that are not blank, trimmed; and not empty.
given_citations : Value → Result CityError (List String)
given_citations (arr vs) = do
  guard (not (is_empty (items vs))) department_response_citation_required
  traverse (λ v. or_fail (full_text v) department_response_citation_required) (items vs)
given_citations _ = err department_response_citation_required

unfoldable pub normalize_response : Value → Result CityError ResponseInput
unfolding given_citations
normalize_response value = do
  fields ← or_fail (as_record value) department_response_invalid
  assert_nested_keys fields ("summary" ∷ "citations" ∷ []) "response"
  summary ← required_string (get "summary" fields) department_response_summary_required
  citations ← given_citations (get "citations" fields)
  ok (record { summary = summary; citations = citations })
