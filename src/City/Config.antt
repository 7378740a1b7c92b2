-- ===== src/City/Config.antt =====
-- `normalizeConfig` and the kernel's input that `createCityControlPlane` makes of it. The relay's
-- address stands as a parameter: `isAllowedNostrRelayUrl` and the platform's `URL` as a function
-- that gives the normalized address, or nothing where the address is forbidden.
use stadtstack.Base.{
  String, Bool, false, not, ◌&&◌, ◌||◌, Option, none, some, List, [], ◌∷◌, map, any, if◌then◌else◌,
  ◌==◌, lookup, insert, contains, has_no_duplicates, is_empty, is_some, Result, ok, err, ◌>>=◌,
  ◌>>◌, guard, or_fail, each, traverse, foldr,
}
use stadtstack.Regex.{Regex, test, seq, start, end as text_end, char_in, times, between}
use stadtstack.Value.{
  Key, name, symbol, Value, undefined, str, arr, obj, nil, cons, end, field, get, own_keys, items,
  as_record, is_text,
}
use stadtstack.Kernel.Types.{Role, department_agent, department_reviewer}
use stadtstack.Kernel.Actors.{parse_role, needs_department, role_code, role_eq, optional_eq}
use stadtstack.Kernel.Config.{ConfigInput, given_departments}
use stadtstack.City.Types.{
  CityRole, civic, council_member, public_viewer, ActorRecord, CityConfig, CityError,
  municipality_id_required, case_id_required, department_id_required, departments_required,
  departments_unique, nostr_relay_url_required, nostr_relay_external_url_forbidden,
  nostr_relay_fixture_marker_invalid, nostr_relay_signer_allowlist_required,
  nostr_relay_signer_invalid, actors_required, actor_invalid, actor_id_required,
  actor_field_forbidden, actor_role_invalid, actor_department_invalid, actor_department_required,
  actor_department_forbidden, actor_duplicate, department_actor_required,
  department_actor_not_unique, departments_not_independent, companion_identities_required,
  worker_identity_unique, worker_identity_required,
}
use stadtstack.City.Requests.{required_string}

abbrev parse_city_role : String → Option CityRole
parse_city_role s =
    if s == "council_member"
    then some council_member
    else if s == "public_viewer"
    then some public_viewer
    else elim (parse_role s) [ none ↦ none | some r ↦ some (civic r) ]

city_role_value : Value → Option CityRole
city_role_value (str s) = parse_city_role s
city_role_value _ = none

-- `Object.keys` leaves symbols out.
abbrev foreign_key : Key → Bool
foreign_key (name k) = not (contains k ("id" ∷ "role" ∷ "departmentId" ∷ []))
foreign_key (symbol s) = false

given_department : Value → Result CityError (Option String)
given_department undefined = ok none
given_department v = required_string v actor_department_invalid >>= λ d. ok (some d)

abbrev pub city_role_needs_department : CityRole → Bool
city_role_needs_department (civic r) = needs_department r
city_role_needs_department _ = false

-- The body of the loop over `config.actors`, up to `addActor`.
unfoldable pub read_city_actor : Value → Result CityError ActorRecord
unfolding city_role_value given_department
read_city_actor entry = do
  fields ← or_fail (as_record entry) actor_invalid
  guard (not (any foreign_key (own_keys fields))) actor_field_forbidden
  id ← required_string (get "id" fields) actor_id_required
  role ← or_fail (city_role_value (get "role" fields)) actor_role_invalid
  department_id ← given_department (get "departmentId" fields)
  guard (not (city_role_needs_department role) || is_some department_id) actor_department_required
  guard (city_role_needs_department role || not (is_some department_id)) actor_department_forbidden
  ok (record { id = id; role = role; department_id = department_id })

unfoldable pub add_actors :
    List (String × ActorRecord) → List Value → Result CityError (List (String × ActorRecord))
add_actors actors [] = ok actors
add_actors actors (entry ∷ entries) = do
  actor ← read_city_actor entry
  guard (not (is_some (lookup actor.id actors))) (actor_duplicate actor.id)
  add_actors (insert actor.id actor actors) entries

abbrev pub works_as : Role → String → ActorRecord → Bool
works_as role department actor =
    elim actor.role [ civic r ↦ role_eq r role | council_member ↦ false | public_viewer ↦ false ]
    && optional_eq actor.department_id (some department)

-- The ids of the actors in the role and the department.
unfoldable pub matching_actors : Role → String → List (String × ActorRecord) → List String
matching_actors role department [] = []
matching_actors role department ((_, actor) ∷ actors) =
    let rest = matching_actors role department actors in
    if works_as role department actor then actor.id ∷ rest else rest

abbrev pub sole : List String → Option String
sole (candidate ∷ []) = some candidate
sole _ = none

-- The loop of `resolveDepartmentActors`, with `output` as it stands.
unfoldable pub resolve_department_actors :
    List (String × ActorRecord)
    → Role
    → List (String × String)
    → List String
    → Result CityError (List (String × String))
resolve_department_actors actors role output [] = ok output
resolve_department_actors actors role output (department ∷ departments) = do
  candidate ←
      or_fail (sole (matching_actors role department actors))
        (department_actor_required role department)
  guard (not (is_some (lookup department output) || contains candidate (map (λ p. p.1) output)))
      (department_actor_not_unique role department)
  resolve_department_actors actors role (insert department candidate output) departments

abbrev pub independent_department :
    List (String × String) → List (String × String) → String → Result CityError (Unit {0})
independent_department agents reviewers department =
    guard (not (optional_eq (lookup department agents) (lookup department reviewers)))
      (departments_not_independent department)

-- `^[0-9a-f]{64}$`
signer_pattern : Regex
signer_pattern =
    seq start (seq (times 64 (char_in (λ c. between b'0' b'9' c || between b'a' b'f' c))) text_end)

is_signer : String → Bool
unfolding signer_pattern test
is_signer s = test signer_pattern s

-- `STADTSTACK_E2E_FIXTURE_TAG`, the only marker that is admitted.
pub is_fixture_marker : Value → Bool
is_fixture_marker (arr (cons a (cons b nil))) = is_text "t" a && is_text "stadtstack-e2e-fixture" b
is_fixture_marker _ = false

pub read_signers : Value → Result CityError (List String)
unfolding is_signer
read_signers (arr vs) = do
  signers ← traverse (λ v. required_string v nostr_relay_signer_invalid) (items vs)
  guard (not (is_empty signers) && not (any (λ s. not (is_signer s)) signers))
      nostr_relay_signer_allowlist_required
  ok signers
read_signers _ = err nostr_relay_signer_allowlist_required

pub read_actor_entries : Value → Result CityError (List Value)
read_actor_entries (arr vs) = do guard (not (is_empty (items vs))) actors_required; ok (items vs)
read_actor_entries _ = err actors_required

pub read_identities : Value → Result CityError (List String)
read_identities v = do
  fields ← or_fail (as_record v) companion_identities_required
  a ← required_string (get "administration" fields) (worker_identity_required "administration")
  c ← required_string (get "council" fields) (worker_identity_required "council")
  p ← required_string (get "public" fields) (worker_identity_required "public")
  guard (has_no_duplicates (a ∷ c ∷ p ∷ [])) worker_identity_unique
  ok (a ∷ c ∷ p ∷ [])

-- The configuration as given; `departments` is `none` where the source reads undefined.
pub record CityConfigInput : Type 0 where
  pub municipality_id : Value
  pub case_id : Value
  pub departments : Option (List Value)
  pub relay_url : Value
  pub allowed_signer_pubkeys : Value
  pub fixture_marker : Value
  pub companion_identities : Value
  pub actors : Value

unfoldable pub normalize_config :
    (String → Option String) → CityConfigInput → Result CityError CityConfig
unfolding read_signers is_fixture_marker read_actor_entries read_identities
normalize_config relay_address input = do
  municipality_id ← required_string input.municipality_id municipality_id_required
  case_id ← required_string input.case_id case_id_required
  departments ←
      traverse (λ v. required_string v department_id_required) (given_departments input.departments)
  guard (not (is_empty departments)) departments_required
  guard (has_no_duplicates departments) departments_unique
  relay_input ← required_string input.relay_url nostr_relay_url_required
  relay_url ← or_fail (relay_address relay_input) nostr_relay_external_url_forbidden
  guard (is_fixture_marker input.fixture_marker) nostr_relay_fixture_marker_invalid
  signers ← read_signers input.allowed_signer_pubkeys
  entries ← read_actor_entries input.actors
  actors ← add_actors [] entries
  agents ← resolve_department_actors actors department_agent [] departments
  reviewers ← resolve_department_actors actors department_reviewer [] departments
  each (independent_department agents reviewers) departments
  identities ← read_identities input.companion_identities
  ok (record {
    municipality_id = municipality_id;
    case_id = case_id;
    departments = departments;
    relay_url = relay_url;
    allowed_signer_pubkeys = signers;
    actors = actors;
    department_agents = agents;
    department_reviewers = reviewers;
    companion_identities = identities;
  })

-- `roleActor`: an actor envelope.
abbrev pub role_actor : String → Role → Option String → Value
role_actor id role none =
    obj (field (name "id") (str id) (field (name "role") (str (role_code role)) end))
role_actor id role (some department) = obj (
    field (name "id") (str id) (
      field (name "role") (str (role_code role))
        (field (name "departmentId") (str department) end)))

-- The actors with a kernel role, as envelopes.
unfoldable pub kernel_actors : List (String × ActorRecord) → List Value
kernel_actors [] = []
kernel_actors ((_, actor) ∷ actors) =
    let rest = kernel_actors actors in
    elim actor.role [
      | civic r ↦ role_actor actor.id r actor.department_id ∷ rest
      | council_member ↦ rest
      | public_viewer ↦ rest
    ]

abbrev pub item_values : List Value → Value
item_values vs = arr (foldr (λ v rest. cons v rest) nil vs)

-- What `createCivicKernel` is given.
unfoldable pub kernel_input : CityConfig → ConfigInput
kernel_input config = record {
  municipality_id = str config.municipality_id;
  case_id = str config.case_id;
  departments = some (map (λ d. str d) config.departments);
  actors = item_values (kernel_actors config.actors);
}
