-- ===== src/City/Types.antt =====
-- The types of src/city-control-plane.ts. The constants of a receipt (`authorityBinding: "none"`,
-- `formalDecision: null`, `publicWrite: false`) carry nothing and are left out.
use stadtstack.Base.{String, Option, List, Bool, ◌==◌, any}
use stadtstack.Value.{Key}
use stadtstack.Kernel.Types.{
  Role, Suggestion, DepartmentWorkPackage, ReviewedCitizenBrief, CivicProjection,
}
use stadtstack.Kernel.Errors.{KernelError}
use stadtstack.Kernel.Actors.{role_code}

-- A kernel role, or one of the two roles that only read.
pub data CityRole : Type 0 where
  civic : Role → CityRole
  council_member public_viewer : CityRole

-- Roles are texts in the source, compared by `===`.
abbrev pub city_role_code : CityRole → String
city_role_code (civic r) = role_code r
city_role_code council_member = "council_member"
city_role_code public_viewer = "public_viewer"

-- `allowedRoles.includes(role)`
abbrev pub includes_role : List CityRole → CityRole → Bool
includes_role roles role = any (λ r. city_role_code r == city_role_code role) roles

pub record ActorRecord : Type 0 where
  pub id : String
  pub role : CityRole
  pub department_id : Option String

pub record CityConfig : Type 0 where
  pub municipality_id : String
  pub case_id : String
  pub departments : List String
  pub relay_url : String
  pub allowed_signer_pubkeys : List String
  pub actors : List (String × ActorRecord)
  pub department_agents : List (String × String)
  pub department_reviewers : List (String × String)
  pub companion_identities : List String

pub record SubmissionReceipt : Type 0 where
  pub suggestion : Suggestion
  pub department_work_packages : List DepartmentWorkPackage

pub record PublishedBriefReceipt : Type 0 where
  pub brief : ReviewedCitizenBrief
  pub administration : CivicProjection
  pub public_projection : CivicProjection

pub data CityError : Type 0 where
  kernel_error : KernelError → CityError
  city_control_request_invalid caller_field_forbidden actor_id_required : CityError
  actor_role_self_assertion actor_not_registered actor_role_forbidden : CityError
  actor_profile_forbidden viewer_profile_invalid : CityError
  city_control_request_field_forbidden : Option String → Key → CityError
  suggestion_required suggestion_id_required suggestion_discussion_required : CityError
  suggestion_title_required suggestion_not_found : CityError
  department_work_package_required department_work_package_not_found : CityError
  department_agent_scope_mismatch department_reviewer_scope_mismatch : CityError
  department_response_invalid department_response_summary_required : CityError
  department_response_citation_required department_response_conflict : CityError
  department_reviewer_independence : CityError
  brief_summary_required brief_conflict reviewed_brief_missing : CityError
  participation_result_required participation_result_conflict : CityError
  participation_result_missing reviewed_citizen_brief_required : CityError
  municipality_id_required case_id_required department_id_required : CityError
  departments_required departments_unique nostr_relay_url_required : CityError
  nostr_relay_external_url_forbidden nostr_relay_fixture_marker_invalid : CityError
  nostr_relay_signer_allowlist_required nostr_relay_signer_invalid : CityError
  actors_required actor_invalid actor_field_forbidden actor_role_invalid : CityError
  actor_department_invalid actor_department_required actor_department_forbidden : CityError
  actor_duplicate : String → CityError
  department_actor_required department_actor_not_unique : Role → String → CityError
  departments_not_independent : String → CityError
  companion_identities_required worker_identity_unique : CityError
  worker_identity_required : String → CityError
  nostr_relay_event_invalid nostr_relay_signer_not_allowed : CityError
  discussion_id_invalid discussion_id_mismatch discussion_relay_invalid : CityError
  nostr_relay_query_event_id_required nostr_relay_event_id_mismatch : CityError
  dependency_error : String → CityError
