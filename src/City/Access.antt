-- ===== src/City/Access.antt =====
-- Who is shown which projection.
use stadtstack.Base.{
  ℕ, String, true, Option, some, ◌≡◌, ap, subst, ◌∙◌, arith, lookup, Bool-cases, Option-cases,
  Result-cases, inl, inr, ok,
}
use stadtstack.Value.{Value, Fields, get, as_record, full_text}
use stadtstack.Kernel.Types.{CivicKernelConfig, CivicProjection}
use stadtstack.Kernel.Project.{ViewerRole, project_for, parse_viewer}
use stadtstack.City.Types.{ActorRecord, CityConfig, includes_role}
use stadtstack.City.Requests.{
  registered_caller, assert_profile_access, profile_roles, actor_id_from_request, required_string,
}
use stadtstack.City.State.{PlaneState}
use stadtstack.City.Publishing.{project_profile}

-- The caller is registered under the id that the request gives, and its role may see the profile.
pub record MaySee (city : CityConfig) (raw : Value) (actor : ActorRecord) (profile : ViewerRole)
    : Type 0 where
  pub request : Fields
  pub given : as_record raw ≡ some request
  pub id : String
  pub caller : full_text (get "callerId" request) ≡ some id
  pub registered : lookup id city.actors ≡ some actor
  pub admitted : includes_role (profile_roles profile) actor.role ≡ true

registered_caller_lem :
    (city : CityConfig) (request : Fields) (actor : ActorRecord)
    → registered_caller city request ≡ ok actor
    → (id : String) × (full_text (get "callerId" request) ≡ some id)
      × (lookup id city.actors ≡ some actor)
unfolding registered_caller actor_id_from_request required_string
registered_caller_lem city request actor h =
    elim (Option-cases (full_text (get "callerId" request))) [
      | inl missing ↦ absurd (ground arith)
      | inr (id, given) ↦ (id, given, ground arith)
    ]

assert_profile_access_lem :
    (city : CityConfig) (request : Fields) (profile : ViewerRole) (actor : ActorRecord)
    → assert_profile_access city request profile ≡ ok actor
    → (registered_caller city request ≡ ok actor)
      × (includes_role (profile_roles profile) actor.role ≡ true)
unfolding assert_profile_access
assert_profile_access_lem city request profile actor h =
    elim (Result-cases (registered_caller city request)) [
      | inl (e, fails) ↦ absurd (ground arith)
      | inr (a, called) ↦
          let test = Bool-cases (includes_role (profile_roles profile) a.role) in
          elim test [
            | inl admitted ↦
                let same : a ≡ actor = ground arith in
                (
                  called ∙ ap ok same,
                  subst (λ x. includes_role (profile_roles profile) x.role ≡ true) same admitted,
                )
            | inr refused ↦ absurd (ground arith)
          ]
    ]

module _ (clock : String → Option ℕ) (city : CityConfig) (config : CivicKernelConfig) where
  -- A projection is given only to a caller that the request names, that is registered, and whose
  -- role may see the profile; and it is the kernel's projection for that profile.
  pub project_profile-MaySee :
      (s : PlaneState) (raw : Value) (p : CivicProjection)
      → project_profile clock city config s raw ≡ ok p
      → (actor : ActorRecord) × (profile : ViewerRole) × MaySee city raw actor profile
        × (p ≡ project_for config s.kernel profile)
  unfolding project_profile required_string
  project_profile-MaySee s raw p h = elim (Option-cases (as_record raw)) [
    | inl invalid ↦ absurd (ground arith)
    | inr (request, given) ↦ elim (Option-cases (full_text (get "profile" request))) [
      | inl missing ↦ absurd (ground arith)
      | inr (text, named) ↦ elim (Option-cases (parse_viewer text)) [
        | inl unknown ↦ absurd (ground arith)
        | inr (profile, parsed) ↦ elim (Result-cases (assert_profile_access city request profile)) [
          | inl (e, fails) ↦ absurd (ground arith)
          | inr (actor, allowed) ↦
              let (called, admitted) =
                assert_profile_access_lem city request profile actor allowed in
              let (id, caller, registered) = registered_caller_lem city request actor called in
              (
                actor,
                profile,
                record {
                  request = request;
                  given = given;
                  id = id;
                  caller = caller;
                  registered = registered;
                  admitted = admitted;
                },
                ground arith,
              )
        ]
      ]
    ]
  ]
