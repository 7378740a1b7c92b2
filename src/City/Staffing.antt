-- ===== src/City/Staffing.antt =====
-- Every department of an accepted configuration has its agent and its reviewer.
use stadtstack.Base.{
  String, false, not, Option, some, List, [], ◌∷◌, ◌≡◌, ◌≢◌, refl, subst, arith, eq_iff, lookup,
  insert, lookup-insert, All, Bool-cases, Option-cases, inl, inr, Result, ok, guard, or_fail, each,
  traverse, >>=-eq-ok, is_empty, has_no_duplicates,
}
use stadtstack.Kernel.Types.{Role, department_agent, department_reviewer}
use stadtstack.Kernel.Actors.{optional_eq}
use stadtstack.Kernel.Config.{given_departments}
use stadtstack.City.Requests.{required_string}
use stadtstack.City.Types.{
  ActorRecord, CityConfig, CityError, municipality_id_required, case_id_required,
  department_id_required, departments_required, departments_unique, nostr_relay_url_required,
  nostr_relay_external_url_forbidden, nostr_relay_fixture_marker_invalid,
}
use stadtstack.City.Config.{
  CityConfigInput, normalize_config, read_signers, read_actor_entries, read_identities,
  is_fixture_marker, add_actors, matching_actors, sole, resolve_department_actors,
  independent_department,
}

-- The department has exactly one actor in the role, and the map names it.
pub record IsResolved (actors : List (String × ActorRecord)) (role : Role)
    (output : List (String × String)) (department : String) : Type 0 where
  pub id : String
  pub named : lookup department output ≡ some id
  pub only : matching_actors role department actors ≡ id ∷ []

module _ (actors : List (String × ActorRecord)) (role : Role) where
  -- What the loop has resolved stays.
  resolve-keeps :
      (output out : List (String × String)) (ds : List String) (d id : String)
      → resolve_department_actors actors role output ds ≡ ok out
      → lookup d output ≡ some id
      → lookup d out ≡ some id
  unfolding resolve_department_actors
  resolve-keeps output out [] d id h e = ground arith
  resolve-keeps output out (x ∷ ds) d id h e =
      elim (Option-cases (sole (matching_actors role x actors))) [
        | inl none_or_many ↦ absurd (ground arith)
        | inr (candidate, found) ↦
            resolve-keeps (insert x candidate output) out ds d id (ground arith)
              (ground (arith, lookup-insert x d candidate output, eq_iff x d))
      ]

  resolve-IsResolved :
      (output out : List (String × String)) (ds : List String)
      → resolve_department_actors actors role output ds ≡ ok out
      → All (IsResolved actors role out) ds
  unfolding resolve_department_actors
  resolve-IsResolved output out [] h = tt
  resolve-IsResolved output out (x ∷ ds) h =
      elim (Option-cases (sole (matching_actors role x actors))) [
        | inl none_or_many ↦ absurd (ground arith)
        | inr (candidate, found) ↦
            let rest : resolve_department_actors actors role (insert x candidate output) ds
                ≡ ok out =
              ground arith in
            (
              record {
                id = candidate;
                named =
                    resolve-keeps (insert x candidate output) out ds x candidate rest
                      (ground (arith, lookup-insert x x candidate output, eq_iff x x));
                only = sole_lem (matching_actors role x actors) candidate found;
              },
              resolve-IsResolved (insert x candidate output) out ds rest,
            )
      ]
    where
      sole_lem : (ids : List String) (id : String) → sole ids ≡ some id → ids ≡ id ∷ []
      sole_lem [] id e = cc
      sole_lem (i ∷ []) id e = ground arith
      sole_lem (i ∷ j ∷ ids) id e = cc

-- A department with one agent and one reviewer, who are two actors.
pub record IsStaffed (c : CityConfig) (department : String) : Type 0 where
  pub agent : IsResolved c.actors department_agent c.department_agents department
  pub reviewer : IsResolved c.actors department_reviewer c.department_reviewers department
  pub independent : agent.id ≢ reviewer.id

each_independent :
    (agents reviewers : List (String × String)) (ds : List String)
    → each (independent_department agents reviewers) ds ≡ ok tt
    → All (λ d. optional_eq (lookup d agents) (lookup d reviewers) ≡ false) ds
each_independent agents reviewers [] h = tt
each_independent agents reviewers (d ∷ ds) h =
    elim (Bool-cases (optional_eq (lookup d agents) (lookup d reviewers))) [
      | inl same ↦ absurd (ground arith)
      | inr other ↦ (other, each_independent agents reviewers ds (ground arith))
    ]

staffed :
    (c : CityConfig) (ds : List String)
    → All (IsResolved c.actors department_agent c.department_agents) ds
    → All (IsResolved c.actors department_reviewer c.department_reviewers) ds
    → All
        (λ d. optional_eq (lookup d c.department_agents) (lookup d c.department_reviewers) ≡ false)
        ds
    → All (IsStaffed c) ds
staffed c [] a r i = tt
staffed c (d ∷ ds) a r i = (
  record {
    agent = a.0;
    reviewer = r.0;
    independent = λ same. ground (arith, a.0.named, r.0.named, i.0, same, eq_iff a.0.id r.0.id);
  },
  staffed c ds a.1 r.1 i.1,
)

-- The last steps of `normalizeConfig`, on the parts that it keeps.
record IsConfigured (c : CityConfig) : Type 0 where
  agents :
      resolve_department_actors c.actors department_agent [] c.departments ≡ ok c.department_agents
  reviewers :
      resolve_department_actors c.actors department_reviewer [] c.departments
      ≡ ok c.department_reviewers
  independent :
      each (independent_department c.department_agents c.department_reviewers) c.departments ≡ ok tt

ok_injective : {a b : CityConfig} (m : Result CityError CityConfig) → m ≡ ok a → m ≡ ok b → a ≡ b
ok_injective m h k = cc

normalize_config-IsConfigured :
    (relay_address : String → Option String) (input : CityConfigInput) (c : CityConfig)
    → normalize_config relay_address input ≡ ok c
    → IsConfigured c
unfolding normalize_config
normalize_config-IsConfigured relay_address input c h =
    let (m, _, h) =
      >>=-eq-ok (required_string input.municipality_id municipality_id_required) _ h in
    let (k, _, h) = >>=-eq-ok (required_string input.case_id case_id_required) _ h in
    let (ds, _, h) =
      >>=-eq-ok
        (traverse (λ v. required_string v department_id_required)
          (given_departments input.departments))
        _ h in
    let (_, _, h) = >>=-eq-ok (guard (not (is_empty ds)) departments_required) _ h in
    let (_, _, h) = >>=-eq-ok (guard (has_no_duplicates ds) departments_unique) _ h in
    let (relay, _, h) = >>=-eq-ok (required_string input.relay_url nostr_relay_url_required) _ h in
    let (url, _, h) =
      >>=-eq-ok (or_fail (relay_address relay) nostr_relay_external_url_forbidden) _ h in
    let (_, _, h) =
      >>=-eq-ok (guard (is_fixture_marker input.fixture_marker) nostr_relay_fixture_marker_invalid)
        _ h in
    let (signers, _, h) = >>=-eq-ok (read_signers input.allowed_signer_pubkeys) _ h in
    let (entries, _, h) = >>=-eq-ok (read_actor_entries input.actors) _ h in
    let (actors, _, h) = >>=-eq-ok (add_actors [] entries) _ h in
    let (agents, a, h) = >>=-eq-ok (resolve_department_actors actors department_agent [] ds) _ h in
    let (reviewers, r, h) =
      >>=-eq-ok (resolve_department_actors actors department_reviewer [] ds) _ h in
    let (u, i, h) = >>=-eq-ok (each (independent_department agents reviewers) ds) _ h in
    let (identities, _, made) = >>=-eq-ok (read_identities input.companion_identities) _ h in
    subst IsConfigured (ok_injective _ refl made)
      (record { agents = a; reviewers = r; independent = i })

-- In an accepted configuration every department has exactly one agent and exactly one reviewer, the
-- maps of agents and reviewers name them, and they are two actors.
pub normalize_config-IsStaffed :
    (relay_address : String → Option String) (input : CityConfigInput) (c : CityConfig)
    → normalize_config relay_address input ≡ ok c
    → All (IsStaffed c) c.departments
normalize_config-IsStaffed relay_address input c h =
    let v = normalize_config-IsConfigured relay_address input c h in
    staffed c c.departments
      (resolve-IsResolved c.actors department_agent [] c.department_agents c.departments v.agents)
      (resolve-IsResolved c.actors department_reviewer [] c.department_reviewers c.departments
        v.reviewers)
      (each_independent c.department_agents c.department_reviewers c.departments v.independent)
