-- ===== src/Kernel/Authority.antt =====
-- Who may change the kernel's state.
use stadtstack.Base.{
  ℕ, String, true, Option, none, some, List, [], ◌∷◌, map, ◌≡◌, refl, sym, ap, ◌∙◌, arith, eq_iff,
  Entries, from_entries-Entries, Entries-lookup, lookup, IsIn, inl, inr, Option-cases, Bool-cases,
  Result, ok, ◌>>=◌, >>=-eq-ok,
}
use mathlib.Core.Option.{some-injective}
use stadtstack.Value.{Value, truthy}
use stadtstack.Kernel.Types.{
  Role, citizen, case_steward, department_agent, department_reviewer, participation_reviewer,
  publisher, CivicActor, CivicKernelConfig, CivicCommand, record_discussion, craft_suggestion,
  submit_suggestion_for_administration, record_department_response, review_department_response,
  publish_reviewed_citizen_brief, record_participation_result, record_reviewed_participation_result,
}
use stadtstack.Kernel.Errors.{KernelError}
use stadtstack.Kernel.Actors.{normalize_civic_actor, parse_role, role_code, role_eq, optional_eq}
use stadtstack.Kernel.Config.{actor_registry}
use stadtstack.Kernel.State.{KernelState}
use stadtstack.Kernel.Dispatch.{
  registered_actor, authenticate, dispatch_result, dispatch_participation, dispatch,
}
use stadtstack.Kernel.Discussions.{dispatch_discussion, dispatch_suggestion}
use stadtstack.Kernel.Packages.{
  dispatch_submission, dispatch_response, dispatch_review, dispatch_brief,
}

parse_role-role_code : (a : Role) → parse_role (role_code a) ≡ some a
parse_role-role_code citizen = refl
parse_role-role_code case_steward = refl
parse_role-role_code department_agent = refl
parse_role-role_code department_reviewer = refl
parse_role-role_code participation_reviewer = refl
parse_role-role_code publisher = refl

role_code-injective : (a b : Role) → role_code a ≡ role_code b → a ≡ b
role_code-injective a b h =
    some-injective _ _ (sym (parse_role-role_code a) ∙ ap parse_role h ∙ parse_role-role_code b)

pub role_eq-eq : (a b : Role) → role_eq a b ≡ true → a ≡ b
role_eq-eq a b h = role_code-injective a b ((eq_iff (role_code a) (role_code b)).0 h)

pub optional_eq-eq : (a b : Option String) → optional_eq a b ≡ true → a ≡ b
optional_eq-eq none none h = refl
optional_eq-eq (some a) (some b) h = ap some ((eq_iff a b).0 h)
optional_eq-eq none (some b) h = cc
optional_eq-eq (some a) none h = cc

entries-IsIn :
    (all actors : List CivicActor)
    → ((a : CivicActor) → IsIn a actors → IsIn a all)
    → Entries (λ k a. (a.id ≡ k) × IsIn a all) (map (λ a. (a.id, a)) actors)
entries-IsIn all [] f = tt
entries-IsIn all (a ∷ actors) f =
    ((refl, f a (inl refl)), entries-IsIn all actors (λ b m. f b (inr m)))

-- The registry holds the configured actors, each under its own id.
registry-Entries :
    (config : CivicKernelConfig)
    → Entries (λ k a. (a.id ≡ k) × IsIn a config.actors) (actor_registry config)
unfolding actor_registry
registry-Entries config =
    from_entries-Entries _ [] _ tt (entries-IsIn config.actors config.actors (λ a m. m))

-- An authenticated actor is the registered one that the envelope names.
pub record IsAuthentic (config : CivicKernelConfig) (value : Value) (a : CivicActor) : Type 0 where
  pub registered : IsIn a config.actors
  pub envelope : normalize_civic_actor value ≡ ok a

actor_eq :
    (a b : CivicActor) → a.id ≡ b.id → a.role ≡ b.role → a.department_id ≡ b.department_id → a ≡ b
actor_eq a b p q r = cc

registered_actor_lem :
    (config : CivicKernelConfig) (envelope a : CivicActor)
    → registered_actor config envelope ≡ ok a
    → IsIn a config.actors × (envelope ≡ a)
unfolding registered_actor
registered_actor_lem config envelope a h =
    elim (Option-cases (lookup envelope.id (actor_registry config))) [
      | inl missing ↦ absurd (ground arith)
      | inr (found, e) ↦
          let (same_id, listed) =
            Entries-lookup _ (actor_registry config) envelope.id (registry-Entries config) e in
          ground (
            arith,
            listed,
            role_eq-eq found.role envelope.role,
            optional_eq-eq found.department_id envelope.department_id,
            actor_eq envelope found,
          )
    ]

pub authenticate-IsAuthentic :
    (config : CivicKernelConfig) (value : Value) (a : CivicActor)
    → authenticate config value ≡ ok a
    → IsAuthentic config value a
unfolding authenticate
authenticate-IsAuthentic config value a h =
    let (envelope, named, found) = >>=-eq-ok (normalize_civic_actor value) _ h in
    let (listed, same) = registered_actor_lem config envelope a found in
    record { registered = listed; envelope = named ∙ ap ok same }

-- The role that each command needs, by the contract.
abbrev pub required_role : CivicCommand → Role
required_role (record_discussion a d) = citizen
required_role (craft_suggestion a i d t) = citizen
required_role (submit_suggestion_for_administration a i) = case_steward
required_role (record_department_response a i m c) = department_agent
required_role (review_department_response a i) = department_reviewer
required_role (publish_reviewed_citizen_brief a m) = publisher
required_role (record_participation_result a r) = participation_reviewer
required_role (record_reviewed_participation_result a r) = participation_reviewer

abbrev pub envelope_of : CivicCommand → Value
envelope_of (record_discussion a d) = a
envelope_of (craft_suggestion a i d t) = a
envelope_of (submit_suggestion_for_administration a i) = a
envelope_of (record_department_response a i m c) = a
envelope_of (review_department_response a i) = a
envelope_of (publish_reviewed_citizen_brief a m) = a
envelope_of (record_participation_result a r) = a
envelope_of (record_reviewed_participation_result a r) = a

-- `dispatch` behind the authentication.
abbrev pub handle :
    (String → Option ℕ)
    → CivicKernelConfig
    → KernelState
    → CivicActor
    → CivicCommand
    → Result KernelError KernelState
handle clock config s actor (record_discussion a d) = dispatch_discussion config s actor d
handle clock config s actor (craft_suggestion a i d t) = dispatch_suggestion s actor i d t
handle clock config s actor (submit_suggestion_for_administration a i) =
    dispatch_submission config s actor i
handle clock config s actor (record_department_response a i m c) = dispatch_response s actor i m c
handle clock config s actor (review_department_response a i) = dispatch_review s actor i
handle clock config s actor (publish_reviewed_citizen_brief a m) = dispatch_brief config s actor m
handle clock config s actor (record_participation_result a r) = dispatch_result clock s actor r
handle clock config s actor (record_reviewed_participation_result a r) =
    dispatch_result clock s actor r

-- A command that is accepted was authenticated and then handled.
pub record IsHandled (clock : String → Option ℕ) (config : CivicKernelConfig) (s : KernelState)
    (c : CivicCommand) (t : KernelState) : Type 0 where
  pub actor : CivicActor
  pub authentic : IsAuthentic config (envelope_of c) actor
  pub handled : handle clock config s actor c ≡ ok t

module _ (clock : String → Option ℕ) (config : CivicKernelConfig) (s t : KernelState) where
  bind-IsHandled :
      (c : CivicCommand)
      → (authenticate config (envelope_of c) >>= λ actor. handle clock config s actor c) ≡ ok t
      → IsHandled clock config s c t
  bind-IsHandled c h =
      let (actor, found, handled) = >>=-eq-ok (authenticate config (envelope_of c)) _ h in
      record {
        actor = actor;
        authentic = authenticate-IsAuthentic config (envelope_of c) actor found;
        handled = handled;
      }

  participation-IsHandled :
      (a r : Value)
      → dispatch_participation clock config s a r ≡ ok t
      → IsHandled clock config s (record_participation_result a r) t
  unfolding dispatch_participation
  participation-IsHandled a r h = elim (Bool-cases (truthy a)) [
    | inl given ↦ bind-IsHandled (record_participation_result a r) (rw given at h)
    | inr absent ↦ absurd (ground arith)
  ]

  pub dispatch-IsHandled :
      (c : CivicCommand) → dispatch clock config s c ≡ ok t → IsHandled clock config s c t
  unfolding dispatch
  dispatch-IsHandled (record_discussion a d) h = bind-IsHandled (record_discussion a d) h
  dispatch-IsHandled (craft_suggestion a i d m) h = bind-IsHandled (craft_suggestion a i d m) h
  dispatch-IsHandled (submit_suggestion_for_administration a i) h =
      bind-IsHandled (submit_suggestion_for_administration a i) h
  dispatch-IsHandled (record_department_response a i m c) h =
      bind-IsHandled (record_department_response a i m c) h
  dispatch-IsHandled (review_department_response a i) h =
      bind-IsHandled (review_department_response a i) h
  dispatch-IsHandled (publish_reviewed_citizen_brief a m) h =
      bind-IsHandled (publish_reviewed_citizen_brief a m) h
  dispatch-IsHandled (record_participation_result a r) h = participation-IsHandled a r h
  dispatch-IsHandled (record_reviewed_participation_result a r) h =
      let v = participation-IsHandled a r h in
      record { actor = v.actor; authentic = v.authentic; handled = v.handled }
