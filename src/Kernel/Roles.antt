-- ===== src/Kernel/Roles.antt =====
-- The role and the department that each command needs.
use stadtstack.Base.{
  ℕ, String, Option, some, List, ◌≡◌, arith, IsIn, ok, find, Option-cases, inl, inr,
}
use stadtstack.Kernel.Types.{
  citizen, case_steward, department_agent, department_reviewer, participation_reviewer, publisher,
  CivicActor, CivicKernelConfig, CivicCommand, record_discussion, craft_suggestion,
  submit_suggestion_for_administration, record_department_response, review_department_response,
  publish_reviewed_citizen_brief, record_participation_result, record_reviewed_participation_result,
  DepartmentWorkPackage,
}
use stadtstack.Kernel.Actors.{normalize_civic_actor}
use stadtstack.Kernel.State.{KernelState}
use stadtstack.Kernel.Discussions.{dispatch_discussion, dispatch_suggestion}
use stadtstack.Kernel.Packages.{
  has_id, dispatch_submission, dispatch_response, review, dispatch_review, dispatch_brief,
}
use stadtstack.Kernel.Dispatch.{dispatch, dispatch_result}
use stadtstack.Kernel.Authority.{
  required_role, envelope_of, handle, dispatch-IsHandled, role_eq-eq, optional_eq-eq,
}

-- The actor works in the department of the package that the command names.
abbrev pub OwnsPackage : KernelState → CivicActor → String → Type 0
OwnsPackage s actor id =
    (p : DepartmentWorkPackage) × (find (has_id id) s.department_work_packages ≡ some p)
    × (actor.department_id ≡ some p.department_id)

abbrev pub IsInScope : KernelState → CivicActor → CivicCommand → Type 0
IsInScope s actor (record_department_response a id m c) = OwnsPackage s actor id
IsInScope s actor (review_department_response a id) = OwnsPackage s actor id
IsInScope s actor c = Unit

pub record IsAuthorized (config : CivicKernelConfig) (s : KernelState) (c : CivicCommand)
    (actor : CivicActor) : Type 0 where
  pub registered : IsIn actor config.actors
  pub named : normalize_civic_actor (envelope_of c) ≡ ok actor
  pub role : actor.role ≡ required_role c
  pub scope : IsInScope s actor c

module _ (clock : String → Option ℕ) (config : CivicKernelConfig) (s t : KernelState)
    (actor : CivicActor) where
  handle-role :
      (c : CivicCommand) → handle clock config s actor c ≡ ok t → actor.role ≡ required_role c
  unfolding dispatch_discussion dispatch_suggestion dispatch_submission dispatch_response
      dispatch_review dispatch_brief dispatch_result
  handle-role (record_discussion a d) h = role_eq-eq actor.role citizen (ground arith)
  handle-role (craft_suggestion a i d m) h = role_eq-eq actor.role citizen (ground arith)
  handle-role (submit_suggestion_for_administration a i) h =
      role_eq-eq actor.role case_steward (ground arith)
  handle-role (record_department_response a i m c) h =
      role_eq-eq actor.role department_agent (ground arith)
  handle-role (review_department_response a i) h =
      role_eq-eq actor.role department_reviewer (ground arith)
  handle-role (publish_reviewed_citizen_brief a m) h =
      role_eq-eq actor.role publisher (ground arith)
  handle-role (record_participation_result a r) h =
      role_eq-eq actor.role participation_reviewer (ground arith)
  handle-role (record_reviewed_participation_result a r) h =
      role_eq-eq actor.role participation_reviewer (ground arith)

  response-OwnsPackage :
      (id m : String) (c : List String)
      → dispatch_response s actor id m c ≡ ok t
      → OwnsPackage s actor id
  unfolding dispatch_response
  response-OwnsPackage id m c h =
      elim (Option-cases (find (has_id id) s.department_work_packages)) [
        | inl missing ↦ absurd (ground arith)
        | inr (p, e) ↦
            (p, e, optional_eq-eq actor.department_id (some p.department_id) (ground arith))
      ]

  review-OwnsPackage : (id : String) → dispatch_review s actor id ≡ ok t → OwnsPackage s actor id
  unfolding dispatch_review review
  review-OwnsPackage id h = elim (Option-cases (find (has_id id) s.department_work_packages)) [
    | inl missing ↦ absurd (ground arith)
    | inr (p, e) ↦ (p, e, optional_eq-eq actor.department_id (some p.department_id) (ground arith))
  ]

  handle-IsInScope : (c : CivicCommand) → handle clock config s actor c ≡ ok t → IsInScope s actor c
  handle-IsInScope (record_department_response a i m c) h = response-OwnsPackage i m c h
  handle-IsInScope (review_department_response a i) h = review-OwnsPackage i h
  handle-IsInScope _ h = tt

-- A command is accepted only from a registered actor that its envelope names exactly, in the role
-- that the command needs, and for a response or a review only from the department whose work
-- package it is.
pub dispatch-IsAuthorized :
    (clock : String → Option ℕ) (config : CivicKernelConfig) (s t : KernelState) (c : CivicCommand)
    → dispatch clock config s c ≡ ok t
    → (actor : CivicActor) × IsAuthorized config s c actor
dispatch-IsAuthorized clock config s t c h =
    let w = dispatch-IsHandled clock config s t c h in
    (
      w.actor,
      record {
        registered = w.authentic.registered;
        named = w.authentic.envelope;
        role = handle-role clock config s t w.actor c w.handled;
        scope = handle-IsInScope clock config s t w.actor c w.handled;
      },
    )
