-- ===== src/Kernel/Changes.antt =====
-- What a handler that succeeds has done: the kernel's step relation.
use stadtstack.Base.{
  ℕ, String, true, false, not, Option, none, some, List, [], ◌∷◌, ◌≡◌, ◌≢◌, refl, sym, subst, arith,
  eq_iff, length, any, find, lookup, insert, IsIn, ok, Option-cases, Result-cases, inl, inr,
}
use stadtstack.Value.{Value}
use stadtstack.Kernel.Types.{
  department_agent, department_reviewer, publisher, CivicActor, CivicKernelConfig,
  ParticipationResult, draft, submitted_for_administration_review, SuggestionStatus, Suggestion,
  CivicCommand, record_discussion, craft_suggestion, submit_suggestion_for_administration,
  record_department_response, review_department_response, publish_reviewed_citizen_brief,
  record_participation_result, record_reviewed_participation_result, DiscussionProvenance,
  DepartmentResponse, DepartmentWorkPackage, DiscussionInput,
}
use stadtstack.Kernel.Actors.{role_eq}
use stadtstack.Kernel.Participation.{normalize_participation_result}
use stadtstack.Kernel.State.{KernelState}
use stadtstack.Kernel.Discussions.{
  discussion_provenance, new_discussion, store_discussion, dispatch_discussion, dispatch_suggestion,
}
use stadtstack.Kernel.Packages.{
  has_id, submit, submitted_state, responded_state, reviewed_state, published_state, is_reviewed,
  dispatch_submission, dispatch_response, review, dispatch_review, dispatch_brief,
}
use stadtstack.Kernel.Dispatch.{store_result, dispatch_result, dispatch}
use stadtstack.Kernel.Authority.{role_eq-eq, optional_eq-eq, handle, dispatch-IsHandled}

pub data Change (clock : String → Option ℕ) (config : CivicKernelConfig) (actor : CivicActor)
    (s t : KernelState) : Type 0 where
  unchanged : t ≡ s → Change clock config actor s t
  discussion_added :
      (given : DiscussionInput) (provenance : Option DiscussionProvenance)
      → lookup given.id s.discussions ≡ none
      → discussion_provenance config given.provenance ≡ ok provenance
      → t
        ≡ record s { discussions = insert given.id (new_discussion given provenance) s.discussions }
      → Change clock config actor s t
  suggestion_added :
      (suggestion : Suggestion)
      → suggestion.status ≡ draft
      → lookup suggestion.id s.suggestions ≡ none
      → lookup suggestion.discussion_id s.discussions ≢ none
      → t ≡ record s { suggestions = insert suggestion.id suggestion s.suggestions }
      → Change clock config actor s t
  suggestion_submitted :
      (key : String) (suggestion : Suggestion)
      → lookup key s.suggestions ≡ some suggestion
      → suggestion.status ≡ draft
      → t ≡ submitted_state config s key suggestion
      → Change clock config actor s t
  response_recorded :
      (p : DepartmentWorkPackage) (summary : String) (citations : List String)
      → find (has_id p.id) s.department_work_packages ≡ some p
      → actor.role ≡ department_agent
      → actor.department_id ≡ some p.department_id
      → citations ≢ []
      → t ≡ responded_state s p actor.id summary citations
      → Change clock config actor s t
  response_reviewed :
      (p : DepartmentWorkPackage) (r : DepartmentResponse) (author : String)
      → find (has_id p.id) s.department_work_packages ≡ some p
      → actor.role ≡ department_reviewer
      → actor.department_id ≡ some p.department_id
      → p.response ≡ some r
      → lookup p.id s.response_authors ≡ some author
      → author ≢ actor.id
      → t ≡ reviewed_state s p
      → Change clock config actor s t
  brief_published :
      (summary : String)
      → actor.role ≡ publisher
      → length s.department_work_packages ≡ length config.departments
      → any (λ p. not (is_reviewed p)) s.department_work_packages ≡ false
      → t ≡ published_state s actor.id summary
      → Change clock config actor s t
  result_recorded :
      (given : Value) (r : ParticipationResult)
      → s.participation_result ≡ none
      → normalize_participation_result clock given ≡ ok r
      → t ≡ record s { participation_result = some r }
      → Change clock config actor s t

pub find-has_id :
    (id : String) (ps : List DepartmentWorkPackage) (p : DepartmentWorkPackage)
    → find (has_id id) ps ≡ some p
    → p.id ≡ id
find-has_id id [] p h = cc
find-has_id id (q ∷ ps) p h = ground (arith, find-has_id id ps p, eq_iff q.id id)

pub find-own_id :
    (id : String) (ps : List DepartmentWorkPackage) (p : DepartmentWorkPackage)
    → find (has_id id) ps ≡ some p
    → find (has_id p.id) ps ≡ some p
find-own_id id ps p e = subst (λ i. find (has_id i) ps ≡ some p) (sym (find-has_id id ps p e)) e

module _ (clock : String → Option ℕ) (config : CivicKernelConfig) (s t : KernelState)
    (actor : CivicActor) where
  stored :
      (given : DiscussionInput) (provenance : Option DiscussionProvenance)
      → discussion_provenance config given.provenance ≡ ok provenance
      → store_discussion s given provenance ≡ ok t
      → Change clock config actor s t
  unfolding store_discussion
  stored given provenance found h = elim (Option-cases (lookup given.id s.discussions)) [
    | inl new ↦ discussion_added given provenance new found (ground arith)
    | inr (old, e) ↦ unchanged (ground arith)
  ]

  discussion-Change :
      (given : DiscussionInput)
      → dispatch_discussion config s actor given ≡ ok t
      → Change clock config actor s t
  unfolding dispatch_discussion
  discussion-Change given h = elim (Result-cases (discussion_provenance config given.provenance)) [
    | inl (e, fails) ↦ absurd (ground arith)
    | inr (provenance, found) ↦ stored given provenance found (ground arith)
  ]

  suggestion-Change :
      (id discussion_id title : String)
      → dispatch_suggestion s actor id discussion_id title ≡ ok t
      → Change clock config actor s t
  unfolding dispatch_suggestion
  suggestion-Change id discussion_id title h = elim (Option-cases (lookup id s.suggestions)) [
    | inl new ↦
        suggestion_added
          (record { id = id; discussion_id = discussion_id; title = title; status = draft }) refl
          new (ground arith) (ground arith)
    | inr (old, e) ↦ unchanged (ground arith)
  ]

  by_status :
      (id : String) (suggestion : Suggestion)
      → lookup id s.suggestions ≡ some suggestion
      → (status : SuggestionStatus) → suggestion.status ≡ status
      → submit config s id suggestion ≡ ok t
      → Change clock config actor s t
  unfolding submit
  by_status id suggestion e draft same h = suggestion_submitted id suggestion e same (ground arith)
  by_status id suggestion e submitted_for_administration_review same h = unchanged (ground arith)

  submission-Change :
      (id : String) → dispatch_submission config s actor id ≡ ok t → Change clock config actor s t
  unfolding dispatch_submission
  submission-Change id h = elim (Option-cases (lookup id s.suggestions)) [
    | inl missing ↦ absurd (ground arith)
    | inr (suggestion, e) ↦ by_status id suggestion e suggestion.status refl (ground arith)
  ]

  response-Change :
      (id summary : String) (citations : List String)
      → dispatch_response s actor id summary citations ≡ ok t
      → Change clock config actor s t
  unfolding dispatch_response
  response-Change id summary citations h =
      elim (Option-cases (find (has_id id) s.department_work_packages)) [
        | inl missing ↦ absurd (ground arith)
        | inr (p, e) ↦
            response_recorded p summary citations (find-own_id id s.department_work_packages p e)
              (role_eq-eq actor.role department_agent (ground arith))
              (optional_eq-eq actor.department_id (some p.department_id) (ground arith))
              (ground arith) (ground arith)
      ]

  review_cases :
      (p : DepartmentWorkPackage)
      → find (has_id p.id) s.department_work_packages ≡ some p
      → role_eq actor.role department_reviewer ≡ true
      → review s actor p ≡ ok t
      → Change clock config actor s t
  unfolding review
  review_cases p e is_reviewer h = elim (Option-cases p.response) [
    | inl absent ↦ absurd (ground arith)
    | inr (r, given) ↦ elim (Option-cases (lookup p.id s.response_authors)) [
      | inl unknown ↦ absurd (ground arith)
      | inr (author, written) ↦
          response_reviewed p r author e (role_eq-eq actor.role department_reviewer is_reviewer)
            (optional_eq-eq actor.department_id (some p.department_id) (ground arith)) given written
            (ground (arith, eq_iff author actor.id)) (ground arith)
    ]
  ]

  review-Change : (id : String) → dispatch_review s actor id ≡ ok t → Change clock config actor s t
  unfolding dispatch_review
  review-Change id h = elim (Option-cases (find (has_id id) s.department_work_packages)) [
    | inl missing ↦ absurd (ground arith)
    | inr (p, e) ↦
        review_cases p (find-own_id id s.department_work_packages p e) (ground arith) (ground arith)
  ]

  brief-Change :
      (summary : String)
      → dispatch_brief config s actor summary ≡ ok t
      → Change clock config actor s t
  unfolding dispatch_brief
  brief-Change summary h =
      brief_published summary (role_eq-eq actor.role publisher (ground arith)) (ground arith)
        (ground arith) (ground arith)

  result_stored :
      (given : Value) (r : ParticipationResult)
      → normalize_participation_result clock given ≡ ok r
      → store_result s r ≡ ok t
      → Change clock config actor s t
  unfolding store_result
  result_stored given r found h = elim (Option-cases s.participation_result) [
    | inl new ↦ result_recorded given r new found (ground arith)
    | inr (old, e) ↦ unchanged (ground arith)
  ]

  result-Change :
      (given : Value) → dispatch_result clock s actor given ≡ ok t → Change clock config actor s t
  unfolding dispatch_result
  result-Change given h = elim (Result-cases (normalize_participation_result clock given)) [
    | inl (e, fails) ↦ absurd (ground arith)
    | inr (r, found) ↦ result_stored given r found (ground arith)
  ]

  handle-Change :
      (c : CivicCommand) → handle clock config s actor c ≡ ok t → Change clock config actor s t
  handle-Change (record_discussion a d) h = discussion-Change d h
  handle-Change (craft_suggestion a i d m) h = suggestion-Change i d m h
  handle-Change (submit_suggestion_for_administration a i) h = submission-Change i h
  handle-Change (record_department_response a i m c) h = response-Change i m c h
  handle-Change (review_department_response a i) h = review-Change i h
  handle-Change (publish_reviewed_citizen_brief a m) h = brief-Change m h
  handle-Change (record_participation_result a r) h = result-Change r h
  handle-Change (record_reviewed_participation_result a r) h = result-Change r h

-- An accepted command changes the state by one of the steps, at a registered actor.
pub dispatch-Change :
    (clock : String → Option ℕ) (config : CivicKernelConfig) (s t : KernelState) (c : CivicCommand)
    → dispatch clock config s c ≡ ok t
    → (actor : CivicActor) × IsIn actor config.actors × Change clock config actor s t
dispatch-Change clock config s t c h =
    let v = dispatch-IsHandled clock config s t c h in
    (v.actor, v.authentic.registered, handle-Change clock config s t v.actor c v.handled)
