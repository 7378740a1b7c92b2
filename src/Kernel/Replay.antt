-- ===== src/Kernel/Replay.antt =====
-- Dispatching an accepted command again changes nothing.
use stadtstack.Base.{
  ℕ, String, Bool, true, Option, some, List, [], ◌∷◌, ◌≡◌, refl, sym, ap, subst, arith, eq_refl,
  find, lookup, insert, lookup-insert, Bool-cases, Option-cases, Result-cases, inl, inr, ok, ◌>>=◌,
}
use stadtstack.Value.{Value, truthy}
use stadtstack.Value.Json.{same_json_refl}
use stadtstack.Kernel.Types.{
  draft, submitted_for_administration_review, SuggestionStatus, CivicActor, CivicKernelConfig,
  ParticipationResult, Suggestion, DiscussionProvenance, DepartmentWorkPackage, DiscussionInput,
  CivicCommand, record_discussion, craft_suggestion, submit_suggestion_for_administration,
  record_department_response, review_department_response, publish_reviewed_citizen_brief,
  record_participation_result, record_reviewed_participation_result,
}
use stadtstack.Kernel.State.{KernelState, update_first, provenance_value, participation_value}
use stadtstack.Kernel.Participation.{normalize_participation_result}
use stadtstack.Kernel.Discussions.{
  discussion_provenance, new_discussion, store_discussion, dispatch_discussion, dispatch_suggestion,
}
use stadtstack.Kernel.Packages.{
  has_id, submit, mark_reviewed, set_response, review, dispatch_submission, dispatch_response,
  dispatch_review, dispatch_brief,
}
use stadtstack.Kernel.Dispatch.{
  authenticate, store_result, dispatch_result, dispatch_participation, dispatch,
}
use stadtstack.Kernel.Changes.{find-has_id, find-own_id}
use stadtstack.Kernel.Authority.{handle, envelope_of}

insert_twice {ℓ} :
    {V : Type ℓ} (k : String) (v : V) (m : List (String × V))
    → insert k v (insert k v m) ≡ insert k v m
unfolding insert
insert_twice k v [] = ground (arith, eq_refl k)
insert_twice k v ((j, w) ∷ m) = ground (arith, eq_refl k, insert_twice k v m)

module _ {ℓ} {A : Type ℓ} (p : A → Bool) (f : A → A)
    (keeps : (x : A) → p x ≡ true → p (f x) ≡ true) where
  find-update_first :
      (xs : List A) {a : A} → find p xs ≡ some a → find p (update_first p f xs) ≡ some (f a)
  unfolding update_first
  find-update_first [] h = cc
  find-update_first (x ∷ xs) h = elim (Bool-cases (p x)) [
    | inl hit ↦ rw hit (rw (keeps x hit) (ground arith))
    | inr miss ↦ rw miss (rw miss (find-update_first xs (ground arith)))
  ]

  update_first_twice :
      ((x : A) → f (f x) ≡ f x)
      → (xs : List A) → update_first p f (update_first p f xs) ≡ update_first p f xs
  unfolding update_first
  update_first_twice again [] = refl
  update_first_twice again (x ∷ xs) = elim (Bool-cases (p x)) [
    | inl hit ↦ rw hit (rw (keeps x hit) (ap (λ y. y ∷ xs) (again x)))
    | inr miss ↦ rw miss (rw miss (ap (◌∷◌ x) (update_first_twice again xs)))
  ]

module _ (s t : KernelState) (actor : CivicActor) where
  store_discussion_twice :
      (given : DiscussionInput) (p : Option DiscussionProvenance)
      → store_discussion s given p ≡ ok t
      → store_discussion t given p ≡ ok t
  unfolding store_discussion
  store_discussion_twice given p h = elim (Option-cases (lookup given.id s.discussions)) [
    | inl new ↦ ground (
      arith,
      lookup-insert given.id given.id (new_discussion given p) s.discussions,
      eq_refl given.id,
      eq_refl given.content,
      eq_refl given.transport,
      eq_refl given.signature,
      same_json_refl (provenance_value p),
    )
    | inr (old, e) ↦ ground arith
  ]

  suggestion_twice :
      (id d title : String)
      → dispatch_suggestion s actor id d title ≡ ok t
      → dispatch_suggestion t actor id d title ≡ ok t
  unfolding dispatch_suggestion
  suggestion_twice id d title h = elim (Option-cases (lookup id s.suggestions)) [
    | inl new ↦ ground (
      arith,
      lookup-insert id id (record { id = id; discussion_id = d; title = title; status = draft })
          s.suggestions,
      eq_refl id,
      eq_refl d,
      eq_refl title,
    )
    | inr (old, e) ↦ ground arith
  ]

  discussion_twice :
      (config : CivicKernelConfig) (given : DiscussionInput)
      → dispatch_discussion config s actor given ≡ ok t
      → dispatch_discussion config t actor given ≡ ok t
  unfolding dispatch_discussion
  discussion_twice config given h =
      elim (Result-cases (discussion_provenance config given.provenance)) [
        | inl (e, fails) ↦ absurd (ground arith)
        | inr (p, found) ↦ ground (arith, store_discussion_twice given p)
      ]

  submit_twice :
      (config : CivicKernelConfig) (id : String) (x : Suggestion)
      → lookup id s.suggestions ≡ some x
      → (status : SuggestionStatus) → x.status ≡ status
      → submit config s id x ≡ ok t
      → (y : Suggestion) × (lookup id t.suggestions ≡ some y) × (submit config t id y ≡ ok t)
  unfolding submit
  submit_twice config id x e submitted_for_administration_review same h =
      (x, ground arith, ground arith)
  submit_twice config id x e draft same h = (
    record x { status = submitted_for_administration_review },
    ground (
      arith,
      lookup-insert id id (record x { status = submitted_for_administration_review }) s.suggestions,
      eq_refl id,
    ),
    refl,
  )

  submission_twice :
      (config : CivicKernelConfig) (id : String)
      → dispatch_submission config s actor id ≡ ok t
      → dispatch_submission config t actor id ≡ ok t
  unfolding dispatch_submission
  submission_twice config id h = elim (Option-cases (lookup id s.suggestions)) [
    | inl missing ↦ absurd (ground arith)
    | inr (x, e) ↦
        let (y, found, again) = submit_twice config id x e x.status refl (ground arith) in
        ground arith
  ]

  brief_twice :
      (config : CivicKernelConfig) (summary : String)
      → dispatch_brief config s actor summary ≡ ok t
      → dispatch_brief config t actor summary ≡ ok t
  unfolding dispatch_brief
  brief_twice config summary h = ground arith

  store_result_twice : (r : ParticipationResult) → store_result s r ≡ ok t → store_result t r ≡ ok t
  unfolding store_result
  store_result_twice r h = elim (Option-cases s.participation_result) [
    | inl new ↦ ground (arith, eq_refl r.id, same_json_refl (participation_value r))
    | inr (old, e) ↦ ground arith
  ]

  result_twice :
      (clock : String → Option ℕ) (given : Value)
      → dispatch_result clock s actor given ≡ ok t
      → dispatch_result clock t actor given ≡ ok t
  unfolding dispatch_result
  result_twice clock given h = elim (Result-cases (normalize_participation_result clock given)) [
    | inl (e, fails) ↦ absurd (ground arith)
    | inr (r, found) ↦ ground (arith, store_result_twice r)
  ]

  response_twice_at :
      (p : DepartmentWorkPackage) (summary : String) (citations : List String)
      → find (has_id p.id) s.department_work_packages ≡ some p
      → dispatch_response s actor p.id summary citations ≡ ok t
      → dispatch_response t actor p.id summary citations ≡ ok t
  unfolding dispatch_response
  response_twice_at p summary citations e h = ground (
    arith,
    find-update_first (has_id p.id) (set_response summary citations) (λ _ hit. hit)
        s.department_work_packages e,
    update_first_twice (has_id p.id) (set_response summary citations) (λ _ hit. hit) (λ _. refl)
        s.department_work_packages,
    insert_twice p.id actor.id s.response_authors,
  )

  response_twice :
      (id summary : String) (citations : List String)
      → dispatch_response s actor id summary citations ≡ ok t
      → dispatch_response t actor id summary citations ≡ ok t
  response_twice id summary citations h =
      elim (Option-cases (find (has_id id) s.department_work_packages)) [
        | inl missing ↦ absurd (unfold dispatch_response in ground arith)
        | inr (p, e) ↦
            let same = find-has_id id s.department_work_packages p e in
            subst (λ i. dispatch_response t actor i summary citations ≡ ok t) same
              (response_twice_at p summary citations (find-own_id id s.department_work_packages p e)
                (subst (λ i. dispatch_response s actor i summary citations ≡ ok t) (sym same) h))
      ]

  mark_reviewed_twice :
      (p : DepartmentWorkPackage) → mark_reviewed (mark_reviewed p) ≡ mark_reviewed p
  mark_reviewed_twice p = ground arith

  review_twice_at :
      (p : DepartmentWorkPackage)
      → find (has_id p.id) s.department_work_packages ≡ some p
      → dispatch_review s actor p.id ≡ ok t
      → dispatch_review t actor p.id ≡ ok t
  unfolding dispatch_review review
  review_twice_at p e h = ground (
    arith,
    find-update_first (has_id p.id) mark_reviewed (λ _ hit. hit) s.department_work_packages e,
    update_first_twice (has_id p.id) mark_reviewed (λ _ hit. hit) mark_reviewed_twice
        s.department_work_packages,
  )

  review_twice :
      (id : String) → dispatch_review s actor id ≡ ok t → dispatch_review t actor id ≡ ok t
  review_twice id h = elim (Option-cases (find (has_id id) s.department_work_packages)) [
    | inl missing ↦ absurd (unfold dispatch_review in ground arith)
    | inr (p, e) ↦
        let same = find-has_id id s.department_work_packages p e in
        subst (λ i. dispatch_review t actor i ≡ ok t) same
          (review_twice_at p (find-own_id id s.department_work_packages p e)
            (subst (λ i. dispatch_review s actor i ≡ ok t) (sym same) h))
  ]

  handle_twice :
      (clock : String → Option ℕ) (config : CivicKernelConfig) (c : CivicCommand)
      → handle clock config s actor c ≡ ok t
      → handle clock config t actor c ≡ ok t
  handle_twice clock config (record_discussion a d) h = discussion_twice config d h
  handle_twice clock config (craft_suggestion a i d m) h = suggestion_twice i d m h
  handle_twice clock config (submit_suggestion_for_administration a i) h =
      submission_twice config i h
  handle_twice clock config (record_department_response a i m c) h = response_twice i m c h
  handle_twice clock config (review_department_response a i) h = review_twice i h
  handle_twice clock config (publish_reviewed_citizen_brief a m) h = brief_twice config m h
  handle_twice clock config (record_participation_result a r) h = result_twice clock r h
  handle_twice clock config (record_reviewed_participation_result a r) h = result_twice clock r h

module _ (clock : String → Option ℕ) (config : CivicKernelConfig) (s t : KernelState) where
  bind_twice :
      (c : CivicCommand)
      → (authenticate config (envelope_of c) >>= λ actor. handle clock config s actor c) ≡ ok t
      → (authenticate config (envelope_of c) >>= λ actor. handle clock config t actor c) ≡ ok t
  bind_twice c h = elim (Result-cases (authenticate config (envelope_of c))) [
    | inl (e, fails) ↦ absurd (ground arith)
    | inr (actor, found) ↦ rw found (handle_twice s t actor clock config c (rw found at h))
  ]

  participation_twice :
      (a r : Value)
      → dispatch_participation clock config s a r ≡ ok t
      → dispatch_participation clock config t a r ≡ ok t
  unfolding dispatch_participation
  participation_twice a r h = elim (Bool-cases (truthy a)) [
    | inl given ↦ rw given (bind_twice (record_participation_result a r) (rw given at h))
    | inr absent ↦ absurd (ground arith)
  ]

  -- A command that was accepted is accepted again in the state that it left, and changes nothing.
  pub dispatch_idempotent :
      (c : CivicCommand) → dispatch clock config s c ≡ ok t → dispatch clock config t c ≡ ok t
  unfolding dispatch
  dispatch_idempotent (record_discussion a d) h = bind_twice (record_discussion a d) h
  dispatch_idempotent (craft_suggestion a i d m) h = bind_twice (craft_suggestion a i d m) h
  dispatch_idempotent (submit_suggestion_for_administration a i) h =
      bind_twice (submit_suggestion_for_administration a i) h
  dispatch_idempotent (record_department_response a i m c) h =
      bind_twice (record_department_response a i m c) h
  dispatch_idempotent (review_department_response a i) h =
      bind_twice (review_department_response a i) h
  dispatch_idempotent (publish_reviewed_citizen_brief a m) h =
      bind_twice (publish_reviewed_citizen_brief a m) h
  dispatch_idempotent (record_participation_result a r) h = participation_twice a r h
  dispatch_idempotent (record_reviewed_participation_result a r) h = participation_twice a r h
