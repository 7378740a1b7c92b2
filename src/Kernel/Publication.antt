-- ===== src/Kernel/Publication.antt =====
-- When a citizen brief can be published, and what a second submission does to it.
use stadtstack.Base.{
  ℕ, ◌*◌, ◌≤◌, ◌<◌, String, true, false, Option, some, List, [], ◌∷◌, ◌++◌, map, ◌≡◌, ◌≢◌, refl,
  sym, ◌∙◌, arith, length, any, lookup, ok,
}
use native.Mathlib.Nat.{eq_of_mul-eq-mul_left}
use stadtstack.Value.{Value}
use stadtstack.Kernel.Types.{
  CivicActor, CivicKernelConfig, Suggestion, draft, DepartmentWorkPackage,
  submit_suggestion_for_administration, publish_reviewed_citizen_brief,
}
use stadtstack.Kernel.State.{KernelState}
use stadtstack.Kernel.Packages.{new_package, dispatch_brief, submit, dispatch_submission}
use stadtstack.Kernel.Dispatch.{dispatch}
use stadtstack.Kernel.Authority.{dispatch-IsHandled}
use stadtstack.Kernel.Changes.{
  Change, unchanged, discussion_added, suggestion_added, suggestion_submitted, response_recorded,
  response_reviewed, brief_published, result_recorded, dispatch-Change,
}
use stadtstack.Kernel.Invariant.{submitted_count, unreviewed, Inv}
use stadtstack.Kernel.Invariant.Lemmas.{submitted_count-insert_draft, submitted_count-submit}
use stadtstack.Kernel.Runs.{Reach, here, next, Reach-Inv}

times_one : (d n : ℕ) → 0 < d → d ≡ d * n → n ≡ 1
times_one d n pos h = eq_of_mul-eq-mul_left d pos n 1 (omega arith)

-- What `dispatch_brief` asks of the packages.
publish_guard :
    (config : CivicKernelConfig) (s t : KernelState) (actor : CivicActor) (summary : String)
    → dispatch_brief config s actor summary ≡ ok t
    → (length s.department_work_packages ≡ length config.departments)
      × (any unreviewed s.department_work_packages ≡ false)
unfolding dispatch_brief
publish_guard config s t actor summary h = (ground arith, ground arith)

module _ (clock : String → Option ℕ) (config : CivicKernelConfig)
    (staffed : config.departments ≢ []) where
  -- A brief is published only while exactly one suggestion has been submitted, and only when every
  -- work package has been reviewed.
  pub publication-needs :
      (s t : KernelState) (a : Value) (summary : String)
      → Inv config s
      → dispatch clock config s (publish_reviewed_citizen_brief a summary) ≡ ok t
      → (submitted_count s.suggestions ≡ 1) × (any unreviewed s.department_work_packages ≡ false)
  publication-needs s t a summary v h =
      let w = dispatch-IsHandled clock config s t (publish_reviewed_citizen_brief a summary) h in
      let (same, all_reviewed) = publish_guard config s t w.actor summary w.handled in
      (
        times_one (length config.departments) (submitted_count s.suggestions) (ground arith)
            (sym same ∙ v.counted),
        all_reviewed,
      )

  Change-submitted :
      (actor : CivicActor) (s t : KernelState)
      → Change clock config actor s t
      → submitted_count s.suggestions ≤ submitted_count t.suggestions
  Change-submitted actor s t (unchanged e) = rw e (omega arith)
  Change-submitted actor s t (discussion_added given p new found e) = rw e (omega arith)
  Change-submitted actor s t (suggestion_added x is_draft new known e) =
      rw e (omega (arith, submitted_count-insert_draft x s.suggestions is_draft new))
  Change-submitted actor s t (suggestion_submitted key x found is_draft e) =
      rw e (omega (arith, submitted_count-submit key x s.suggestions found is_draft))
  Change-submitted actor s t (response_recorded p m c found r own cited e) = rw e (omega arith)
  Change-submitted actor s t (response_reviewed p r a found is_r own given written differs e) =
      rw e (omega arith)
  Change-submitted actor s t (brief_published m may same all_reviewed e) = rw e (omega arith)
  Change-submitted actor s t (result_recorded given r new found e) = rw e (omega arith)

  Reach-submitted :
      {s t : KernelState}
      → Reach clock config s t
      → submitted_count s.suggestions ≤ submitted_count t.suggestions
  Reach-submitted here = omega arith
  Reach-submitted (next {t = t} {u = u} r c h) =
      let (actor, _, step) = dispatch-Change clock config t u c h in
      omega (arith, Reach-submitted r, Change-submitted actor t u step)

  -- Once two suggestions have been submitted, no later state publishes a brief again.
  pub publication_blocked :
      {s t : KernelState} (u : KernelState) (a : Value) (summary : String)
      → Inv config s
      → 2 ≤ submitted_count s.suggestions
      → Reach clock config s t
      → dispatch clock config t (publish_reviewed_citizen_brief a summary) ≢ ok u
  publication_blocked {t = t} u a summary v two r h =
      let (one, _) = publication-needs t u a summary (Reach-Inv clock config v r) h in
      omega (arith, one, Reach-submitted r)

  any-append_new :
      (id : String) (ps : List DepartmentWorkPackage) (ds : List String)
      → ds ≢ []
      → any unreviewed (ps ++ map (new_package id) ds) ≡ true
  any-append_new id [] [] h = absurd (h refl)
  any-append_new id [] (d ∷ ds) h = refl
  any-append_new id (p ∷ ps) ds h = ground (arith, any-append_new id ps ds h)

  submitted_keeps_brief :
      (s t : KernelState) (actor : CivicActor) (key : String) (x : Suggestion)
      → lookup key s.suggestions ≡ some x
      → x.status ≡ draft
      → dispatch_submission config s actor key ≡ ok t
      → (t.reviewed_citizen_brief ≡ s.reviewed_citizen_brief)
        × (any unreviewed t.department_work_packages ≡ true)
  unfolding dispatch_submission submit
  submitted_keeps_brief s t actor key x found is_draft h = (
    ground arith,
    ground (arith, any-append_new x.id s.department_work_packages config.departments staffed),
  )

  -- Submitting a draft leaves a published brief in place, although the new packages that it adds
  -- are not reviewed.
  pub submission_keeps_brief :
      (s t : KernelState) (a : Value) (key : String) (x : Suggestion)
      → lookup key s.suggestions ≡ some x
      → x.status ≡ draft
      → dispatch clock config s (submit_suggestion_for_administration a key) ≡ ok t
      → (t.reviewed_citizen_brief ≡ s.reviewed_citizen_brief)
        × (any unreviewed t.department_work_packages ≡ true)
  submission_keeps_brief s t a key x found is_draft h =
      let w = dispatch-IsHandled clock config s t (submit_suggestion_for_administration a key) h in
      submitted_keeps_brief s t w.actor key x found is_draft w.handled
