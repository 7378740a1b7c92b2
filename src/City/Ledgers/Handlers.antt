-- ===== src/City/Ledgers/Handlers.antt =====
-- What the kernel's handlers do to the subjects of the ledgers.
use stadtstack.Base.{
  String, false, some, List, ◌++◌, map, ◌≡◌, refl, sym, ap, subst, ◌∙◌, arith, ◌==◌, eq_iff, find,
  lookup, Bool-cases, Option-cases, Result-cases, inl, inr, ok,
}
use stadtstack.Kernel.Types.{
  CivicActor, CivicKernelConfig, DepartmentWorkPackage, DepartmentResponse, DiscussionInput,
  reviewed, pending_review,
}
use stadtstack.Kernel.State.{KernelState, update_first}
use stadtstack.Kernel.Discussions.{
  dispatch_suggestion, dispatch_discussion, store_discussion, discussion_provenance,
}
use stadtstack.Kernel.Packages.{
  has_id, is_submitted, new_package, set_response, mark_reviewed, submit, dispatch_submission,
  review, dispatch_review, dispatch_response,
}
use stadtstack.Kernel.Changes.{find-has_id}
use stadtstack.City.State.{ResponseEntry}
use stadtstack.City.Ledgers.{IsResponded, IsGiven, IsAssessed}
use stadtstack.City.Ledgers.Reviews.{
  ReviewsKept, same-ReviewsKept, append-ReviewsKept, update_other-ReviewsKept, review-ReviewsKept,
  review-IsAssessed,
}
use stadtstack.City.Ledgers.Updates.{find-append, find-update_other, find-update_same}

-- A command that touches nothing of the ledgers.
pub record Kept (s k : KernelState) : Type 0 where
  pub brief : k.reviewed_citizen_brief ≡ s.reviewed_citizen_brief
  pub result : k.participation_result ≡ s.participation_result
  pub responses :
      (id : String) (e : ResponseEntry)
      → IsResponded s.department_work_packages id e
      → IsResponded k.department_work_packages id e
  pub reviews : ReviewsKept s.department_work_packages k.department_work_packages

-- How each handler treats the ledgers' subjects.
module _ (s k : KernelState) (actor : CivicActor) where
  Kept-packages :
      k.reviewed_citizen_brief ≡ s.reviewed_citizen_brief
      → k.participation_result ≡ s.participation_result
      → k.department_work_packages ≡ s.department_work_packages
      → Kept s k
  Kept-packages b r p = record {
    brief = b;
    result = r;
    responses = λ id e h. subst (λ ps. IsResponded ps id e) (sym p) h;
    reviews = same-ReviewsKept s.department_work_packages k.department_work_packages p;
  }

  pub suggestion-Kept : (id d m : String) → dispatch_suggestion s actor id d m ≡ ok k → Kept s k
  unfolding dispatch_suggestion
  suggestion-Kept id d m h = elim (Option-cases (lookup id s.suggestions)) [
    | inl new ↦ Kept-packages (ground arith) (ground arith) (ground arith)
    | inr (old, e) ↦ Kept-packages (ground arith) (ground arith) (ground arith)
  ]

  pub discussion-Kept :
      (config : CivicKernelConfig) (given : DiscussionInput)
      → dispatch_discussion config s actor given ≡ ok k
      → Kept s k
  unfolding dispatch_discussion store_discussion
  discussion-Kept config given h =
      elim (Result-cases (discussion_provenance config given.provenance)) [
        | inl (e, fails) ↦ absurd (ground arith)
        | inr (p, found) ↦ elim (Option-cases (lookup given.id s.discussions)) [
          | inl new ↦ Kept-packages (ground arith) (ground arith) (ground arith)
          | inr (old, e) ↦ Kept-packages (ground arith) (ground arith) (ground arith)
        ]
      ]

  IsResponded-append :
      (ps new : List DepartmentWorkPackage) (id : String) (e : ResponseEntry)
      → IsResponded ps id e
      → IsResponded (ps ++ new) id e
  IsResponded-append ps new id e h = record {
    work_package = h.work_package;
    found = find-append (has_id id) ps new h.found;
    given = h.given;
    responded = h.responded;
    summary = h.summary;
    citations = h.citations;
  }

  pub submission-Kept :
      (config : CivicKernelConfig) (id : String)
      → dispatch_submission config s actor id ≡ ok k
      → Kept s k
  unfolding dispatch_submission submit
  submission-Kept config id h = elim (Option-cases (lookup id s.suggestions)) [
    | inl missing ↦ absurd (ground arith)
    | inr (x, found) ↦ elim (Bool-cases (is_submitted x.status)) [
      | inl before ↦ Kept-packages (ground arith) (ground arith) (ground arith)
      | inr new ↦
          let made : k.department_work_packages
              ≡ s.department_work_packages ++ map (new_package x.id) config.departments =
            ground arith in
          record {
            brief = ground arith;
            result = ground arith;
            responses = λ j e r.
                subst (λ ps. IsResponded ps j e) (sym made)
                  (IsResponded-append s.department_work_packages _ j e r);
            reviews =
                subst (ReviewsKept s.department_work_packages) (sym made)
                  (append-ReviewsKept s.department_work_packages x.id config.departments);
          }
    ]
  ]

  mark_reviewed_given :
      (p : DepartmentWorkPackage) (r : DepartmentResponse)
      → p.response ≡ some r
      → (mark_reviewed p).response ≡ some (record r { status = reviewed })
  mark_reviewed_given p r h = rw h refl

  IsResponded-mark_reviewed :
      (i : String) (ps : List DepartmentWorkPackage) (id : String) (e : ResponseEntry)
      → IsResponded ps id e
      → IsResponded (update_first (has_id i) mark_reviewed ps) id e
  IsResponded-mark_reviewed i ps id e h = elim (Bool-cases (i == id)) [
    | inl same ↦ record {
      work_package = mark_reviewed h.work_package;
      found =
          subst
            (λ x.
              find (has_id id) (update_first (has_id x) mark_reviewed ps)
              ≡ some (mark_reviewed h.work_package))
            (sym ((eq_iff i id).0 same)) (find-update_same mark_reviewed (λ p. refl) id ps h.found);
      given = record h.given { status = reviewed };
      responded = mark_reviewed_given h.work_package h.given h.responded;
      summary = h.summary;
      citations = h.citations;
    }
    | inr other ↦ record {
      work_package = h.work_package;
      found = find-update_other mark_reviewed (λ p. refl) i id ps other h.found;
      given = h.given;
      responded = h.responded;
      summary = h.summary;
      citations = h.citations;
    }
  ]

  pub review-Kept :
      (id : String)
      → dispatch_review s actor id ≡ ok k
      → Kept s k × IsGiven s.department_work_packages id × IsAssessed k.department_work_packages id
  unfolding dispatch_review review
  review-Kept id h = elim (Option-cases (find (has_id id) s.department_work_packages)) [
    | inl missing ↦ absurd (ground arith)
    | inr (p, found) ↦
        let made : k.department_work_packages
            ≡ update_first (has_id p.id) mark_reviewed s.department_work_packages =
          ground arith in
        let same : p.id ≡ id = find-has_id id s.department_work_packages p found in
        let made_here : k.department_work_packages
            ≡ update_first (has_id id) mark_reviewed s.department_work_packages =
          made ∙ ap (λ i. update_first (has_id i) mark_reviewed s.department_work_packages) same in
        elim (Option-cases p.response) [
          | inl unanswered ↦ absurd (ground arith)
          | inr (r, responded) ↦
              let given : IsGiven s.department_work_packages id = record {
                work_package = p;
                found = found;
                given = r;
                responded = responded;
              } in
              (
                record {
                  brief = ground arith;
                  result = ground arith;
                  responses = λ j e r.
                      subst (λ ps. IsResponded ps j e) (sym made)
                        (IsResponded-mark_reviewed p.id s.department_work_packages j e r);
                  reviews =
                      subst (ReviewsKept s.department_work_packages) (sym made_here)
                        (review-ReviewsKept id s.department_work_packages given);
                },
                given,
                subst (λ ps. IsAssessed ps id) (sym made_here)
                    (review-IsAssessed id s.department_work_packages given),
              )
        ]
  ]

  -- A response touches one package, and clears the brief.
  pub record IsAnswered (id : String) (e : ResponseEntry) : Type 0 where
    pub result : k.participation_result ≡ s.participation_result
    pub answered : IsResponded k.department_work_packages id e
    pub others :
        (j : String) (d : ResponseEntry)
        → (id == j) ≡ false
        → IsResponded s.department_work_packages j d
        → IsResponded k.department_work_packages j d
    pub reviews :
        (j : String)
        → (id == j) ≡ false
        → (IsGiven k.department_work_packages j → IsGiven s.department_work_packages j)
          × (IsAssessed s.department_work_packages j → IsAssessed k.department_work_packages j)

  pub response-IsAnswered :
      (id : String) (e : ResponseEntry)
      → dispatch_response s actor id e.response.summary e.response.citations ≡ ok k
      → IsAnswered id e
  unfolding dispatch_response
  response-IsAnswered id e h = elim (Option-cases (find (has_id id) s.department_work_packages)) [
    | inl missing ↦ absurd (ground arith)
    | inr (p, found) ↦
        let same : p.id ≡ id = find-has_id id s.department_work_packages p found in
        let put = set_response e.response.summary e.response.citations in
        let made : k.department_work_packages
            ≡ update_first (has_id p.id) put s.department_work_packages =
          ground arith in
        let made_here : k.department_work_packages
            ≡ update_first (has_id id) put s.department_work_packages =
          made ∙ ap (λ i. update_first (has_id i) put s.department_work_packages) same in
        record {
          result = ground arith;
          answered =
              subst (λ ps. IsResponded ps id e) (sym made_here)
                (record {
                  work_package = put p;
                  found = find-update_same put (λ q. refl) id s.department_work_packages found;
                  given = record {
                    summary = e.response.summary;
                    citations = e.response.citations;
                    status = pending_review;
                  };
                  responded = refl;
                  summary = refl;
                  citations = refl;
                });
          others = λ j d other r.
              subst (λ ps. IsResponded ps j d) (sym made_here)
                (record {
                  work_package = r.work_package;
                  found =
                      find-update_other put (λ q. refl) id j s.department_work_packages other
                        r.found;
                  given = r.given;
                  responded = r.responded;
                  summary = r.summary;
                  citations = r.citations;
                });
          reviews = λ j other.
              subst
                (λ ps.
                  (IsGiven ps j → IsGiven s.department_work_packages j)
                  × (IsAssessed s.department_work_packages j → IsAssessed ps j))
                (sym made_here)
                (update_other-ReviewsKept put (λ q. refl) id j s.department_work_packages other);
        }
  ]
