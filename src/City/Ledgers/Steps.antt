-- ===== src/City/Ledgers/Steps.antt =====
-- The operations on discussions, suggestions and responses keep the ledgers in agreement.
use stadtstack.Base.{
  ℕ, String, not, Option, none, some, List, [], ◌∷◌, All, All-append, ◌≢◌, ◌≡◌, refl, sym, subst,
  ◌==◌, eq_iff, lookup, insert, lookup-insert, contains, Bool-cases, inl, inr, Result,
}
use stadtstack.Value.{Value, Fields}
use stadtstack.Kernel.Types.{
  CivicActor, CivicKernelConfig, DepartmentWorkPackage, craft_suggestion,
  submit_suggestion_for_administration, record_department_response, review_department_response,
  citizen, case_steward, department_agent, department_reviewer,
}
use stadtstack.Kernel.State.{KernelState}
use stadtstack.Kernel.Authority.{dispatch-IsHandled}
use stadtstack.City.Types.{CityConfig, ActorRecord, CityError}
use stadtstack.City.Ingestion.{Artifact, pass_discussion}
use stadtstack.City.Config.{role_actor}
use stadtstack.City.Requests.{ResponseInput}
use stadtstack.City.State.{ResponseEntry, PlaneState}
use stadtstack.City.Operations.{
  craft, suggestion_request, submit_to_administration, submission_request, forget_reviews,
  pass_response, respond, same_response, review_key, pass_review,
}
use stadtstack.City.Lemmas.{Leaves, checked-state, by_entry-state, if-state, dispatched-state}
use stadtstack.City.Ledgers.Receipts.{
  IsElsewhere, forget_reviews-IsElsewhere, unanswered-IsElsewhere, elsewhere-IsReceipt,
  kept-IsReceipt, answered-IsReceipt,
}
use stadtstack.City.Ledgers.{
  IsGiven, IsReceipt, IsResponded, RespondedIfGiven, BriefAgrees, ResultAgrees, IsLedgered,
}
use stadtstack.City.Ledgers.Handlers.{
  Kept, IsAnswered, discussion-Kept, suggestion-Kept, submission-Kept, review-Kept,
  response-IsAnswered,
}

-- What holds of every response holds of one that may be given.
IfGiven-map :
    (ps qs : List DepartmentWorkPackage) (id : String) (o : Option ResponseEntry)
    → ((e : ResponseEntry) → IsResponded ps id e → IsResponded qs id e)
    → RespondedIfGiven ps id o
    → RespondedIfGiven qs id o
IfGiven-map ps qs id none f h = tt
IfGiven-map ps qs id (some e) f h = f e h

module _ (clock : String → Option ℕ) (city : CityConfig) (config : CivicKernelConfig) where
  kernel_step :
      (s : PlaneState) (k : KernelState)
      → Kept s.kernel k
      → IsLedgered clock s
      → IsLedgered clock (record s { kernel = k })
  kernel_step s k kept v = record {
    brief = subst (BriefAgrees s.published_brief) (sym kept.brief) v.brief;
    result = subst (ResultAgrees clock s.participation) (sym kept.result) v.result;
    responses = λ id.
        IfGiven-map s.kernel.department_work_packages k.department_work_packages id
          (lookup id s.response_inputs) (kept.responses id) (v.responses id);
    entered = λ id g. v.entered id (kept.reviews.given id g);
    reviews =
        kept-IsReceipt s.response_inputs s.kernel.department_work_packages
          k.department_work_packages s.response_reviews kept.reviews.assessed v.reviews;
  }

  pub discussion-IsLedgered :
      (adapter : Fields → Option (List String) → Result CityError Artifact) (s : PlaneState)
      (a : ActorRecord) (artifact : Artifact)
      → IsLedgered clock s
      → Leaves (IsLedgered clock) (pass_discussion adapter clock city config s a artifact)
  unfolding pass_discussion
  discussion-IsLedgered adapter s a artifact v =
      dispatched-state (IsLedgered clock) clock config s _ _ v (λ k done.
        let w = dispatch-IsHandled clock config s.kernel k _ done in
        record {
          holds = kernel_step s k (discussion-Kept s.kernel k w.actor config _ w.handled) v;
        })

  pub craft-IsLedgered :
      (s : PlaneState) (raw : Value)
      → IsLedgered clock s
      → Leaves (IsLedgered clock) (craft clock city config s raw)
  unfolding craft
  craft-IsLedgered s raw v =
      checked-state (IsLedgered clock) s (suggestion_request clock city config raw) _ v
        (λ (a, id, d, m) h.
          let c = craft_suggestion (role_actor a.id citizen none) id d m in
          dispatched-state (IsLedgered clock) clock config s c _ v (λ k done.
            let w = dispatch-IsHandled clock config s.kernel k c done in
            record {
              holds = kernel_step s k (suggestion-Kept s.kernel k w.actor id d m w.handled) v;
            }))

  pub submission-IsLedgered :
      (s : PlaneState) (raw : Value)
      → IsLedgered clock s
      → Leaves (IsLedgered clock) (submit_to_administration clock city config s raw)
  unfolding submit_to_administration
  submission-IsLedgered s raw v =
      checked-state (IsLedgered clock) s (submission_request clock city config raw) _ v
        (λ (a, id) h.
          let c = submit_suggestion_for_administration (role_actor a.id case_steward none) id in
          dispatched-state (IsLedgered clock) clock config s c _ v (λ k done.
            let w = dispatch-IsHandled clock config s.kernel k c done in
            record {
              holds = kernel_step s k (submission-Kept s.kernel k w.actor config id w.handled) v;
            }))

  answered_at :
      (s k : KernelState) (actor : CivicActor) (id : String) (e : ResponseEntry)
      (m : List (String × ResponseEntry))
      → IsAnswered s k actor id e
      → ((j : String) → RespondedIfGiven s.department_work_packages j (lookup j m))
      → (j : String) → RespondedIfGiven k.department_work_packages j (lookup j (insert id e m))
  answered_at s k actor id e m a v j = elim (Bool-cases (id == j)) [
    | inl same ↦
        let is_j = (eq_iff id j).0 same in
        rw (lookup-insert id j e m, same)
          (subst (λ i. IsResponded k.department_work_packages i e) is_j a.answered)
    | inr other ↦
        rw (lookup-insert id j e m, other)
          (IfGiven-map s.department_work_packages k.department_work_packages j (lookup j m)
            (λ d r. a.others j d other r) (v j))
  ]

  entered_at :
      (s k : KernelState) (actor : CivicActor) (id : String) (e : ResponseEntry)
      (m : List (String × ResponseEntry))
      → IsAnswered s k actor id e
      → ((j : String) → IsGiven s.department_work_packages j → lookup j m ≢ none)
      → (j : String) → IsGiven k.department_work_packages j
      → lookup j (insert id e m) ≢ none
  entered_at s k actor id e m a v j g = elim (Bool-cases (id == j)) [
    | inl same ↦ rw (lookup-insert id j e m, same) (λ x. cc)
    | inr other ↦ rw (lookup-insert id j e m, other) (v j ((a.reviews j other).0 g))
  ]

  -- The brief is cleared before the command, so that a failure leaves the ledgers right as well.
  pass_response-IsLedgered :
      (s : PlaneState) (a : ActorRecord) (id : String) (r : ResponseInput)
      → s.published_brief ≡ none
      → All (IsElsewhere s.response_inputs s.kernel.department_work_packages id) s.response_reviews
      → IsLedgered clock s
      → Leaves (IsLedgered clock) (pass_response clock city config s a id r)
  unfolding pass_response
  pass_response-IsLedgered s a id r cleared elsewhere v =
      let c =
        record_department_response (role_actor a.id department_agent a.department_id) id r.summary
          r.citations in
      dispatched-state (IsLedgered clock) clock config s c _ v (λ k done.
        let w = dispatch-IsHandled clock config s.kernel k c done in
        let e : ResponseEntry = record { actor_id = a.id; response = r } in
        let answered = response-IsAnswered s.kernel k w.actor id e w.handled in
        record {
          holds = record {
            brief = subst (λ b. BriefAgrees b k.reviewed_citizen_brief) (sym cleared) tt;
            result = subst (ResultAgrees clock s.participation) (sym answered.result) v.result;
            responses = answered_at s.kernel k w.actor id e s.response_inputs answered v.responses;
            entered = entered_at s.kernel k w.actor id e s.response_inputs answered v.entered;
            reviews =
                answered-IsReceipt s.response_inputs s.kernel.department_work_packages
                  k.department_work_packages id e s.response_reviews
                  (λ j other. (answered.reviews j other).1) elsewhere;
          };
        })

  pub respond-IsLedgered :
      (s : PlaneState) (a : ActorRecord) (id : String) (r : ResponseInput)
      → IsLedgered clock s
      → Leaves (IsLedgered clock) (respond clock city config s a id r)
  unfolding respond
  respond-IsLedgered s a id r v =
      by_entry-state (IsLedgered clock) (lookup id s.response_inputs) _ _
        (λ fresh.
          pass_response-IsLedgered (record s { published_brief = none }) a id r refl
            (unanswered-IsElsewhere s.response_inputs s.kernel.department_work_packages id
              s.response_reviews fresh v.reviews)
            (record {
              brief = tt;
              result = v.result;
              responses = v.responses;
              entered = v.entered;
              reviews = v.reviews;
            }))
        (λ entry _.
          if-state (IsLedgered clock) (not (entry.actor_id == a.id)) _ _ (λ _. record { holds = v })
            (λ _.
              if-state (IsLedgered clock) (same_response entry.response r) _ _
                (λ _. record { holds = v })
                (λ _.
                  pass_response-IsLedgered
                    (record s {
                      published_brief = none;
                      response_reviews = forget_reviews (review_key id "") s.response_reviews;
                    })
                    a id r refl
                    (forget_reviews-IsElsewhere s.response_inputs s.kernel.department_work_packages
                      id s.response_reviews v.reviews)
                    (record {
                      brief = tt;
                      result = v.result;
                      responses = v.responses;
                      entered = v.entered;
                      reviews =
                          elsewhere-IsReceipt s.response_inputs s.kernel.department_work_packages id
                            (forget_reviews (review_key id "") s.response_reviews)
                            (forget_reviews-IsElsewhere s.response_inputs
                              s.kernel.department_work_packages id s.response_reviews v.reviews);
                    }))))

  pub pass_review-IsLedgered :
      (s : PlaneState) (a : ActorRecord) (id : String)
      → IsLedgered clock s
      → Leaves (IsLedgered clock) (pass_review clock city config s a id)
  unfolding pass_review
  pass_review-IsLedgered s a id v =
      let c = review_department_response (role_actor a.id department_reviewer a.department_id) id in
      if-state (IsLedgered clock) (contains (review_key id a.id) s.response_reviews) _ _
        (λ _. record { holds = v })
        (λ _. dispatched-state (IsLedgered clock) clock config s c _ v (λ k done.
          let w = dispatch-IsHandled clock config s.kernel k c done in
          let (kept, given, assessed) = review-Kept s.kernel k w.actor id w.handled in
          let u = kernel_step s k kept v in
          record {
            holds = record {
              brief = u.brief;
              result = u.result;
              responses = u.responses;
              entered = u.entered;
              reviews =
                  All-append (IsReceipt s.response_inputs k.department_work_packages)
                    s.response_reviews (review_key id a.id ∷ []) u.reviews
                    (
                      record {
                        id = id;
                        reviewer_id = a.id;
                        key_is = refl;
                        entered = v.entered id given;
                        assessed = assessed;
                      },
                      tt,
                    );
            };
          }))
