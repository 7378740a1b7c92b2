-- ===== src/City/Ledgers/Publications.antt =====
-- The operations that publish keep the ledgers in agreement.
use stadtstack.Base.{
  ℕ, String, ◌&&◌, Option, none, some, ◌≡◌, refl, sym, subst, arith, ◌==◌, concat_map, All, lookup,
  Result-cases, inl, inr, ok,
}
use stadtstack.Value.{Value, get}
use stadtstack.Value.Json.{same_json}
use stadtstack.Kernel.Types.{
  CivicActor, CivicKernelConfig, publish_reviewed_citizen_brief,
  record_reviewed_participation_result, publisher, participation_reviewer,
}
use stadtstack.Kernel.Participation.{normalize_participation_result}
use stadtstack.Kernel.State.{KernelState}
use stadtstack.Kernel.Packages.{dispatch_brief, response_citations}
use stadtstack.Kernel.Dispatch.{dispatch_result, store_result}
use stadtstack.Kernel.Actors.{normalize_civic_actor, normalize_actor_fields}
use stadtstack.Text.{trim}
use stadtstack.Kernel.Authority.{envelope_of, dispatch-IsHandled}
use stadtstack.City.Types.{CityConfig, ActorRecord}
use stadtstack.City.Config.{role_actor}
use stadtstack.City.State.{PlaneState}
use stadtstack.City.Publishing.{publish, pass_participation}
use stadtstack.City.Lemmas.{Leaves, by_entry-state, if-state, dispatched-state}
use stadtstack.City.Ledgers.{
  IsGiven, IsReceipt, RespondedIfGiven, BriefAgrees, ResultAgrees, IsLedgered,
}

module _ (clock : String → Option ℕ) (city : CityConfig) (config : CivicKernelConfig) where
  publisher_id_lem :
      (id m : String) (actor : CivicActor)
      → normalize_civic_actor
          (envelope_of (publish_reviewed_citizen_brief (role_actor id publisher none) m))
        ≡ ok actor
      → actor.id ≡ trim id
  unfolding normalize_civic_actor normalize_actor_fields get
  publisher_id_lem id m actor h = ground arith

  brief_stored :
      (s k : KernelState) (actor : CivicActor) (publisher_id m : String)
      → actor.id ≡ trim publisher_id
      → dispatch_brief config s actor m ≡ ok k
      → (k.participation_result ≡ s.participation_result)
        × (k.department_work_packages ≡ s.department_work_packages)
        × BriefAgrees
            (some (record { summary = m; publisher_id = publisher_id }))
            k.reviewed_citizen_brief
  unfolding dispatch_brief
  brief_stored s k actor publisher_id m same h = (
    ground arith,
    ground arith,
    subst (BriefAgrees (some (record { summary = m; publisher_id = publisher_id }))) (sym made)
        (refl, same),
  )
    where
      made :
          k.reviewed_citizen_brief
          ≡ some (record {
            summary = m;
            citations = concat_map response_citations s.department_work_packages;
            published_by = actor.id;
          })
      made = ground arith

  pub publish-IsLedgered :
      (s : PlaneState) (a : ActorRecord) (m : String)
      → IsLedgered clock s
      → Leaves (IsLedgered clock) (publish clock city config s a m)
  unfolding publish
  publish-IsLedgered s a m v =
      let c = publish_reviewed_citizen_brief (role_actor a.id publisher none) m in
      by_entry-state (IsLedgered clock) s.published_brief _ _
        (λ fresh. dispatched-state (IsLedgered clock) clock config s c _ v (λ k done.
          let w = dispatch-IsHandled clock config s.kernel k c done in
          let (same_result, same_packages, stored) =
            brief_stored s.kernel k w.actor a.id m
              (publisher_id_lem a.id m w.actor w.authentic.envelope) w.handled in
          record {
            holds = record {
              brief = stored;
              result = subst (ResultAgrees clock s.participation) (sym same_result) v.result;
              responses = λ id.
                  subst (λ ps. RespondedIfGiven ps id (lookup id s.response_inputs))
                    (sym same_packages) (v.responses id);
              entered = λ id g. v.entered id (subst (λ ps. IsGiven ps id) same_packages g);
              reviews =
                  subst (λ ps. All (IsReceipt s.response_inputs ps) s.response_reviews)
                    (sym same_packages) v.reviews;
            };
          }))
        (λ entry _.
          if-state (IsLedgered clock) (entry.publisher_id == a.id && entry.summary == m) _ _
            (λ _. record { holds = v }) (λ _. record { holds = v }))

  result_stored :
      (s k : KernelState) (actor : CivicActor) (given : Value)
      → s.participation_result ≡ none
      → dispatch_result clock s actor given ≡ ok k
      → (k.reviewed_citizen_brief ≡ s.reviewed_citizen_brief)
        × (k.department_work_packages ≡ s.department_work_packages)
        × ResultAgrees clock (some given) k.participation_result
  unfolding dispatch_result store_result
  result_stored s k actor given fresh h =
      elim (Result-cases (normalize_participation_result clock given)) [
        | inl (e, fails) ↦ absurd (ground arith)
        | inr (r, accepted) ↦
            let made : k.participation_result ≡ some r = ground arith in
            (
              ground arith,
              ground arith,
              subst (ResultAgrees clock (some given)) (sym made) accepted,
            )
      ]

  pub pass_participation-IsLedgered :
      (s : PlaneState) (a : ActorRecord) (given : Value)
      → IsLedgered clock s
      → Leaves (IsLedgered clock) (pass_participation clock city config s a given)
  unfolding pass_participation
  pass_participation-IsLedgered s a given v =
      let c =
        record_reviewed_participation_result (role_actor a.id participation_reviewer none) given in
      by_entry-state (IsLedgered clock) s.participation _ _
        (λ fresh. dispatched-state (IsLedgered clock) clock config s c _ v (λ k done.
          let w = dispatch-IsHandled clock config s.kernel k c done in
          let none_yet =
            subst (λ o. ResultAgrees clock o s.kernel.participation_result) fresh v.result in
          let (same_brief, same_packages, stored) =
            result_stored s.kernel k w.actor given none_yet w.handled in
          record {
            holds = record {
              brief = subst (BriefAgrees s.published_brief) (sym same_brief) v.brief;
              result = stored;
              responses = λ id.
                  subst (λ ps. RespondedIfGiven ps id (lookup id s.response_inputs))
                    (sym same_packages) (v.responses id);
              entered = λ id g. v.entered id (subst (λ ps. IsGiven ps id) same_packages g);
              reviews =
                  subst (λ ps. All (IsReceipt s.response_inputs ps) s.response_reviews)
                    (sym same_packages) v.reviews;
            };
          }))
        (λ old _.
          if-state (IsLedgered clock) (same_json old given) _ _ (λ _. record { holds = v })
            (λ _. record { holds = v }))
