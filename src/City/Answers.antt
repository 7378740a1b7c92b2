-- ===== src/City/Answers.antt =====
-- What the control plane answers.
use stadtstack.Base.{ℕ, String, true, Option, none, some, ◌≡◌, refl, arith, ok, err}
use stadtstack.Value.{Value, is_text}
use stadtstack.Kernel.Types.{
  CivicKernelConfig, ParticipationResult, record_reviewed_participation_result,
  participation_reviewer,
}
use stadtstack.Kernel.Participation.{normalize_participation_result}
use stadtstack.Kernel.State.{KernelState}
use stadtstack.Kernel.Dispatch.{dispatch, dispatch_result, store_result}
use stadtstack.Kernel.Project.{project_for}
use stadtstack.Kernel.Authority.{dispatch-IsHandled}
use stadtstack.City.Types.{ActorRecord, CityConfig, participation_result_missing}
use stadtstack.City.Config.{role_actor}
use stadtstack.City.State.{PlaneState, dispatched}
use stadtstack.City.Publishing.{
  pass_participation, record_reviewed_participation, participation_request, participation_receipt,
}

module _ (clock : String → Option ℕ) (city : CityConfig) (config : CivicKernelConfig) where
  result_recorded :
      (s k : KernelState) (a given : Value) (r : ParticipationResult)
      → s.participation_result ≡ none
      → normalize_participation_result clock given ≡ ok r
      → dispatch clock config s (record_reviewed_participation_result a given) ≡ ok k
      → k.participation_result ≡ some r
  unfolding dispatch_result store_result
  result_recorded s k a given r fresh accepted done =
      let w =
        dispatch-IsHandled clock config s k (record_reviewed_participation_result a given) done in
      let handled = w.handled in ground arith

  hidden_result :
      (s : PlaneState) (r : ParticipationResult)
      → s.kernel.participation_result ≡ some r
      → is_text "retracted" r.correction_state ≡ true
      → participation_receipt clock city config s ≡ err participation_result_missing
  unfolding participation_receipt project_for
  hidden_result s r e retracted = ground arith

  recorded_outcome :
      (s : PlaneState) (k : KernelState) (a : ActorRecord) (given : Value)
      → s.participation ≡ none
      → dispatch clock config s.kernel
          (record_reviewed_participation_result (role_actor a.id participation_reviewer none) given)
        ≡ ok k
      → pass_participation clock city config s a given ≡ record {
        state = record s { kernel = k; participation = some given };
        answer =
            participation_receipt clock city config
              (record s { kernel = k; participation = some given });
      }
  unfolding pass_participation dispatched
  recorded_outcome s k a given fresh done = rw (fresh, done) refl

  -- A first participation result that the kernel accepts and whose correction state is `retracted`
  -- is recorded, by the kernel and in the ledger, although the request fails with
  -- `participation_result_missing`.
  pub retracted_result_fails :
      (s : PlaneState) (k : KernelState) (raw given : Value) (a : ActorRecord)
      (r : ParticipationResult)
      → participation_request clock city config s raw ≡ ok (a, given)
      → s.participation ≡ none
      → s.kernel.participation_result ≡ none
      → dispatch clock config s.kernel
          (record_reviewed_participation_result (role_actor a.id participation_reviewer none) given)
        ≡ ok k
      → normalize_participation_result clock given ≡ ok r
      → is_text "retracted" r.correction_state ≡ true
      → ((record_reviewed_participation clock city config s raw).answer
          ≡ err participation_result_missing)
        × ((record_reviewed_participation clock city config s raw).state.kernel.participation_result
            ≡ some r)
        × ((record_reviewed_participation clock city config s raw).state.participation ≡ some given)
  unfolding record_reviewed_participation
  retracted_result_fails s k raw given a r checks fresh none_yet done accepted retracted =
      let recorded = result_recorded s.kernel k _ given r none_yet accepted done in
      let out = recorded_outcome s k a given fresh done in
      rw (checks, out)
        (
          hidden_result (record s { kernel = k; participation = some given }) r recorded retracted,
          recorded,
          refl,
        )
