-- ===== src/City/Ledgers/Plane.antt =====
-- Every request keeps the ledgers in agreement with the kernel.
use stadtstack.Base.{ℕ, String, Option, none, some, List, [], ◌≡◌, refl, lookup, Result}
use stadtstack.Value.{Fields}
use stadtstack.Kernel.Types.{CivicKernelConfig}
use stadtstack.Kernel.State.{initial_state}
use stadtstack.City.Types.{CityConfig, CityError}
use stadtstack.City.Ingestion.{Artifact, ingestion_request, received, ingest_discussion}
use stadtstack.City.State.{PlaneState, initial_plane}
use stadtstack.City.Operations.{record_response, response_request, review_response, review_request}
use stadtstack.City.Publishing.{
  publish_reviewed_brief, publication_request, record_reviewed_participation, participation_request,
}
use stadtstack.City.Lemmas.{checked-state}
use stadtstack.City.Runs.{
  CityRequest, ingestion, craft_request, submission, response, review, publication, participation,
  perform, PlaneReach, start, after,
}
use stadtstack.City.Ledgers.{IsGiven, IsLedgered}
use stadtstack.City.Ledgers.Steps.{
  discussion-IsLedgered, craft-IsLedgered, submission-IsLedgered, respond-IsLedgered,
  pass_review-IsLedgered,
}
use stadtstack.City.Ledgers.Publications.{publish-IsLedgered, pass_participation-IsLedgered}

none_is_not_some : {A : Type 0} {a : A} → none ≡ some a → ⊥
none_is_not_some h = cc

module _ (clock : String → Option ℕ) (city : CityConfig) (config : CivicKernelConfig)
    (adapter : Fields → Option (List String) → Result CityError Artifact) where
  perform-IsLedgered :
      (s : PlaneState) (r : CityRequest)
      → IsLedgered clock s
      → IsLedgered clock (perform adapter clock city config s r)
  unfolding perform ingest_discussion record_response review_response publish_reviewed_brief
      record_reviewed_participation
  perform-IsLedgered s (ingestion raw answer) v =
      (checked-state (IsLedgered clock) s (ingestion_request city raw) _ v (λ (a, event, refs) h.
        checked-state (IsLedgered clock) s (received adapter clock city config event refs answer) _
          v (λ artifact r. discussion-IsLedgered clock city config adapter s a artifact v))).holds
  perform-IsLedgered s (craft_request raw) v = (craft-IsLedgered clock city config s raw v).holds
  perform-IsLedgered s (submission raw) v = (submission-IsLedgered clock city config s raw v).holds
  perform-IsLedgered s (response raw) v =
      (checked-state (IsLedgered clock) s (response_request clock city config s raw) _ v
        (λ (a, id, r) h. respond-IsLedgered clock city config s a id r v)).holds
  perform-IsLedgered s (review raw) v =
      (checked-state (IsLedgered clock) s (review_request clock city config s raw) _ v
        (λ (a, id) h. pass_review-IsLedgered clock city config s a id v)).holds
  perform-IsLedgered s (publication raw) v =
      (checked-state (IsLedgered clock) s (publication_request clock city config raw) _ v
        (λ (a, m) h. publish-IsLedgered clock city config s a m v)).holds
  perform-IsLedgered s (participation raw) v =
      (checked-state (IsLedgered clock) s (participation_request clock city config s raw) _ v
        (λ (a, given) h. pass_participation-IsLedgered clock city config s a given v)).holds

  none_found : (id : String) → IsGiven [] id → ⊥
  none_found id g = absurd (none_is_not_some g.found)

  -- In every state of the control plane, after requests that succeed and that fail: the kernel's
  -- brief has the summary of a brief in the ledger, and for its publisher the one in the ledger,
  -- trimmed; the participation result in the ledger is the one that the kernel has accepted, with
  -- none on both sides before; the responses in the ledger are the responses of the kernel's work
  -- packages, for every package that has one; and a receipt in the ledger of reviews is of a
  -- response in the ledger, which the kernel has as reviewed.
  pub plane-IsLedgered :
      {s : PlaneState} → PlaneReach adapter clock city config s → IsLedgered clock s
  unfolding initial_plane initial_state lookup
  plane-IsLedgered start = record {
    brief = tt;
    result = refl;
    responses = λ id. tt;
    entered = λ id g. absurd (none_found id g);
    reviews = tt;
  }
  plane-IsLedgered (after {s = s} r q) = perform-IsLedgered s q (plane-IsLedgered r)
