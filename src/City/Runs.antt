-- ===== src/City/Runs.antt =====
-- The requests to the control plane, and the states that they reach.
use stadtstack.Base.{ℕ, String, Option, List, Result}
use stadtstack.Value.{Value, Fields}
use stadtstack.Kernel.Types.{CivicKernelConfig}
use stadtstack.City.Types.{CityConfig, CityError}
use stadtstack.City.Ingestion.{RelayReceipt, Artifact, ingest_discussion}
use stadtstack.City.State.{PlaneState, initial_plane}
use stadtstack.City.Operations.{craft, submit_to_administration, record_response, review_response}
use stadtstack.City.Publishing.{publish_reviewed_brief, record_reviewed_participation}

-- The requests that may change the state, by operation.
pub data CityRequest : Type 0 where
  ingestion : Value → Result CityError RelayReceipt → CityRequest
  craft_request submission response review publication participation : Value → CityRequest

module _ (adapter : Fields → Option (List String) → Result CityError Artifact)
    (clock : String → Option ℕ) (city : CityConfig) (config : CivicKernelConfig) where
  -- The state that a request leaves, whether it succeeds or fails.
  unfoldable pub perform : PlaneState → CityRequest → PlaneState
  perform s (ingestion raw answer) =
      (ingest_discussion adapter clock city config s raw answer).state
  perform s (craft_request raw) = (craft clock city config s raw).state
  perform s (submission raw) = (submit_to_administration clock city config s raw).state
  perform s (response raw) = (record_response clock city config s raw).state
  perform s (review raw) = (review_response clock city config s raw).state
  perform s (publication raw) = (publish_reviewed_brief clock city config s raw).state
  perform s (participation raw) = (record_reviewed_participation clock city config s raw).state

  pub data PlaneReach : PlaneState → Type 0 where
    start : PlaneReach initial_plane
    after : {s : PlaneState} → PlaneReach s → (r : CityRequest) → PlaneReach (perform s r)
