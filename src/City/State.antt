-- ===== src/City/State.antt =====
-- The variables that `createCityControlPlane` closes over, and what an operation leaves. An
-- operation of the control plane may change them and then fail, so that an outcome has both.
use stadtstack.Base.{ℕ, String, Option, none, some, List, [], Result, ok, err}
use stadtstack.Value.{Value}
use stadtstack.Kernel.Types.{CivicKernelConfig, CivicCommand}
use stadtstack.Kernel.State.{KernelState, initial_state}
use stadtstack.Kernel.Dispatch.{dispatch}
use stadtstack.City.Types.{CityError, kernel_error}
use stadtstack.City.Requests.{ResponseInput}

pub record ResponseEntry : Type 0 where
  pub actor_id : String
  pub response : ResponseInput

pub record BriefEntry : Type 0 where
  pub summary : String
  pub publisher_id : String

pub record PlaneState : Type 0 where
  pub kernel : KernelState
  pub response_inputs : List (String × ResponseEntry)
  pub response_reviews : List String
  pub published_brief : Option BriefEntry
  pub participation : Option Value

unfoldable pub initial_plane : PlaneState
initial_plane = record {
  kernel = initial_state;
  response_inputs = [];
  response_reviews = [];
  published_brief = none;
  participation = none;
}

pub record Outcome (A : Type 0) : Type 0 where
  pub state : PlaneState
  pub answer : Result CityError A

-- Checks that come before any write.
abbrev pub checked : {A B : Type 0} → PlaneState → Result CityError A → (A → Outcome B) → Outcome B
checked s (err e) run = record { state = s; answer = err e }
checked s (ok a) run = run a

-- Whether a ledger has an entry.
abbrev pub by_entry : {A B : Type 0} → Option A → Outcome B → (A → Outcome B) → Outcome B
by_entry none new old = new
by_entry (some a) new old = old a

-- The outcome of `kernel.dispatch` and what follows it.
abbrev pub after_dispatch :
    {B : Type 0}
    → PlaneState
    → {E : Type 0} → (E → CityError)
    → Result E KernelState
    → (PlaneState → Outcome B)
    → Outcome B
after_dispatch s wrap (err e) run = record { state = s; answer = err (wrap e) }
after_dispatch s wrap (ok k) run = run (record s { kernel = k })

module _ (clock : String → Option ℕ) (config : CivicKernelConfig) where
  unfoldable pub dispatched :
      {B : Type 0} → PlaneState → CivicCommand → (PlaneState → Outcome B) → Outcome B
  dispatched s c run = after_dispatch s kernel_error (dispatch clock config s.kernel c) run
