-- ===== src/City/Lemmas.antt =====
-- What an outcome's state satisfies: the state before, and what follows each step, do.
use stadtstack.Base.{
  ℕ, String, Bool, true, false, Option, none, some, if◌then◌else◌, ◌≡◌, refl, Result, ok, err,
}
use stadtstack.Kernel.Types.{CivicKernelConfig, CivicCommand}
use stadtstack.Kernel.State.{KernelState}
use stadtstack.Kernel.Dispatch.{dispatch}
use stadtstack.City.Types.{CityError}
use stadtstack.City.State.{PlaneState, Outcome, by_entry, checked, after_dispatch, dispatched}

-- The state of an outcome satisfies `P`.
pub record Leaves (P : PlaneState → Type 0) {B : Type 0} (o : Outcome B) : Type 0 where
  pub holds : P o.state

module _ (P : PlaneState → Type 0) where
  pub checked-state :
      {A B : Type 0} (s : PlaneState) (m : Result CityError A) (run : A → Outcome B)
      → P s
      → ((a : A) → m ≡ ok a → Leaves P (run a))
      → Leaves P (checked s m run)
  checked-state s (err e) run p follows = record { holds = p }
  checked-state s (ok a) run p follows = follows a refl

  pub by_entry-state :
      {A B : Type 0} (o : Option A) (new : Outcome B) (old : A → Outcome B)
      → (o ≡ none → Leaves P new)
      → ((a : A) → o ≡ some a → Leaves P (old a))
      → Leaves P (by_entry o new old)
  by_entry-state none new old p follows = p refl
  by_entry-state (some a) new old p follows = follows a refl

  pub if-state :
      {B : Type 0} (b : Bool) (x y : Outcome B)
      → (b ≡ true → Leaves P x)
      → (b ≡ false → Leaves P y)
      → Leaves P (if b then x else y)
  if-state true x y p q = p refl
  if-state false x y p q = q refl

  after_dispatch-state :
      {B E : Type 0} (s : PlaneState) (wrap : E → CityError) (m : Result E KernelState)
      (run : PlaneState → Outcome B)
      → P s
      → ((k : KernelState) → m ≡ ok k → Leaves P (run (record s { kernel = k })))
      → Leaves P (after_dispatch s wrap m run)
  after_dispatch-state s wrap (err e) run p follows = record { holds = p }
  after_dispatch-state s wrap (ok k) run p follows = follows k refl

  pub dispatched-state :
      {B : Type 0} (clock : String → Option ℕ) (config : CivicKernelConfig) (s : PlaneState)
      (c : CivicCommand) (run : PlaneState → Outcome B)
      → P s
      → ((k : KernelState)
          → dispatch clock config s.kernel c ≡ ok k
          → Leaves P (run (record s { kernel = k })))
      → Leaves P (dispatched clock config s c run)
  unfolding dispatched
  dispatched-state clock config s c run p follows =
      after_dispatch-state s _ (dispatch clock config s.kernel c) run p follows
