-- ===== src/Kernel/Runs.antt =====
-- The states that accepted commands reach.
use stadtstack.Base.{ℕ, String, Option, ◌≡◌, ok}
use stadtstack.Kernel.Types.{CivicKernelConfig, CivicCommand}
use stadtstack.Kernel.State.{KernelState, initial_state}
use stadtstack.Kernel.Dispatch.{dispatch}
use stadtstack.Kernel.Invariant.{Inv, initial_state-Inv}
use stadtstack.Kernel.Invariant.Steps.{dispatch-Inv}

-- `t` is reached from `s`; a command that throws leaves the state, and is no step.
pub data Reach (clock : String → Option ℕ) (config : CivicKernelConfig) (s : KernelState)
    : KernelState → Type 0 where
  here : Reach clock config s s
  next :
      {t u : KernelState}
      → Reach clock config s t
      → (c : CivicCommand) → dispatch clock config t c ≡ ok u
      → Reach clock config s u

module _ (clock : String → Option ℕ) (config : CivicKernelConfig) where
  pub Reach-Inv : {s t : KernelState} → Inv config s → Reach clock config s t → Inv config t
  Reach-Inv v here = v
  Reach-Inv v (next {t = t} {u = u} r c h) = dispatch-Inv clock config t u c (Reach-Inv v r) h

  -- In every state that commands reach from the initial one: each suggestion's discussion is
  -- recorded; the work packages are, for each submitted suggestion once, in some order of these, one for
  -- each department of the configuration in its order, with that suggestion, that department and the
  -- id made of the two, and there are no others; each response has a registered department
  -- agent for its author; and a published brief carries the citations of the first round of
  -- packages, all of them reviewed.
  pub reachable-Inv : {s : KernelState} → Reach clock config initial_state s → Inv config s
  reachable-Inv r = Reach-Inv (initial_state-Inv config) r
