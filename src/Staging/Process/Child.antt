-- ===== src/Staging/Process/Child.antt =====
-- What the turns of a child keep, and what the calls of the process do to it.
use stadtstack.Base.{
  String, Bool, true, false, some, ◌≡◌, arith, inl, inr, Bool-cases, if◌then◌else◌,
}
use stadtstack.Staging.Runtime.State.{Runtime, health}
use stadtstack.Staging.Runtime.Start.{ListenAnswer, start_runtime}
use stadtstack.Staging.Runtime.Close.{close_runtime}
use stadtstack.Staging.Runtime.Step
use stadtstack.Staging.Runtime.Step.{Event, RuntimeReach, created, turned, step}
use stadtstack.Staging.Runtime.Invariant.{runtime-Inv}
use stadtstack.Staging.Runtime.Closing.{step-closing, closed-stays}
use stadtstack.Staging.Process.State.{Child}
use stadtstack.Staging.Process.Start.{is_up, started}
use stadtstack.Staging.Process.Step.{is_call, child_step}
use stadtstack.Staging.Process.Children.{IsFresh, IsOpen, IsUp, IsAsked, IsClosed, IsReached, Keeps}

-- What the events of a child's server keep.
pub child_step-IsFresh : (e : Event) → Keeps (child_step e) IsFresh
unfolding step
child_step-IsFresh e c h = ground arith

pub child_step-IsOpen : (e : Event) → Keeps (child_step e) IsOpen
unfolding step
child_step-IsOpen e c h = ground arith

pub child_step-IsUp : (e : Event) → Keeps (child_step e) IsUp
unfolding step
child_step-IsUp e c h = ground arith

pub child_step-IsAsked : (e : Event) → Keeps (child_step e) IsAsked
child_step-IsAsked e c h = elim (Bool-cases (is_call e)) [
  | inl call ↦ ground arith
  | inr turn ↦ ground (arith, step-closing c.host c.runtime e h)
]

pub child_step-IsClosed : (e : Event) → Keeps (child_step e) IsClosed
child_step-IsClosed e c h = elim (Bool-cases (is_call e)) [
  | inl call ↦ ground arith
  | inr turn ↦ ground (arith, closed-stays c.host c.runtime e h)
]

reached_if :
    (b : Bool) {host : String} (s t : Runtime)
    → RuntimeReach host s
    → RuntimeReach host t
    → RuntimeReach host (if b then s else t)
reached_if true s t r q = r
reached_if false s t r q = q

pub child_step-IsReached : (e : Event) → Keeps (child_step e) IsReached
child_step-IsReached e c r = reached_if (is_call e) c.runtime _ r (turned r e)

-- What the calls of the process keep and do.
pub start_runtime-IsReached : (a : ListenAnswer) → Keeps (λ c. start_runtime a c.runtime) IsReached
unfolding step
start_runtime-IsReached a c r = turned r (Step.start_called a)

pub close_runtime-IsReached : (b : Bool) → Keeps (λ c. close_runtime b c.runtime) IsReached
unfolding step
close_runtime-IsReached b c r = turned r (Step.close_called b)

pub start_runtime-IsOpen : (a : ListenAnswer) → Keeps (λ c. start_runtime a c.runtime) IsOpen
unfolding start_runtime
start_runtime-IsOpen a c h = ground arith

pub close_runtime-IsAsked :
    (b : Bool) (c : Child) → IsAsked (record c { runtime = close_runtime b c.runtime })
unfolding close_runtime
close_runtime-IsAsked b c = ground arith

pub close_runtime-IsClosed : (b : Bool) → Keeps (λ c. close_runtime b c.runtime) IsClosed
unfolding close_runtime
close_runtime-IsClosed b c h = ground arith

-- A child whose start came back ready is up.
pub started-IsUp : (c : Child) → IsReached c → IsOpen c → started (some c) ≡ is_up → IsUp c
unfolding health
started-IsUp c r o h = ground (arith, runtime-Inv r)
