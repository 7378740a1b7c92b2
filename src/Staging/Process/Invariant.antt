-- ===== src/Staging/Process/Invariant.antt =====
-- What holds of a process between two turns.
use stadtstack.Base.{ℕ, Bool, true, false, List, All, ◌≡◌, arith, if◌then◌else◌}
use stadtstack.Staging.Runtime.State.{Phase, new, starting, ready, stopped, failed, Runtime}
use stadtstack.Staging.Runtime.Step.{Event}
use stadtstack.Staging.Process.State.{
  Child, StartProgress, not_started, start_skipped, start_fulfilled, undo_releasing, start_rejected,
  starting_child, undoing_child, CloseProgress, not_closing, awaiting_start, close_releasing,
  close_fulfilled, close_rejected, closing_child, Release, released, release_failed, Process,
  is_released, update_child,
}
use stadtstack.Staging.Process.Step.{child_step, turn_child, settle_process_release}
use stadtstack.Staging.Process.Children
use stadtstack.Staging.Process.Child

-- The phase of a process that nobody has asked to close.
abbrev pub open_phase : StartProgress → Phase
open_phase not_started = new
open_phase start_skipped = stopped
open_phase start_fulfilled = ready
open_phase undo_releasing = failed
open_phase start_rejected = failed
open_phase (starting_child n) = starting
open_phase (undoing_child n) = failed

-- While it closes, its phase is neither of these.
abbrev pub may_close_in : Phase → Bool
may_close_in ready = false
may_close_in stopped = false
may_close_in _ = true

abbrev pub PhaseFits : Phase → StartProgress → CloseProgress → Type 0
PhaseFits p s not_closing = p ≡ open_phase s
PhaseFits p s awaiting_start = may_close_in p ≡ true
PhaseFits p s (closing_child n) = may_close_in p ≡ true
PhaseFits p s close_releasing = p ≡ stopped
PhaseFits p s close_fulfilled = p ≡ stopped
PhaseFits p s close_rejected = p ≡ stopped

abbrev pub has_begun : StartProgress → Bool
has_begun not_started = false
has_begun start_skipped = false
has_begun _ = true

abbrev pub not_skipped : StartProgress → Bool
not_skipped start_skipped = false
not_skipped _ = true

abbrev pub is_over : StartProgress → Bool
is_over not_started = true
is_over start_skipped = true
is_over start_fulfilled = true
is_over start_rejected = true
is_over _ = false

abbrev pub start_asks_release : StartProgress → Bool
start_asks_release undo_releasing = true
start_asks_release start_rejected = true
start_asks_release _ = false

abbrev pub is_coherent : StartProgress → CloseProgress → Bool
is_coherent s not_closing = not_skipped s
is_coherent s awaiting_start = has_begun s
is_coherent s _ = is_over s

abbrev pub close_is_final : CloseProgress → Bool
close_is_final close_releasing = true
close_is_final close_fulfilled = true
close_is_final close_rejected = true
close_is_final _ = false

abbrev pub asks_release : StartProgress → CloseProgress → Bool
asks_release s c = if close_is_final c then true else start_asks_release s

abbrev pub is_settled : Release → Bool
is_settled released = true
is_settled release_failed = true
is_settled _ = false

-- The children while `start` decides.
abbrev pub StartShape : StartProgress → CloseProgress → List Child → Type 0
StartShape not_started c cs = All Children.IsFresh cs
StartShape start_skipped c cs = Unit
StartShape start_fulfilled not_closing cs = All Children.IsUp cs
StartShape start_fulfilled c cs = Unit
StartShape undo_releasing c cs = All Children.IsClosed cs
StartShape start_rejected c cs = All Children.IsClosed cs
StartShape (starting_child n) c cs =
    Children.Layout Children.IsUp Children.IsOpen Children.IsFresh n cs
StartShape (undoing_child n) c cs =
    Children.Layout Children.IsAny Children.IsAsked Children.IsClosed n cs

abbrev pub Shape : StartProgress → CloseProgress → List Child → Type 0
Shape s not_closing cs = StartShape s not_closing cs
Shape s awaiting_start cs = StartShape s awaiting_start cs
Shape s close_releasing cs = All Children.IsClosed cs
Shape s close_fulfilled cs = All Children.IsClosed cs
Shape s close_rejected cs = All Children.IsClosed cs
Shape s (closing_child n) cs =
    Children.Layout Children.IsAny Children.IsAsked Children.IsClosed n cs

pub record Control (s : Process) : Type 0 where
  pub coherent : is_coherent s.start s.close ≡ true
  pub phase_expected : PhaseFits s.phase s.start s.close
  pub release_expected : is_released s.release ≡ asks_release s.start s.close
  pub rejected_settled : s.start ≡ start_rejected → is_settled s.release ≡ true
  pub fulfilled_released : s.close ≡ close_fulfilled → s.release ≡ released
  pub rejected_failed : s.close ≡ close_rejected → s.release ≡ release_failed
  pub released_once : s.release_calls ≡ (if is_released s.release then 1 else 0)

pub record ProcessInv (s : Process) : Type 0 where
  pub reached : All Children.IsReached s.children
  pub control : Control s
  pub shape : Shape s.start s.close s.children

-- An event of a child's server keeps the shape.
any : (f : Child → Runtime) → Children.Keeps f Children.IsAny
any f c h = tt

StartShape-turn :
    (n : ℕ) (e : Event) (s : StartProgress) (c : CloseProgress) (cs : List Child)
    → StartShape s c cs
    → StartShape s c (update_child n (child_step e) cs)
StartShape-turn n e not_started c cs h = Children.update-All _ _ n cs (Child.child_step-IsFresh e) h
StartShape-turn n e start_skipped c cs h = tt
StartShape-turn n e start_fulfilled not_closing cs h =
    Children.update-All _ _ n cs (Child.child_step-IsUp e) h
StartShape-turn n e start_fulfilled awaiting_start cs h = tt
StartShape-turn n e start_fulfilled close_releasing cs h = tt
StartShape-turn n e start_fulfilled close_fulfilled cs h = tt
StartShape-turn n e start_fulfilled close_rejected cs h = tt
StartShape-turn n e start_fulfilled (closing_child m) cs h = tt
StartShape-turn n e undo_releasing c cs h =
    Children.update-All _ _ n cs (Child.child_step-IsClosed e) h
StartShape-turn n e start_rejected c cs h =
    Children.update-All _ _ n cs (Child.child_step-IsClosed e) h
StartShape-turn n e (starting_child m) c cs h =
    Children.update-Layout _ _ _ _ n m cs (Child.child_step-IsUp e) (Child.child_step-IsOpen e)
      (Child.child_step-IsFresh e) h
StartShape-turn n e (undoing_child m) c cs h =
    Children.update-Layout _ _ _ _ n m cs (any (child_step e)) (Child.child_step-IsAsked e)
      (Child.child_step-IsClosed e) h

Shape-turn :
    (n : ℕ) (e : Event) (s : StartProgress) (c : CloseProgress) (cs : List Child)
    → Shape s c cs
    → Shape s c (update_child n (child_step e) cs)
Shape-turn n e s not_closing cs h = StartShape-turn n e s not_closing cs h
Shape-turn n e s awaiting_start cs h = StartShape-turn n e s awaiting_start cs h
Shape-turn n e s close_releasing cs h = Children.update-All _ _ n cs (Child.child_step-IsClosed e) h
Shape-turn n e s close_fulfilled cs h = Children.update-All _ _ n cs (Child.child_step-IsClosed e) h
Shape-turn n e s close_rejected cs h = Children.update-All _ _ n cs (Child.child_step-IsClosed e) h
Shape-turn n e s (closing_child m) cs h =
    Children.update-Layout _ _ _ _ n m cs (any (child_step e)) (Child.child_step-IsAsked e)
      (Child.child_step-IsClosed e) h

same-Control : {s : Process} {cs : List Child} → Control s → Control (record s { children = cs })
same-Control c = record {
  coherent = c.coherent;
  phase_expected = c.phase_expected;
  release_expected = c.release_expected;
  rejected_settled = c.rejected_settled;
  fulfilled_released = c.fulfilled_released;
  rejected_failed = c.rejected_failed;
  released_once = c.released_once;
}

pub turn_child-Inv :
    (n : ℕ) (e : Event) (s : Process) → ProcessInv s → ProcessInv (turn_child n e s)
unfolding turn_child
turn_child-Inv n e s h = record {
  reached = Children.update-All _ _ n s.children (Child.child_step-IsReached e) h.reached;
  control = same-Control h.control;
  shape = Shape-turn n e s.start s.close s.children h.shape;
}

settled-Control : (b : Bool) (s : Process) → Control s → Control (settle_process_release b s)
unfolding settle_process_release
settled-Control b s c = ground arith

pub settle_process_release-Inv :
    (b : Bool) (s : Process) → ProcessInv s → ProcessInv (settle_process_release b s)
unfolding settle_process_release
settle_process_release-Inv b s h = record {
  reached = h.reached;
  control = settled-Control b s h.control;
  shape = h.shape;
}
