-- ===== src/Staging/Process/Starting.antt =====
-- The loop of `start` keeps the invariant of a process.
use stadtstack.Base.{
  ℕ, Bool, true, false, Option, none, some, length, All, ◌≡◌, refl, arith, inl, inr, Bool-cases,
  if◌then◌else◌,
}
use stadtstack.Staging.Runtime.State.{Phase, new, starting, ready, draining, stopped, failed}
use stadtstack.Staging.Runtime.Start.{ListenAnswer}
use stadtstack.Staging.Process.State.{
  Child, StartProgress, not_started, start_skipped, start_fulfilled, undo_releasing, start_rejected,
  starting_child, undoing_child, CloseProgress, not_closing, Process, closing_requested,
  is_released, child_at,
}
use stadtstack.Staging.Process.Start
use stadtstack.Staging.Process.Close
use stadtstack.Staging.Process.Invariant.{ProcessInv, PhaseFits}
use stadtstack.Staging.Process.Children
use stadtstack.Staging.Process.Child
use stadtstack.Staging.Process.Shapes.{
  is_early, early-Shape, late-Shape, start-Shape, up-StartShape,
}
use stadtstack.Staging.Process.Undoing.{Undone-length, undo_below-Inv, if-Inv}

-- A process in its start loop.
pub record Looping (s : Process) : Type 0 where
  pub reached : All Children.IsReached s.children
  pub early : is_early s.close ≡ true
  pub phase_loops : PhaseFits s.phase (starting_child 0) s.close
  pub unreleased : is_released s.release ≡ false
  pub uncalled : s.release_calls ≡ 0

failed_fits : (c : CloseProgress) → is_early c ≡ true → PhaseFits failed (undoing_child 0) c
failed_fits c e = ground arith

pub fail_start-Inv : (b : Bool) (s : Process) → Looping s → ProcessInv (Close.fail_start b s)
unfolding Close.fail_start
fail_start-Inv b s l =
    undo_below-Inv b (length s.children) (record s { phase = failed })
      (record {
        reached = l.reached;
        early = l.early;
        phase_fails = failed_fits s.close l.early;
        unreleased = l.unreleased;
        uncalled = l.uncalled;
      })
      (Undone-length _ s.children refl)

-- A call of `start`, or a turn of its loop, where `close` has been called.
enter_closing-Inv :
    (s : Process)
    → Looping s
    → closing_requested s.close ≡ true
    → ProcessInv (record s { start = start_fulfilled })
enter_closing-Inv s l c = record {
  reached = l.reached;
  control = ground arith;
  shape = early-Shape start_fulfilled s.close s.children l.early (ground (arith, l.early));
}

start_child-Inv :
    (n : ℕ) (a : ListenAnswer) (s : Process)
    → Looping s
    → s.close ≡ not_closing
    → Children.Layout Children.IsUp Children.IsFresh Children.IsFresh n s.children
    → ProcessInv (Start.start_child n a s)
unfolding Start.start_child
start_child-Inv n a s l c h = record {
  reached = Children.update-All _ _ n s.children (Child.start_runtime-IsReached a) l.reached;
  control = ground arith;
  shape =
      early-Shape (starting_child n) s.close _ l.early
        (Children.update-at _ _ _ _ _ n s.children (λ d k. Child.start_runtime-IsOpen a d k.1) h);
}

pub enter_child-Inv :
    (t : Start.Turn) (n : ℕ) (o : Option Child) (s : Process)
    → Looping s
    → child_at n s.children ≡ o
    → Children.Layout Children.IsUp Children.IsFresh Children.IsFresh n s.children
    → ProcessInv (Start.enter_child t n o s)
unfolding Start.enter_child
enter_child-Inv t n none s l e h = record {
  reached = l.reached;
  control = ground arith;
  shape =
      early-Shape start_fulfilled s.close s.children l.early
        (up-StartShape s.close s.children (Children.Layout-past _ _ _ n s.children e h));
}
enter_child-Inv t n (some c) s l e h =
    if-Inv (closing_requested s.close) _ _ (enter_closing-Inv s l) (λ open_yet.
      if-Inv t.guard_passes _ _ (λ g. start_child-Inv n t.answer s l (ground (arith, l.early)) h)
        (λ g. fail_start-Inv t.close_throws s l))

closing_late : (c : CloseProgress) → is_early c ≡ false → closing_requested c ≡ true
closing_late c e = ground arith

ended-Inv :
    (b : Bool) (s : Process)
    → b ≡ true
    → ProcessInv (record s { start = start_fulfilled })
    → ProcessInv (record s { phase = if b then s.phase else ready; start = start_fulfilled })
ended-Inv true s e h = h
ended-Inv false s e h = absurd (ground arith)

enter_late-Inv :
    (t : Start.Turn) (n : ℕ) (o : Option Child) (s : Process)
    → closing_requested s.close ≡ true
    → ProcessInv (record s { start = start_fulfilled })
    → ProcessInv (Start.enter_child t n o s)
unfolding Start.enter_child
enter_late-Inv t n none s c h = ended-Inv (closing_requested s.close) s c h
enter_late-Inv t n (some d) s c h =
    if-Inv (closing_requested s.close) _ _ (λ e. h) (λ e. absurd (ground arith))

start_loop-Inv :
    (t : Start.Turn) (s : Process)
    → s.start ≡ not_started
    → is_early s.close ≡ true
    → ProcessInv s
    → ProcessInv (Start.start_at new t s)
start_loop-Inv t s n e h =
    enter_child-Inv t 0 (child_at 0 s.children) (record s { phase = starting })
      (record {
        reached = h.reached;
        early = e;
        phase_loops = ground (arith, h.control);
        unreleased = ground (arith, h.control);
        uncalled = ground (arith, h.control);
      })
      refl
      (Children.All-Layout Children.IsFresh s.children
        (start-Shape s.start not_started s.close s.children n e h.shape))

start_at-Inv :
    (p : Phase) (t : Start.Turn) (s : Process)
    → s.phase ≡ p
    → s.start ≡ not_started
    → ProcessInv s
    → ProcessInv (Start.start_at p t s)
unfolding child_at Start.enter_child
start_at-Inv new t s e n h = elim (Bool-cases (is_early s.close)) [
  | inl early ↦ start_loop-Inv t s n early h
  | inr late ↦
      enter_late-Inv t 0 (child_at 0 s.children) (record s { phase = starting })
        (closing_late s.close late)
        (record {
          reached = h.reached;
          control = ground (arith, h.control);
          shape =
              late-Shape not_started start_fulfilled s.close s.children late
                (ground (arith, h.shape));
        })
]
start_at-Inv starting t s e n h = h
start_at-Inv ready t s e n h = h
start_at-Inv draining t s e n h = h
start_at-Inv failed t s e n h = h
start_at-Inv stopped t s e n h = record {
  reached = h.reached;
  control = ground (arith, h.control);
  shape = late-Shape s.start start_skipped s.close s.children (ground (arith, h.control)) h.shape;
}

start_from-Inv :
    (p : StartProgress) (t : Start.Turn) (s : Process)
    → s.start ≡ p
    → ProcessInv s
    → ProcessInv (Start.start_from p t s)
start_from-Inv not_started t s e h = start_at-Inv s.phase t s refl e h
start_from-Inv start_skipped t s e h = h
start_from-Inv start_fulfilled t s e h = h
start_from-Inv undo_releasing t s e h = h
start_from-Inv start_rejected t s e h = h
start_from-Inv (starting_child n) t s e h = h
start_from-Inv (undoing_child n) t s e h = h

pub start_process-Inv :
    (t : Start.Turn) (s : Process) → ProcessInv s → ProcessInv (Start.start_process t s)
unfolding Start.start_process
start_process-Inv t s h = start_from-Inv s.start t s refl h
