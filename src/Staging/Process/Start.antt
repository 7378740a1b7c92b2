-- ===== src/Staging/Process/Start.antt =====
-- `start` of a process: the loop over its children.
use stadtstack.Base.{ℕ, suc, Bool, Option, none, some, if◌then◌else◌}
use stadtstack.Staging.Runtime.State
use stadtstack.Staging.Runtime.State.{Phase, new, starting, ready, stopped, failed, Runtime, health}
use stadtstack.Staging.Runtime.Start.{ListenAnswer, start_runtime}
use stadtstack.Staging.Process.State.{
  Child, StartProgress, not_started, start_skipped, starting_child, undoing_child, undo_releasing,
  start_fulfilled, start_rejected, Release, released, release_failed, Process, closing_requested,
  ready_port, child_at, update_child,
}
use stadtstack.Staging.Process.Close.{has_closed, undo_below, fail_start}

-- What happens when a child is about to start: whether `beforeBind` passes, which it does where
-- there is none, what the child's server says, and whether a server's `close` throws.
pub record Turn : Type 0 where
  pub guard_passes : Bool
  pub answer : ListenAnswer
  pub close_throws : Bool

abbrev pub start_child_runtime : ListenAnswer → Child → Runtime
start_child_runtime a c = start_runtime a c.runtime

unfoldable pub start_child : ℕ → ListenAnswer → Process → Process
unfolding update_child
start_child n a s = record s {
  children = update_child n (start_child_runtime a) s.children;
  start = starting_child n;
}

-- The loop's turn for child `n`, and its end.
unfoldable pub enter_child : Turn → ℕ → Option Child → Process → Process
unfolding start_child fail_start
enter_child t n none s = record s {
  phase = if closing_requested s.close then s.phase else ready;
  start = start_fulfilled;
}
enter_child t n (some c) s =
    if closing_requested s.close
    then record s { start = start_fulfilled }
    else if t.guard_passes
    then start_child n t.answer s
    else fail_start t.close_throws s

abbrev pub start_at : Phase → Turn → Process → Process
start_at stopped t s = record s { start = start_skipped }
start_at new t s = enter_child t 0 (child_at 0 s.children) (record s { phase = starting })
start_at _ t s = s

abbrev pub start_from : StartProgress → Turn → Process → Process
start_from not_started t s = start_at s.phase t s
start_from _ t s = s

-- `start`
unfoldable pub start_process : Turn → Process → Process
unfolding enter_child child_at
start_process t s = start_from s.start t s

-- Whether a child's `start` has come back, and whether it is ready then.
pub data Started : Type 0 where
  not_yet is_up is_down : Started

abbrev pub up_if : Option ℕ → Started
up_if (some port) = is_up
up_if none = is_down

abbrev pub started : Option Child → Started
started none = is_down
started (some c) = elim (State.start_promise c.runtime.start) [
  | some State.resolved ↦ up_if (ready_port (health c.runtime))
  | some State.rejected ↦ is_down
  | _ ↦ not_yet
]

abbrev pub after_start : Started → Turn → ℕ → Process → Process
after_start not_yet t n s = s
after_start is_up t n s = enter_child t (suc n) (child_at (suc n) s.children) s
after_start is_down t n s = fail_start t.close_throws s

abbrev pub after_undo_release : Release → Process → Process
after_undo_release released s = record s { start = start_rejected }
after_undo_release release_failed s = record s { start = start_rejected }
after_undo_release _ s = s

abbrev pub resume_start_at : StartProgress → Turn → Process → Process
resume_start_at (starting_child n) t s = after_start (started (child_at n s.children)) t n s
resume_start_at (undoing_child n) t s =
    if has_closed (child_at n s.children) then undo_below t.close_throws n s else s
resume_start_at undo_releasing t s = after_undo_release s.release s
resume_start_at _ t s = s

-- What follows each `await` of `start`.
unfoldable pub resume_process_start : Turn → Process → Process
unfolding enter_child child_at undo_below health
resume_process_start t s = resume_start_at s.start t s
