-- ===== src/Staging/Process/Looping.antt =====
-- What follows each `await` of the loop of `start` keeps the invariant of a process.
use stadtstack.Base.{ℕ, suc, true, ◌≡◌, refl, arith, subst}
use stadtstack.Staging.Process.State.{
  StartProgress, not_started, start_skipped, start_fulfilled, undo_releasing, start_rejected,
  starting_child, undoing_child, Release, not_released, releasing, released, release_failed,
  Process, child_at,
}
use stadtstack.Staging.Process.Start
use stadtstack.Staging.Process.Close
use stadtstack.Staging.Process.Invariant.{ProcessInv, is_settled}
use stadtstack.Staging.Process.Children
use stadtstack.Staging.Process.Child
use stadtstack.Staging.Process.Shapes.{is_early, early-Shape, start-Shape}
use stadtstack.Staging.Process.Undoing.{Undone-next, Failing, undo_below-Inv, if-Inv}
use stadtstack.Staging.Process.Starting.{Looping, fail_start-Inv, enter_child-Inv}

loop_lem : (n : ℕ) (s : Process) → s.start ≡ starting_child n → ProcessInv s → Looping s
loop_lem n s e h = record {
  reached = h.reached;
  early = ground (arith, h.control);
  phase_loops = ground (arith, h.control);
  unreleased = ground (arith, h.control);
  uncalled = ground (arith, h.control);
}

undo_lem : (n : ℕ) (s : Process) → s.start ≡ undoing_child n → ProcessInv s → Failing s
undo_lem n s e h = record {
  reached = h.reached;
  early = ground (arith, h.control);
  phase_fails = ground (arith, h.control);
  unreleased = ground (arith, h.control);
  uncalled = ground (arith, h.control);
}

after_start-Inv :
    (r : Start.Started) (t : Start.Turn) (n : ℕ) (s : Process)
    → Start.started (child_at n s.children) ≡ r
    → s.start ≡ starting_child n
    → ProcessInv s
    → ProcessInv (Start.after_start r t n s)
unfolding child_at Start.enter_child
after_start-Inv Start.not_yet t n s e p h = h
after_start-Inv Start.is_down t n s e p h = fail_start-Inv t.close_throws s (loop_lem n s p h)
after_start-Inv Start.is_up t n s e p h =
    let l = loop_lem n s p h in
    enter_child-Inv t (suc n) (child_at (suc n) s.children) s l refl (
      Children.Layout-up _ _ _ n s.children
        (λ c o at.
          Child.started-IsUp c (Children.All-at _ n s.children l.reached at) o
            (subst (λ d. Start.started d ≡ Start.is_up) at e))
        (start-Shape s.start (starting_child n) s.close s.children p l.early h.shape))

rejected-Inv :
    (s : Process)
    → s.start ≡ undo_releasing
    → is_settled s.release ≡ true
    → ProcessInv s
    → ProcessInv (record s { start = start_rejected })
rejected-Inv s p r h =
    let early : is_early s.close ≡ true = ground (arith, h.control) in
    record {
      reached = h.reached;
      control = ground (arith, h.control);
      shape =
          early-Shape start_rejected s.close s.children early
            (start-Shape s.start undo_releasing s.close s.children p early h.shape);
    }

after_undo_release-Inv :
    (r : Release) (s : Process)
    → s.release ≡ r
    → s.start ≡ undo_releasing
    → ProcessInv s
    → ProcessInv (Start.after_undo_release r s)
after_undo_release-Inv not_released s e p h = h
after_undo_release-Inv releasing s e p h = h
after_undo_release-Inv released s e p h = rejected-Inv s p (ground arith) h
after_undo_release-Inv release_failed s e p h = rejected-Inv s p (ground arith) h

resume_start_at-Inv :
    (p : StartProgress) (t : Start.Turn) (s : Process)
    → s.start ≡ p
    → ProcessInv s
    → ProcessInv (Start.resume_start_at p t s)
unfolding child_at Start.enter_child Close.undo_below
resume_start_at-Inv not_started t s e h = h
resume_start_at-Inv start_skipped t s e h = h
resume_start_at-Inv start_fulfilled t s e h = h
resume_start_at-Inv start_rejected t s e h = h
resume_start_at-Inv undo_releasing t s e h = after_undo_release-Inv s.release s refl e h
resume_start_at-Inv (starting_child n) t s e h =
    after_start-Inv (Start.started (child_at n s.children)) t n s refl e h
resume_start_at-Inv (undoing_child n) t s e h =
    let f = undo_lem n s e h in
    if-Inv (Close.has_closed (child_at n s.children)) _ _
      (λ c. undo_below-Inv t.close_throws n s f (
        Undone-next n s.children c
          (start-Shape s.start (undoing_child n) s.close s.children e f.early h.shape)))
      (λ c. h)

pub resume_process_start-Inv :
    (t : Start.Turn) (s : Process) → ProcessInv s → ProcessInv (Start.resume_process_start t s)
unfolding Start.resume_process_start
resume_process_start-Inv t s h = resume_start_at-Inv s.start t s refl h
