-- ===== src/Staging/Process/Ending.antt =====
-- `close` keeps the invariant of a process.
use stadtstack.Base.{Bool, true, false, length, ◌≡◌, refl, arith}
use stadtstack.Staging.Process.State.{
  StartProgress, not_started, start_skipped, start_fulfilled, undo_releasing, start_rejected,
  starting_child, undoing_child, CloseProgress, not_closing, awaiting_start, close_releasing,
  close_fulfilled, close_rejected, closing_child, start_is_settled, Release, not_released,
  releasing, released, release_failed, Process, child_at,
}
use stadtstack.Staging.Process.Close
use stadtstack.Staging.Process.Invariant.{
  ProcessInv, may_close_in, is_over, close_is_final, has_begun,
}
use stadtstack.Staging.Process.Shapes.{final-Shape, closing-Shape, awaiting-Shape}
use stadtstack.Staging.Process.Undoing.{
  Undone-length, Undone-next, Stopping, close_below-Inv, if-Inv,
}

await_start-Inv :
    (s : Process)
    → s.close ≡ not_closing
    → has_begun s.start ≡ true
    → ProcessInv s
    → ProcessInv (record s { phase = Close.closing_phase s.phase; close = awaiting_start })
await_start-Inv s c p h = record {
  reached = h.reached;
  control = ground (arith, h.control);
  shape = awaiting-Shape s.start s.close s.children c h.shape;
}

close_from-Inv :
    (p : StartProgress) (b : Bool) (s : Process)
    → s.start ≡ p
    → s.close ≡ not_closing
    → ProcessInv s
    → ProcessInv (Close.close_from p b (record s { phase = Close.closing_phase s.phase }))
close_from-Inv not_started b s e c h =
    close_below-Inv b (length s.children) (record s { phase = Close.closing_phase s.phase })
      (record {
        reached = h.reached;
        over = ground (arith, e);
        phase_open = ground (arith, h.control);
        release_asked = ground (arith, h.control);
        rejected_settled = h.control.rejected_settled;
        once = h.control.released_once;
      })
      (Undone-length _ s.children refl)
close_from-Inv start_skipped b s e c h = await_start-Inv s c (ground (arith, h.control)) h
close_from-Inv start_fulfilled b s e c h = await_start-Inv s c (ground arith) h
close_from-Inv undo_releasing b s e c h = await_start-Inv s c (ground arith) h
close_from-Inv start_rejected b s e c h = await_start-Inv s c (ground arith) h
close_from-Inv (starting_child n) b s e c h = await_start-Inv s c (ground arith) h
close_from-Inv (undoing_child n) b s e c h = await_start-Inv s c (ground arith) h

close_by-Inv :
    (c : CloseProgress) (b : Bool) (s : Process)
    → s.close ≡ c
    → ProcessInv s
    → ProcessInv (Close.close_by c b s)
close_by-Inv not_closing b s e h = close_from-Inv s.start b s refl e h
close_by-Inv awaiting_start b s e h = h
close_by-Inv close_releasing b s e h = h
close_by-Inv close_fulfilled b s e h = h
close_by-Inv close_rejected b s e h = h
close_by-Inv (closing_child n) b s e h = h

pub close_process-Inv :
    (b : Bool) (s : Process) → ProcessInv s → ProcessInv (Close.close_process b s)
unfolding Close.close_process
close_process-Inv b s h = close_by-Inv s.close b s refl h

stopping_lem :
    (s : Process)
    → is_over s.start ≡ true
    → may_close_in s.phase ≡ true
    → close_is_final s.close ≡ false
    → ProcessInv s
    → Stopping s
stopping_lem s o p c h = record {
  reached = h.reached;
  over = o;
  phase_open = p;
  release_asked = ground (arith, h.control);
  rejected_settled = h.control.rejected_settled;
  once = h.control.released_once;
}

after_release-Inv :
    (r : Release) (s : Process)
    → s.release ≡ r
    → s.close ≡ close_releasing
    → ProcessInv s
    → ProcessInv (Close.after_release r s)
after_release-Inv not_released s e c h = h
after_release-Inv releasing s e c h = h
after_release-Inv released s e c h = record {
  reached = h.reached;
  control = ground (arith, h.control);
  shape = final-Shape s.start s.close s.children (ground arith) h.shape;
}
after_release-Inv release_failed s e c h = record {
  reached = h.reached;
  control = ground (arith, h.control);
  shape = final-Shape s.start s.close s.children (ground arith) h.shape;
}

resume_close_at-Inv :
    (c : CloseProgress) (b : Bool) (s : Process)
    → s.close ≡ c
    → ProcessInv s
    → ProcessInv (Close.resume_close_at c b s)
unfolding Close.close_below child_at
resume_close_at-Inv not_closing b s e h = h
resume_close_at-Inv close_fulfilled b s e h = h
resume_close_at-Inv close_rejected b s e h = h
resume_close_at-Inv close_releasing b s e h = after_release-Inv s.release s refl e h
resume_close_at-Inv awaiting_start b s e h =
    if-Inv (start_is_settled s.start) _ _
      (λ settled.
        close_below-Inv b (length s.children) s
          (stopping_lem s (ground (arith, h.control)) (ground (arith, h.control)) (ground arith) h)
          (Undone-length _ s.children refl))
      (λ pending. h)
resume_close_at-Inv (closing_child n) b s e h =
    if-Inv (Close.has_closed (child_at n s.children)) _ _
      (λ c.
        close_below-Inv b n s
          (stopping_lem s (ground (arith, h.control)) (ground (arith, h.control)) (ground arith) h)
          (Undone-next n s.children c (closing-Shape s.start n s.close s.children e h.shape)))
      (λ c. h)

pub resume_process_close-Inv :
    (b : Bool) (s : Process) → ProcessInv s → ProcessInv (Close.resume_process_close b s)
unfolding Close.resume_process_close
resume_process_close-Inv b s h = resume_close_at-Inv s.close b s refl h
