-- ===== src/Staging/Process/Close.antt =====
-- `close` of a process, and `stopChildrenInReverse`.
use stadtstack.Base.{ℕ, zero, suc, Bool, true, false, Option, none, some, if◌then◌else◌, length}
use stadtstack.Staging.Runtime.State
use stadtstack.Staging.Runtime.State.{Phase, starting, ready, draining, stopped, failed, Runtime}
use stadtstack.Staging.Runtime.Close.{close_runtime}
use stadtstack.Staging.Process.State.{
  Child, StartProgress, not_started, undoing_child, undo_releasing, CloseProgress, not_closing,
  awaiting_start, closing_child, close_releasing, close_fulfilled, close_rejected, Release,
  released, release_failed, Process, start_is_settled, invoke_release, child_at, update_child,
}

abbrev pub close_child_runtime : Bool → Child → Runtime
close_child_runtime throws c = close_runtime throws c.runtime

-- `children[index].lifecycle.close()`
unfoldable pub close_child : Bool → ℕ → Process → Process
unfolding update_child
close_child throws n s = record s {
  children = update_child n (close_child_runtime throws) s.children;
}

abbrev pub has_closed : Option Child → Bool
has_closed (some c) = elim c.runtime.close [ State.closed ↦ true | _ ↦ false ]
has_closed none = false

-- The catch of `start`, from the child below `n` on.
unfoldable pub undo_below : Bool → ℕ → Process → Process
unfolding close_child invoke_release
undo_below throws zero s = record (invoke_release s) { start = undo_releasing }
undo_below throws (suc n) s = record (close_child throws n s) { start = undoing_child n }

unfoldable pub fail_start : Bool → Process → Process
unfolding undo_below
fail_start throws s = undo_below throws (length s.children) (record s { phase = failed })

-- `finishClose`, from the child below `n` on.
unfoldable pub close_below : Bool → ℕ → Process → Process
unfolding close_child invoke_release
close_below throws zero s = record (invoke_release (record s { phase = stopped })) {
  close = close_releasing;
}
close_below throws (suc n) s = record (close_child throws n s) { close = closing_child n }

abbrev pub closing_phase : Phase → Phase
closing_phase starting = draining
closing_phase ready = draining
closing_phase p = p

-- `if (startPromise) await startPromise`
abbrev pub close_from : StartProgress → Bool → Process → Process
close_from not_started throws s = close_below throws (length s.children) s
close_from _ throws s = record s { close = awaiting_start }

abbrev pub close_by : CloseProgress → Bool → Process → Process
close_by not_closing throws s =
    close_from s.start throws (record s { phase = closing_phase s.phase })
close_by _ throws s = s

-- `close`
unfoldable pub close_process : Bool → Process → Process
unfolding close_below
close_process throws s = close_by s.close throws s

-- The promise of the release, and of `close` with it: the catch asks for the same promise again.
abbrev pub after_release : Release → Process → Process
after_release released s = record s { close = close_fulfilled }
after_release release_failed s = record s { close = close_rejected }
after_release _ s = s

abbrev pub resume_close_at : CloseProgress → Bool → Process → Process
resume_close_at awaiting_start throws s =
    if start_is_settled s.start then close_below throws (length s.children) s else s
resume_close_at (closing_child n) throws s =
    if has_closed (child_at n s.children) then close_below throws n s else s
resume_close_at close_releasing throws s = after_release s.release s
resume_close_at _ throws s = s

-- What follows each `await` of `finishClose`.
unfoldable pub resume_process_close : Bool → Process → Process
unfolding close_below child_at
resume_process_close throws s = resume_close_at s.close throws s
