-- ===== src/Staging/Process/Step.antt =====
-- The turns of the event loop that concern a process, those of its children included.
use stadtstack.Base.{ℕ, String, Bool, true, false, List, [], ◌∷◌, if◌then◌else◌}
use stadtstack.Staging.Runtime.State.{Runtime}
use stadtstack.Staging.Runtime.Step
use stadtstack.Staging.Process.State.{
  Child, Release, releasing, released, release_failed, Process, initial_process, update_child,
}
use stadtstack.Staging.Process.Start.{Turn, start_process, resume_process_start}
use stadtstack.Staging.Process.Close.{close_process, resume_process_close}

-- `start` and `close` of a child are called by the process alone.
abbrev pub is_call : Step.Event → Bool
is_call (Step.start_called a) = true
is_call (Step.close_called b) = true
is_call _ = false

pub data ProcessEvent : Type 0 where
  start_called start_resumes : Turn → ProcessEvent
  close_called close_resumes : Bool → ProcessEvent
  release_settles : Bool → ProcessEvent
  child_turns : ℕ → Step.Event → ProcessEvent

abbrev pub child_step : Step.Event → Child → Runtime
child_step e c = if is_call e then c.runtime else Step.step c.host c.runtime e

unfoldable pub turn_child : ℕ → Step.Event → Process → Process
unfolding update_child Step.step
turn_child n e s = record s { children = update_child n (child_step e) s.children }

-- The release callback has ended, with an error or without.
abbrev pub settled_release : Bool → Release → Release
settled_release true releasing = release_failed
settled_release false releasing = released
settled_release fails r = r

unfoldable pub settle_process_release : Bool → Process → Process
settle_process_release fails s = record s { release = settled_release fails s.release }

unfoldable pub process_step : Process → ProcessEvent → Process
unfolding start_process resume_process_start close_process resume_process_close
    settle_process_release turn_child
process_step s (start_called t) = start_process t s
process_step s (start_resumes t) = resume_process_start t s
process_step s (close_called throws) = close_process throws s
process_step s (close_resumes throws) = resume_process_close throws s
process_step s (release_settles fails) = settle_process_release fails s
process_step s (child_turns n e) = turn_child n e s

unfoldable pub process_run : Process → List ProcessEvent → Process
unfolding process_step
process_run s [] = s
process_run s (e ∷ es) = process_run (process_step s e) es

pub data ProcessReach (listeners : List (String × String)) : Process → Type 0 where
  created : ProcessReach listeners (initial_process listeners)
  turned :
      {s : Process}
      → ProcessReach listeners s
      → (e : ProcessEvent) → ProcessReach listeners (process_step s e)
