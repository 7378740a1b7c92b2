-- ===== src/Staging/Process/Turns.antt =====
-- Every turn keeps the invariant of a process.
use stadtstack.Base.{String, List, [], ◌∷◌, All, refl, arith}
use stadtstack.Staging.Runtime.State
use stadtstack.Staging.Runtime.State.{
  Phase, new, starting, ready, draining, stopped, failed, Runtime,
}
use stadtstack.Staging.Process.State.{Child, Process, initial_process}
use stadtstack.Staging.Process.Invariant.{ProcessInv, settle_process_release-Inv, turn_child-Inv}
use stadtstack.Staging.Process.Step.{
  ProcessEvent, start_called, start_resumes, close_called, close_resumes, release_settles,
  child_turns, process_step, ProcessReach, turned,
}
use stadtstack.Staging.Runtime.Step.{created}
use stadtstack.Staging.Process.Children
use stadtstack.Staging.Process.Starting.{start_process-Inv}
use stadtstack.Staging.Process.Looping.{resume_process_start-Inv}
use stadtstack.Staging.Process.Ending.{close_process-Inv, resume_process_close-Inv}

process_step-Inv : (s : Process) (e : ProcessEvent) → ProcessInv s → ProcessInv (process_step s e)
unfolding process_step
process_step-Inv s (start_called t) h = start_process-Inv t s h
process_step-Inv s (start_resumes t) h = resume_process_start-Inv t s h
process_step-Inv s (close_called b) h = close_process-Inv b s h
process_step-Inv s (close_resumes b) h = resume_process_close-Inv b s h
process_step-Inv s (release_settles b) h = settle_process_release-Inv b s h
process_step-Inv s (child_turns n e) h = turn_child-Inv n e s h

initial_children :
    (P : Child → Type 0) (listeners : List (String × String))
    → ((id host : String) → P (record { id = id; host = host; runtime = State.initial_runtime }))
    → All P (initial_process listeners).children
unfolding initial_process
initial_children P [] k = tt
initial_children P ((id, host) ∷ listeners) k = (k id host, initial_children P listeners k)

initial_process-Inv : (listeners : List (String × String)) → ProcessInv (initial_process listeners)
unfolding initial_process State.initial_runtime
initial_process-Inv listeners = record {
  reached = initial_children Children.IsReached listeners (λ id host. created);
  control = ground arith;
  shape = initial_children Children.IsFresh listeners (λ id host. (refl, refl));
}

-- Between two turns a process's children are runtimes that their own turns have reached, started in
-- order and closed in reverse as far as `start` and `close` have come, and its release callback has
-- been called at most once.
pub process-Inv :
    {listeners : List (String × String)} {s : Process} → ProcessReach listeners s → ProcessInv s
process-Inv ProcessReach.created = initial_process-Inv _
process-Inv (turned {s = s} r e) = process_step-Inv s e (process-Inv r)
