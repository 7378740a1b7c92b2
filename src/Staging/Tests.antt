-- ===== src/Staging/Tests.antt =====
-- A runtime that drains one request, a runtime whose bind fails, and a process of two listeners, run
-- on the definitions.
mod Witnesses
use stadtstack.Base.{
  ℕ, suc, String, Bool, true, false, none, some, List, [], ◌∷◌, ◌++◌, ◌≡◌, refl, ok, length, map,
  count_if,
}
use stadtstack.Value.{nat, Value, num, str, bool, name, field, end, obj}
use stadtstack.Staging.Listeners
use stadtstack.Staging.Runtime.State
use stadtstack.Staging.Runtime.State.{Runtime, initial_runtime, health, Health}
use stadtstack.Staging.Runtime.Start.{ServerView, ListenAnswer, address_info}
use stadtstack.Staging.Runtime.Step
use stadtstack.Staging.Runtime.Step.{Event, run, RuntimeReach, turned}
use stadtstack.Staging.Runtime.Invariant.{release_calls}
use stadtstack.Staging.Raw.{Raw, RawObject, plain, token, server_object, function_object}
use stadtstack.Staging.Process.State as Children
use stadtstack.Staging.Process.State.{Process, initial_process, process_health}
use stadtstack.Staging.Process.Start.{Turn}
use stadtstack.Staging.Process.Step as Turning
use stadtstack.Staging.Process.Step.{ProcessEvent, child_turns, process_run}
use stadtstack.Staging.Process.Config

abbrev pub unbound : ServerView
unbound = record { throws = false; listening = false; address_is_null = true }

abbrev pub listens : ListenAnswer
listens = record { before = unbound; listen_throws = false; after = unbound }

abbrev pub local : String
local = "127.0.0.1"

-- A bind at port 8080 and a request that stays open when `close` is called.
abbrev pub busy_events : List Event
busy_events =
    Step.start_called listens
    ∷ Step.listening (address_info local (nat 8080)) unbound
    ∷ Step.connection 1
    ∷ Step.request 2 3
    ∷ Step.close_called false
    ∷ []

abbrev pub busy : Runtime
busy = run local initial_runtime busy_events

busy_drains : busy.drain ≡ State.drain_waiting
unfolding run initial_runtime
busy_drains = refl

-- The connection, the request and its response end, and so does the drain.
abbrev end_events : List Event
end_events =
    Step.response_ends 3
    ∷ Step.request_ends 2
    ∷ Step.connection_ends 1
    ∷ Step.close_resumes false
    ∷ Step.server_close_done
    ∷ Step.close_resumes false
    ∷ Step.release_settles
    ∷ Step.close_resumes false
    ∷ []

busy_ends : (run local busy end_events).close ≡ State.closed
unfolding run initial_runtime
busy_ends = refl

busy_unforced : (run local busy end_events).drain ≡ State.drain_resolved false
unfolding run initial_runtime
busy_unforced = refl

-- A bind to another address is refused.
abbrev strayed : Runtime
strayed =
    run local initial_runtime
      (Step.start_called listens ∷ Step.listening (address_info "0.0.0.0" (nat 8080)) unbound ∷ [])

strayed_fails : (health strayed).detail ≡ "bind_failed"
unfolding run initial_runtime health
strayed_fails = refl

-- A process of two listeners.
abbrev pub two_listeners : List (String × String)
two_listeners = ("admission", "127.0.0.1") ∷ ("outbox", "127.0.0.1") ∷ []

abbrev pub good_turn : Turn
good_turn = record { guard_passes = true; answer = listens; close_throws = false }

abbrev refused_turn : Turn
refused_turn = record { guard_passes = false; answer = listens; close_throws = false }

abbrev pub ready_events : List ProcessEvent
ready_events =
    Turning.start_called good_turn
    ∷ child_turns 0 (Step.listening (address_info local (nat 8085)) unbound)
    ∷ Turning.start_resumes good_turn
    ∷ child_turns 1 (Step.listening (address_info local (nat 8087)) unbound)
    ∷ Turning.start_resumes good_turn
    ∷ []

abbrev pub ready_process : Process
ready_process = process_run (initial_process two_listeners) ready_events

ready_ports_shown :
    (process_health ready_process).ports ≡ ("admission", 8085) ∷ ("outbox", 8087) ∷ []
unfolding process_run initial_process process_health
ready_ports_shown = refl

-- The guard refuses the second listener: the first is closed again.
abbrev pub refused_events : List ProcessEvent
refused_events =
    Turning.start_called good_turn
    ∷ child_turns 0 (Step.listening (address_info local (nat 8085)) unbound)
    ∷ Turning.start_resumes refused_turn
    ∷ child_turns 1 Step.release_settles
    ∷ child_turns 1 (Step.close_resumes false)
    ∷ Turning.start_resumes good_turn
    ∷ child_turns 0 (Step.close_resumes false)
    ∷ child_turns 0 Step.server_close_done
    ∷ child_turns 0 (Step.close_resumes false)
    ∷ child_turns 0 Step.release_settles
    ∷ child_turns 0 (Step.close_resumes false)
    ∷ Turning.start_resumes good_turn
    ∷ Turning.release_settles false
    ∷ Turning.start_resumes good_turn
    ∷ []

abbrev pub refused_process : Process
refused_process = process_run (initial_process two_listeners) refused_events

pub refused_rejects : refused_process.start ≡ Children.start_rejected
unfolding process_run initial_process
refused_rejects = refl

-- A ready process that closes, outbox first.
abbrev close_events : List ProcessEvent
close_events =
    Turning.close_called false
    ∷ Turning.close_resumes false
    ∷ child_turns 1 (Step.close_resumes false)
    ∷ child_turns 1 Step.server_close_done
    ∷ child_turns 1 (Step.close_resumes false)
    ∷ child_turns 1 Step.release_settles
    ∷ child_turns 1 (Step.close_resumes false)
    ∷ Turning.close_resumes false
    ∷ child_turns 0 (Step.close_resumes false)
    ∷ child_turns 0 Step.server_close_done
    ∷ child_turns 0 (Step.close_resumes false)
    ∷ child_turns 0 Step.release_settles
    ∷ child_turns 0 (Step.close_resumes false)
    ∷ Turning.close_resumes false
    ∷ Turning.release_settles true
    ∷ Turning.close_resumes false
    ∷ []

abbrev pub closed_events : List ProcessEvent
closed_events = ready_events ++ close_events

abbrev pub closed_process : Process
closed_process = process_run (initial_process two_listeners) closed_events

pub closed_rejects : closed_process.close ≡ Children.close_rejected
unfolding process_run initial_process
closed_rejects = refl
