-- ===== src/Staging/Tests/Witnesses.antt =====
-- The theorems on the staging lifecycles at the runs of the tests.
use stadtstack.Base.{ℕ, true, false, none, List, [], ◌∷◌, All, ◌≡◌, ◌≤◌, refl, inr}
use stadtstack.Value.{nat, Value, num, str, name, field, end, obj}
use stadtstack.Staging.Listeners.{Token, Facts, register_control}
use stadtstack.Staging.Runtime.State.{Runtime, initial_runtime, health}
use stadtstack.Staging.Runtime.Start.{address_info}
use stadtstack.Staging.Runtime.Step
use stadtstack.Staging.Runtime.Step.{Event, run, RuntimeReach}
use stadtstack.Staging.Runtime.Invariant.{Inv, runtime-Inv}
use stadtstack.Staging.Runtime.Turns.{rank, Changes, turns-bounded}
use stadtstack.Staging.Runtime.Closing.{
  it_fails, attend, IsClosed, runtime_closes, IsUnready, closing-IsUnready,
}
use stadtstack.Staging.Raw.{RawObject, plain, token, server_object, function_object}
use stadtstack.Staging.Config.{RuntimeConfig, capture_config}
use stadtstack.Staging.Exposure.{
  Registered, none_yet, control_plan, IsBounded, capture_config-IsBounded,
}
use stadtstack.Staging.Process.State.{Process, initial_process, process_health}
use stadtstack.Staging.Process.Step.{ProcessEvent, process_run, ProcessReach}
use stadtstack.Staging.Process.Invariant.{ProcessInv}
use stadtstack.Staging.Process.Turns.{process-Inv}
use stadtstack.Staging.Process.Promises.{
  PortsOf, ready-PortsOf, IsEnded, closed-IsEnded, IsStopped, rejected-IsUndone,
}
use stadtstack.Staging.Process.Config.{ProcessConfig, loopback, deployment, capture_process_config}
use stadtstack.Staging.Process.Distinct.{IsSound, capture_process_config-IsSound}
use stadtstack.Staging.Tests.{
  unbound, local, busy_events, busy, two_listeners, ready_events, ready_process, refused_events,
  refused_process, refused_rejects, closed_events, closed_process, closed_rejects,
}

run_reached :
    (es : List Event) {s : Runtime} → RuntimeReach local s → RuntimeReach local (run local s es)
unfolding run
run_reached [] r = r
run_reached (e ∷ es) r = run_reached es (RuntimeReach.turned r e)

busy_reached : RuntimeReach local busy
busy_reached = run_reached busy_events RuntimeReach.created

runtime-Inv_example : Inv busy
runtime-Inv_example = runtime-Inv busy_reached

runtime_closes_example : IsClosed (attend local (it_fails unbound) false (rank busy) busy)
unfolding run initial_runtime
runtime_closes_example = runtime_closes local (it_fails unbound) false busy_reached refl

-- A bind that succeeds after `close` was called.
abbrev late_events : List Event
late_events = Step.listening (address_info local (nat 8080)) unbound ∷ []

closing-IsUnready_example : IsUnready (health (run local busy late_events))
unfolding run initial_runtime
closing-IsUnready_example = closing-IsUnready busy_reached late_events refl

turns-bounded_example : (n : ℕ) × (n ≤ 15) × Changes local initial_runtime busy_events n
turns-bounded_example = turns-bounded local busy_events

process_reached :
    (es : List ProcessEvent) {s : Process}
    → ProcessReach two_listeners s
    → ProcessReach two_listeners (process_run s es)
unfolding process_run
process_reached [] r = r
process_reached (e ∷ es) r = process_reached es (ProcessReach.turned r e)

ready_reached : ProcessReach two_listeners ready_process
ready_reached = process_reached ready_events ProcessReach.created

process-Inv_example : ProcessInv ready_process
process-Inv_example = process-Inv ready_reached

ready-PortsOf_example : PortsOf ready_process.children (process_health ready_process).ports
unfolding process_run initial_process
ready-PortsOf_example = ready-PortsOf ready_reached refl

closed_reached : ProcessReach two_listeners closed_process
closed_reached = process_reached closed_events ProcessReach.created

closed-IsEnded_example : IsEnded closed_process
closed-IsEnded_example = closed-IsEnded closed_reached (inr closed_rejects)

refused_reached : ProcessReach two_listeners refused_process
refused_reached = process_reached refused_events ProcessReach.created

rejected-IsUndone_example :
    All IsStopped refused_process.children × (refused_process.release_calls ≡ 1)
unfolding process_run initial_process
rejected-IsUndone_example = rejected-IsUndone refused_reached refused_rejects refl

abbrev sample_token : Token
sample_token = record {
  identity = 7;
  frozen = true;
  fields = field (name "schemaVersion") (str "staging_case_control_listener_bind_plan_v1") end;
}

abbrev sample_listener : Value
sample_listener = obj (
    field (name "id") (str "admission")
      (field (name "host") (str "0.0.0.0") (field (name "port") (num (nat 18085)) end)))

abbrev sample_facts : Facts
sample_facts = (7, record { host = "0.0.0.0"; port = 18085 }) ∷ []

sample-Registered : Registered sample_facts
unfolding register_control
sample-Registered = control_plan none_yet sample_token sample_listener refl

abbrev sample_config : RawObject
sample_config =
    (name "server", server_object (record { identity = 1; is_proxy = false; view = unbound }))
    ∷ (name "listener", token 7)
    ∷ (name "release", function_object (record { identity = 2; is_proxy = false; is_async = true }))
    ∷ (name "drainTimeoutMs", plain (num (nat 5000)))
    ∷ []

abbrev accepted_config : RuntimeConfig
accepted_config = record {
  server = 1;
  host = "0.0.0.0";
  port = 18085;
  release = 2;
  drain_timeout_ms = 5000;
}

capture_config-IsBounded_example : IsBounded accepted_config
unfolding capture_config
capture_config-IsBounded_example = capture_config-IsBounded sample_config sample-Registered refl

abbrev process_config : RawObject
process_config =
    (name "listeners", plain (num (nat 0)))
    ∷ (name "release", function_object (record { identity = 2; is_proxy = false; is_async = true }))
    ∷ (name "drainTimeoutMs", plain (num (nat 5000)))
    ∷ []

abbrev loopback_input : RawObject
loopback_input =
    (name "id", plain (str "admission"))
    ∷ (name "server", server_object (record { identity = 1; is_proxy = false; view = unbound }))
    ∷ (name "host", plain (str "127.0.0.1"))
    ∷ (name "port", plain (num (nat 0)))
    ∷ []

abbrev plan_input : RawObject
plan_input =
    (name "id", plain (str "outbox"))
    ∷ (name "server", server_object (record { identity = 3; is_proxy = false; view = unbound }))
    ∷ (name "bindPlan", token 9)
    ∷ []

abbrev accepted_process : ProcessConfig
accepted_process = record {
  listeners =
      record { id = "admission"; server = 1; listener = loopback 0 }
      ∷ record { id = "outbox"; server = 3; listener = deployment 9 }
      ∷ [];
  release = 2;
  drain_timeout_ms = 5000;
  before_bind = none;
}

capture_process_config-IsSound_example : IsSound ((9, "private-outbox") ∷ []) accepted_process
unfolding capture_process_config
capture_process_config-IsSound_example =
    capture_process_config-IsSound ((9, "private-outbox") ∷ []) process_config
      (loopback_input ∷ plan_input ∷ []) refl
