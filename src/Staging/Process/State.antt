-- ===== src/Staging/Process/State.antt =====
-- The variables of `createStagingCaseProcessLifecycle`, its children among them. `startPromise` is
-- null only in `not_started`, `closePromise` only in `not_closing`.
use stadtstack.Base.{
  ℕ, zero, suc, String, Bool, true, false, Option, none, some, List, [], ◌∷◌, map, if◌then◌else◌,
}
use stadtstack.Staging.Runtime.State
use stadtstack.Staging.Runtime.State.{
  Phase, new, starting, ready, draining, stopped, failed, Runtime, Health, health, phase_is_ready,
}

-- A child lifecycle and the host that its server is to listen on.
pub record Child : Type 0 where
  pub id : String
  pub host : String
  pub runtime : Runtime

-- `start` waits for the start of a child in `starting_child`, for the close of a child in
-- `undoing_child`, and for the release in `undo_releasing`.
pub data StartProgress : Type 0 where
  not_started start_skipped start_fulfilled undo_releasing start_rejected : StartProgress
  starting_child undoing_child : ℕ → StartProgress

pub data CloseProgress : Type 0 where
  not_closing awaiting_start close_releasing close_fulfilled close_rejected : CloseProgress
  closing_child : ℕ → CloseProgress

-- `releasePromise`
pub data Release : Type 0 where
  not_released releasing released release_failed : Release

pub record Process : Type 0 where
  pub phase : Phase
  pub start : StartProgress
  pub close : CloseProgress
  pub release : Release
  pub children : List Child
  pub release_calls : ℕ

unfoldable pub initial_process : List (String × String) → Process
unfolding State.initial_runtime
initial_process listeners = record {
  phase = new;
  start = not_started;
  close = not_closing;
  release = not_released;
  children =
      map (λ (id, host). record { id = id; host = host; runtime = State.initial_runtime })
        listeners;
  release_calls = 0;
}

abbrev pub closing_requested : CloseProgress → Bool
closing_requested not_closing = false
closing_requested _ = true

-- Whether the promise of `start` has settled.
abbrev pub start_is_settled : StartProgress → Bool
start_is_settled start_skipped = true
start_is_settled start_fulfilled = true
start_is_settled start_rejected = true
start_is_settled _ = false

abbrev pub process_details : Phase → String
process_details new = "not_started"
process_details starting = "starting"
process_details ready = "ready"
process_details draining = "draining"
process_details stopped = "stopped"
process_details failed = "start_failed"

-- `health.ready && health.port !== null`, with the port
abbrev pub ready_port : Health → Option ℕ
ready_port h = if h.is_ready then h.port else none

abbrev pub with_port : String → Option ℕ → Option (List (String × ℕ)) → Option (List (String × ℕ))
with_port id (some port) (some ports) = some ((id, port) ∷ ports)
with_port id _ _ = none

-- The ports of the children, where all of them are ready.
unfoldable pub child_ports : List Child → Option (List (String × ℕ))
unfolding health
child_ports [] = some []
child_ports (c ∷ cs) = with_port c.id (ready_port (health c.runtime)) (child_ports cs)

abbrev pub or_no_ports : Option (List (String × ℕ)) → List (String × ℕ)
or_no_ports none = []
or_no_ports (some ports) = ports

-- `readyPorts`
unfoldable pub ready_ports : Process → List (String × ℕ)
unfolding child_ports
ready_ports s = if phase_is_ready s.phase then or_no_ports (child_ports s.children) else []

pub record ProcessHealth : Type 0 where
  pub phase : Phase
  pub is_ready : Bool
  pub detail : String
  pub ports : List (String × ℕ)

unfoldable pub process_health : Process → ProcessHealth
unfolding ready_ports
process_health s = record {
  phase = s.phase;
  is_ready = phase_is_ready s.phase;
  detail = process_details s.phase;
  ports = ready_ports s;
}

-- `invokeRelease`
abbrev pub is_released : Release → Bool
is_released not_released = false
is_released _ = true

abbrev pub asked_release : Release → Release
asked_release not_released = releasing
asked_release r = r

unfoldable pub invoke_release : Process → Process
invoke_release s = record s {
  release = asked_release s.release;
  release_calls = if is_released s.release then s.release_calls else suc s.release_calls;
}

unfoldable pub child_at : ℕ → List Child → Option Child
child_at n [] = none
child_at zero (c ∷ cs) = some c
child_at (suc n) (c ∷ cs) = child_at n cs

unfoldable pub update_child : ℕ → (Child → Runtime) → List Child → List Child
update_child n f [] = []
update_child zero f (c ∷ cs) = record c { runtime = f c } ∷ cs
update_child (suc n) f (c ∷ cs) = c ∷ update_child n f cs
