-- ===== src/Staging/Runtime/State.antt =====
-- The variables of `createStagingCaseRuntimeLifecycle`. Its promises are how far `start` and
-- `close` have come: `startPromise` is null only in `not_started`, and `startSettled` holds in
-- `start_skipped`, `bound` and `start_rejected`; `closePromise` is null, and `closingRequested`
-- false, only in `not_closing`.
use stadtstack.Base.{
  ℕ, String, Bool, true, false, ◌&&◌, Option, none, some, List, [], ◌∷◌, is_empty, if◌then◌else◌,
}

pub data Phase : Type 0 where
  new starting ready draining stopped failed : Phase

-- `start` waits for the server's events in `binding`, for the server to close in
-- `stopping_listener`, and for the release in `start_releasing`.
pub data StartProgress : Type 0 where
  not_started start_skipped binding bound stopping_listener start_releasing start_rejected :
      StartProgress

-- What the continuation of `finishClose` waits for.
pub data CloseProgress : Type 0 where
  not_closing awaiting_start awaiting_drain awaiting_server_close racing close_releasing closed :
      CloseProgress

-- `releasePromise`
pub data Release : Type 0 where
  not_released releasing released : Release

-- `drainResolve` and `drainTimer` are set in `drain_waiting`; the value of the promise is whether
-- connections were closed by force.
pub data Drain : Type 0 where
  no_drain drain_waiting : Drain
  drain_resolved : Bool → Drain

-- `serverCloseStarted` and `serverCloseFinished`
pub data ServerClose : Type 0 where
  not_asked closing finished : ServerClose

-- What the code calls of others, in reverse order.
pub data Call : Type 0 where
  listen close_server close_idle close_all call_release : Call

-- Sockets, requests and responses by their identities.
pub record Tracked : Type 0 where
  pub connections : List ℕ
  pub requests : List ℕ
  pub responses : List ℕ

pub record Runtime : Type 0 where
  pub phase : Phase
  pub bound_port : Option ℕ
  pub start : StartProgress
  pub close : CloseProgress
  pub release : Release
  pub cleanup_done : Bool
  pub tracked : Tracked
  pub drain : Drain
  pub server_close : ServerClose
  pub calls : List Call

abbrev pub nothing_tracked : Tracked
nothing_tracked = record { connections = []; requests = []; responses = [] }

unfoldable pub initial_runtime : Runtime
initial_runtime = record {
  phase = new;
  bound_port = none;
  start = not_started;
  close = not_closing;
  release = not_released;
  cleanup_done = false;
  tracked = nothing_tracked;
  drain = no_drain;
  server_close = not_asked;
  calls = [];
}

pub record Health : Type 0 where
  pub phase : Phase
  pub is_ready : Bool
  pub detail : String
  pub port : Option ℕ

abbrev pub phase_details : Phase → String
phase_details new = "not_started"
phase_details starting = "starting"
phase_details ready = "ready"
phase_details draining = "draining"
phase_details stopped = "stopped"
phase_details failed = "bind_failed"

abbrev pub phase_is_ready : Phase → Bool
phase_is_ready ready = true
phase_is_ready _ = false

unfoldable pub health : Runtime → Health
health s = record {
  phase = s.phase;
  is_ready = phase_is_ready s.phase;
  detail = phase_details s.phase;
  port = if phase_is_ready s.phase then s.bound_port else none;
}

-- `invokeRelease`: the callback is called once, whoever asks first.
abbrev pub is_released : Release → Bool
is_released not_released = false
is_released _ = true

unfoldable pub invoke_release : Runtime → Runtime
invoke_release s =
    if is_released s.release
    then s
    else record s { release = releasing; calls = call_release ∷ s.calls }

-- `removeTracking`
unfoldable pub remove_tracking : Runtime → Runtime
remove_tracking s =
    if s.cleanup_done then s else record s { cleanup_done = true; tracked = nothing_tracked }

-- `forceCloseConnections`
unfoldable pub force_close_connections : Runtime → Runtime
force_close_connections s = record s { calls = close_all ∷ close_idle ∷ s.calls }

-- The two assignments to `phase` and `boundPort` that stand together everywhere but in `start`.
abbrev pub at_phase : Phase → Runtime → Runtime
at_phase p s = record s { phase = p; bound_port = none }

pub data Promise : Type 0 where
  pending resolved rejected : Promise

-- `startPromise`
abbrev pub start_promise : StartProgress → Option Promise
start_promise not_started = none
start_promise start_skipped = some resolved
start_promise binding = some pending
start_promise bound = some resolved
start_promise stopping_listener = some pending
start_promise start_releasing = some pending
start_promise start_rejected = some rejected

-- `startPromise && !startSettled`
abbrev pub start_is_pending : StartProgress → Bool
start_is_pending p = elim (start_promise p) [ some pending ↦ true | _ ↦ false ]

abbrev pub closing_requested : CloseProgress → Bool
closing_requested not_closing = false
closing_requested _ = true

abbrev pub is_drained : Tracked → Bool
is_drained t = is_empty t.connections && is_empty t.requests && is_empty t.responses
