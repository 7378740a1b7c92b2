-- ===== src/Staging/Runtime/Invariant.antt =====
-- What holds of a runtime between two turns.
use stadtstack.Base.{
  ℕ, String, Bool, true, false, Option, none, some, ◌≡◌, arith, leb, count_if, if◌then◌else◌,
}
use stadtstack.Staging.Runtime.State.{
  Phase, new, starting, ready, draining, stopped, failed, StartProgress, not_started, start_skipped,
  binding, bound, stopping_listener, start_releasing, start_rejected, CloseProgress, not_closing,
  awaiting_start, awaiting_drain, awaiting_server_close, racing, close_releasing, closed, released,
  Drain, no_drain, drain_waiting, ServerClose, not_asked, Call, call_release, nothing_tracked,
  Runtime, initial_runtime, is_released, is_drained,
}
use stadtstack.Staging.Runtime.Start
use stadtstack.Staging.Runtime.Close
use stadtstack.Staging.Runtime.Step.{
  Event, start_called, close_called, listening, bind_error, start_resumes, close_resumes,
  release_settles, connection, request, connection_ends, request_ends, response_ends, deadline,
  server_close_done, settle_release, step, RuntimeReach, created, turned,
}

-- The phase that goes with how far `start` and `close` have come.
abbrev pub phase_of_start : StartProgress → Phase
phase_of_start not_started = new
phase_of_start start_skipped = stopped
phase_of_start binding = starting
phase_of_start bound = ready
phase_of_start stopping_listener = failed
phase_of_start start_releasing = failed
phase_of_start start_rejected = failed

abbrev pub while_closing : Phase → Phase
while_closing failed = failed
while_closing p = draining

abbrev pub expected_phase : StartProgress → CloseProgress → Phase
expected_phase p not_closing = phase_of_start p
expected_phase p awaiting_start = while_closing (phase_of_start p)
expected_phase p awaiting_drain = draining
expected_phase p awaiting_server_close = draining
expected_phase p racing = draining
expected_phase p close_releasing = stopped
expected_phase p closed = stopped

abbrev pub has_begun : StartProgress → Bool
has_begun not_started = false
has_begun start_skipped = false
has_begun _ = true

abbrev pub is_bound : StartProgress → Bool
is_bound bound = true
is_bound _ = false

abbrev pub is_over : StartProgress → Bool
is_over not_started = true
is_over start_skipped = true
is_over bound = true
is_over start_rejected = true
is_over _ = false

abbrev pub not_skipped : StartProgress → Bool
not_skipped start_skipped = false
not_skipped _ = true

-- Where `start` stands while `close` waits.
abbrev pub is_coherent : StartProgress → CloseProgress → Bool
is_coherent p not_closing = not_skipped p
is_coherent p awaiting_start = has_begun p
is_coherent p awaiting_drain = is_bound p
is_coherent p awaiting_server_close = is_bound p
is_coherent p racing = is_bound p
is_coherent p close_releasing = is_over p
is_coherent p closed = is_over p

abbrev pub close_is_final : CloseProgress → Bool
close_is_final close_releasing = true
close_is_final closed = true
close_is_final _ = false

abbrev pub start_asks_release : StartProgress → Bool
start_asks_release start_releasing = true
start_asks_release start_rejected = true
start_asks_release _ = false

abbrev pub asks_release : StartProgress → CloseProgress → Bool
asks_release p c = if close_is_final c then true else start_asks_release p

abbrev pub is_call_release : Call → Bool
is_call_release call_release = true
is_call_release _ = false

-- How often the release callback has been called.
abbrev pub release_calls : Runtime → ℕ
release_calls s = count_if is_call_release s.calls

abbrev pub port_fits : Phase → Option ℕ → Bool
port_fits ready (some p) = leb p 65535
port_fits ready none = false
port_fits _ _ = true

abbrev pub drain_begun : Drain → Bool
drain_begun no_drain = false
drain_begun _ = true

abbrev pub close_asked : ServerClose → Bool
close_asked not_asked = false
close_asked _ = true

abbrev pub needs_drain : CloseProgress → Bool
needs_drain awaiting_drain = true
needs_drain awaiting_server_close = true
needs_drain racing = true
needs_drain _ = false

abbrev pub before_drain : CloseProgress → Bool
before_drain not_closing = true
before_drain awaiting_start = true
before_drain _ = false

pub record Inv (s : Runtime) : Type 0 where
  pub coherent : is_coherent s.start s.close ≡ true
  pub phase_expected : s.phase ≡ expected_phase s.start s.close
  pub port_known : port_fits s.phase s.bound_port ≡ true
  pub release_expected : is_released s.release ≡ asks_release s.start s.close
  pub rejected_released : s.start ≡ start_rejected → s.release ≡ released
  pub closed_released : s.close ≡ closed → s.release ≡ released
  pub released_once : release_calls s ≡ (if is_released s.release then 1 else 0)
  pub cleaned : s.cleanup_done ≡ close_is_final s.close
  pub emptied : s.cleanup_done ≡ true → s.tracked ≡ nothing_tracked
  pub waits_for_some : s.drain ≡ drain_waiting → is_drained s.tracked ≡ false
  pub waits_in_drain : s.drain ≡ drain_waiting → s.close ≡ awaiting_drain
  pub drain_started : needs_drain s.close ≡ true → drain_begun s.drain ≡ true
  pub close_started : needs_drain s.close ≡ true → close_asked s.server_close ≡ true
  pub drain_unstarted : before_drain s.close ≡ true → s.drain ≡ no_drain
  pub close_unasked : before_drain s.close ≡ true → s.server_close ≡ not_asked

pub initial_runtime-Inv : Inv initial_runtime
unfolding initial_runtime
initial_runtime-Inv = ground arith

start_runtime-Inv : (s : Runtime) (a : Start.ListenAnswer) → Inv s → Inv (Start.start_runtime a s)
unfolding Start.start_runtime
start_runtime-Inv s a h = ground arith

on_listening-Inv :
    (host : String) (a : Start.Address) (v : Start.ServerView) (s : Runtime)
    → Inv s
    → Inv (Start.on_listening host a v s)
unfolding Start.on_listening
on_listening-Inv host a v s h = ground arith

on_error-Inv : (v : Start.ServerView) (s : Runtime) → Inv s → Inv (Start.on_error v s)
unfolding Start.on_error
on_error-Inv v s h = ground arith

resume_start-Inv : (s : Runtime) → Inv s → Inv (Start.resume_start s)
unfolding Start.resume_start
resume_start-Inv s h = ground arith

track_connection-Inv : (i : ℕ) (s : Runtime) → Inv s → Inv (Close.track_connection i s)
unfolding Close.track_connection
track_connection-Inv i s h = ground arith

close_runtime-Inv : (b : Bool) (s : Runtime) → Inv s → Inv (Close.close_runtime b s)
unfolding Close.close_runtime
close_runtime-Inv b s h = ground arith

resume_close-Inv : (b : Bool) (s : Runtime) → Inv s → Inv (Close.resume_close b s)
unfolding Close.resume_close
resume_close-Inv b s h = ground arith

track_request-Inv : (i j : ℕ) (s : Runtime) → Inv s → Inv (Close.track_request i j s)
unfolding Close.track_request
track_request-Inv i j s h = ground arith

remove_connection-Inv : (i : ℕ) (s : Runtime) → Inv s → Inv (Close.remove_connection i s)
unfolding Close.remove_connection
remove_connection-Inv i s h = ground arith

remove_request-Inv : (i : ℕ) (s : Runtime) → Inv s → Inv (Close.remove_request i s)
unfolding Close.remove_request
remove_request-Inv i s h = ground arith

remove_response-Inv : (i : ℕ) (s : Runtime) → Inv s → Inv (Close.remove_response i s)
unfolding Close.remove_response
remove_response-Inv i s h = ground arith

drain_deadline-Inv : (s : Runtime) → Inv s → Inv (Close.drain_deadline s)
unfolding Close.drain_deadline
drain_deadline-Inv s h = ground arith

server_closed-Inv : (s : Runtime) → Inv s → Inv (Close.server_closed s)
unfolding Close.server_closed
server_closed-Inv s h = ground arith

settle_release-Inv : (s : Runtime) → Inv s → Inv (settle_release s)
unfolding settle_release
settle_release-Inv s h = ground arith

pub step-Inv : (host : String) (s : Runtime) (e : Event) → Inv s → Inv (step host s e)
unfolding step
step-Inv host s (start_called a) h = start_runtime-Inv s a h
step-Inv host s (close_called b) h = close_runtime-Inv b s h
step-Inv host s (listening a v) h = on_listening-Inv host a v s h
step-Inv host s (bind_error v) h = on_error-Inv v s h
step-Inv host s start_resumes h = resume_start-Inv s h
step-Inv host s (close_resumes b) h = resume_close-Inv b s h
step-Inv host s release_settles h = settle_release-Inv s h
step-Inv host s (connection i) h = track_connection-Inv i s h
step-Inv host s (request i j) h = track_request-Inv i j s h
step-Inv host s (connection_ends i) h = remove_connection-Inv i s h
step-Inv host s (request_ends i) h = remove_request-Inv i s h
step-Inv host s (response_ends i) h = remove_response-Inv i s h
step-Inv host s deadline h = drain_deadline-Inv s h
step-Inv host s server_close_done h = server_closed-Inv s h

-- Between two turns a runtime's phase is the one that goes with how far `start` and `close` have
-- come, a ready runtime has a port, the release callback has been called at most once, what is
-- tracked is forgotten once the close is final, and a drain waits only while something is open.
pub runtime-Inv : {host : String} {s : Runtime} → RuntimeReach host s → Inv s
runtime-Inv created = initial_runtime-Inv
runtime-Inv (turned {s = s} r e) = step-Inv _ s e (runtime-Inv r)
