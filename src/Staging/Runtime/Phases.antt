-- ===== src/Staging/Runtime/Phases.antt =====
-- How the phase of a runtime changes, and what its health shows.
use stadtstack.Base.{ℕ, String, Bool, true, false, none, some, ◌≡◌, ◌⊎◌, ◌≤◌, arith}
use stadtstack.Staging.Runtime.State.{
  Phase, new, starting, ready, draining, stopped, failed, Runtime, Health, health,
}
use stadtstack.Staging.Runtime.Start
use stadtstack.Staging.Runtime.Close
use stadtstack.Staging.Runtime.Step.{
  Event, start_called, close_called, listening, bind_error, start_resumes, close_resumes,
  release_settles, connection, request, connection_ends, request_ends, response_ends, deadline,
  server_close_done, step, RuntimeReach,
}
use stadtstack.Staging.Runtime.Invariant.{Inv, runtime-Inv}

-- The phases that may follow a phase, other than itself.
abbrev pub may_follow : Phase → Phase → Bool
may_follow new starting = true
may_follow new failed = true
may_follow new stopped = true
may_follow starting ready = true
may_follow starting draining = true
may_follow starting failed = true
may_follow ready draining = true
may_follow draining failed = true
may_follow draining stopped = true
may_follow failed stopped = true
may_follow _ _ = false

abbrev pub Follows : Phase → Phase → Type 0
Follows p q = (q ≡ p) ⊎ (may_follow p q ≡ true)

start_runtime-Follows :
    (a : Start.ListenAnswer) (s : Runtime) → Inv s → Follows s.phase (Start.start_runtime a s).phase
unfolding Start.start_runtime
start_runtime-Follows a s h = ground arith

on_listening-Follows :
    (host : String) (a : Start.Address) (v : Start.ServerView) (s : Runtime)
    → Inv s
    → Follows s.phase (Start.on_listening host a v s).phase
unfolding Start.on_listening
on_listening-Follows host a v s h = ground arith

close_runtime-Follows :
    (b : Bool) (s : Runtime) → Inv s → Follows s.phase (Close.close_runtime b s).phase
unfolding Close.close_runtime
close_runtime-Follows b s h = ground arith

resume_close-Follows :
    (b : Bool) (s : Runtime) → Inv s → Follows s.phase (Close.resume_close b s).phase
unfolding Close.resume_close
resume_close-Follows b s h = ground arith

step-Follows :
    (host : String) (s : Runtime) (e : Event) → Inv s → Follows s.phase (step host s e).phase
unfolding step
step-Follows host s (start_called a) h = start_runtime-Follows a s h
step-Follows host s (close_called b) h = close_runtime-Follows b s h
step-Follows host s (listening a v) h = on_listening-Follows host a v s h
step-Follows host s (bind_error v) h = ground arith
step-Follows host s start_resumes h = ground arith
step-Follows host s (close_resumes b) h = resume_close-Follows b s h
step-Follows host s release_settles h = ground arith
step-Follows host s (connection i) h = ground arith
step-Follows host s (request i j) h = ground arith
step-Follows host s (connection_ends i) h = ground arith
step-Follows host s (request_ends i) h = ground arith
step-Follows host s (response_ends i) h = ground arith
step-Follows host s deadline h = ground arith
step-Follows host s server_close_done h = ground arith

-- A turn of a reachable runtime leaves its phase or moves it along the phase graph, in which
-- nothing follows the stopped phase.
pub phase-Follows :
    {host : String} {s : Runtime}
    → RuntimeReach host s
    → (e : Event) → Follows s.phase (step host s e).phase
phase-Follows {s = s} r e = step-Follows _ s e (runtime-Inv r)

abbrev pub PortShown : Health → Type 0
PortShown h =
    ((p : ℕ) × (h.port ≡ some p) × (p ≤ 65535) × (h.phase ≡ ready))
    ⊎ ((h.port ≡ none) × (h.is_ready ≡ false))

shown : (s : Runtime) → Inv s → PortShown (health s)
unfolding health
shown s h = ground arith

-- The health of a reachable runtime shows a port exactly in the ready phase, and one that a TCP port
-- can be.
pub health-PortShown : {host : String} {s : Runtime} → RuntimeReach host s → PortShown (health s)
health-PortShown {s = s} r = shown s (runtime-Inv r)
