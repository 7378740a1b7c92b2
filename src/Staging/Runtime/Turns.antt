-- ===== src/Staging/Runtime/Turns.antt =====
-- How many turns a runtime can take: a rank of how far `start`, `close` and what they wait for are
-- from their ends.
use stadtstack.Base.{
  ℕ, suc, ◌+◌, ◌≤◌, ◌<◌, String, Bool, Option, none, some, List, [], ◌∷◌, ◌≡◌, ◌⊎◌, inl, inr, refl,
  arith, ltb, if◌then◌else◌,
}
use stadtstack.Staging.Runtime.State.{
  Phase, new, starting, ready, draining, stopped, failed, StartProgress, not_started, start_skipped,
  binding, bound, stopping_listener, start_releasing, start_rejected, CloseProgress, not_closing,
  awaiting_start, awaiting_drain, awaiting_server_close, racing, close_releasing, closed, Release,
  not_released, releasing, released, Drain, no_drain, drain_waiting, drain_resolved, ServerClose,
  not_asked, closing, finished, Runtime, initial_runtime,
}
use stadtstack.Staging.Runtime.Start
use stadtstack.Staging.Runtime.Close
use stadtstack.Staging.Runtime.Step.{
  Event, start_called, close_called, listening, bind_error, start_resumes, close_resumes,
  release_settles, connection, request, connection_ends, request_ends, response_ends, deadline,
  server_close_done, step, run,
}
use stadtstack.Staging.Runtime.Invariant.{Inv, step-Inv, initial_runtime-Inv}

abbrev pub rank_of_start : StartProgress → ℕ
rank_of_start not_started = 4
rank_of_start binding = 3
rank_of_start stopping_listener = 2
rank_of_start start_releasing = 1
rank_of_start _ = 0

abbrev pub rank_of_close : CloseProgress → ℕ
rank_of_close not_closing = 5
rank_of_close awaiting_start = 4
rank_of_close awaiting_drain = 3
rank_of_close awaiting_server_close = 2
rank_of_close racing = 2
rank_of_close close_releasing = 1
rank_of_close closed = 0

abbrev pub rank_of_release : Release → ℕ
rank_of_release not_released = 2
rank_of_release releasing = 1
rank_of_release released = 0

abbrev pub rank_of_drain : Drain → ℕ
rank_of_drain no_drain = 2
rank_of_drain drain_waiting = 1
rank_of_drain (drain_resolved forced) = 0

abbrev pub rank_of_server_close : ServerClose → ℕ
rank_of_server_close not_asked = 2
rank_of_server_close closing = 1
rank_of_server_close finished = 0

abbrev pub rank : Runtime → ℕ
rank s =
    rank_of_start s.start
    + rank_of_close s.close
    + rank_of_release s.release
    + rank_of_drain s.drain
    + rank_of_server_close s.server_close

-- Two states that differ at most in what is open, and so in what was forgotten.
pub record SameControl (s t : Runtime) : Type 0 where
  pub same_phase : t.phase ≡ s.phase
  pub same_port : t.bound_port ≡ s.bound_port
  pub same_start : t.start ≡ s.start
  pub same_close : t.close ≡ s.close
  pub same_release : t.release ≡ s.release
  pub same_drain : t.drain ≡ s.drain
  pub same_server_close : t.server_close ≡ s.server_close
  pub same_calls : t.calls ≡ s.calls

abbrev pub Advances : Runtime → Runtime → Type 0
Advances s t = (rank t < rank s) ⊎ SameControl s t

fail_bind-Advances :
    (v : Start.ServerView) (s : Runtime)
    → (2 < rank_of_start s.start)
    → rank (Start.fail_bind v s) < rank s
unfolding Start.fail_bind
fail_bind-Advances v s h = ground arith

start_at-Advances :
    (p : Phase) (a : Start.ListenAnswer) (s : Runtime)
    → s.start ≡ not_started
    → Advances s (Start.start_at p a s)
unfolding Start.begin_listening
start_at-Advances new a s h = ground (arith, fail_bind-Advances a.before s)
start_at-Advances starting a s h = ground arith
start_at-Advances ready a s h = ground arith
start_at-Advances draining a s h = ground arith
start_at-Advances stopped a s h = ground arith
start_at-Advances failed a s h = ground arith

same : (s : Runtime) → SameControl s s
same s = ground arith

start_from-Advances :
    (p : StartProgress) (a : Start.ListenAnswer) (s : Runtime)
    → s.start ≡ p
    → Advances s (Start.start_from p a s)
start_from-Advances not_started a s h = start_at-Advances s.phase a s h
start_from-Advances start_skipped a s h = inr (same s)
start_from-Advances binding a s h = inr (same s)
start_from-Advances bound a s h = inr (same s)
start_from-Advances stopping_listener a s h = inr (same s)
start_from-Advances start_releasing a s h = inr (same s)
start_from-Advances start_rejected a s h = inr (same s)

start_runtime-Advances :
    (a : Start.ListenAnswer) (s : Runtime) → Advances s (Start.start_runtime a s)
unfolding Start.start_runtime
start_runtime-Advances a s = start_from-Advances s.start a s refl

bind_to-Advances :
    (o : Option ℕ) (v : Start.ServerView) (s : Runtime)
    → s.start ≡ binding
    → rank (Start.bind_to o v s) < rank s
unfolding Start.bind_to
bind_to-Advances none v s h = fail_bind-Advances v s (ground arith)
bind_to-Advances (some port) v s h = ground arith

when_binding-Advances :
    (p : StartProgress) (s t : Runtime)
    → (p ≡ binding → rank t < rank s)
    → Advances s (Start.when_binding p t s)
when_binding-Advances binding s t h = inl (h refl)
when_binding-Advances not_started s t h = inr (same s)
when_binding-Advances start_skipped s t h = inr (same s)
when_binding-Advances bound s t h = inr (same s)
when_binding-Advances stopping_listener s t h = inr (same s)
when_binding-Advances start_releasing s t h = inr (same s)
when_binding-Advances start_rejected s t h = inr (same s)

on_listening-Advances :
    (host : String) (a : Start.Address) (v : Start.ServerView) (s : Runtime)
    → Advances s (Start.on_listening host a v s)
unfolding Start.on_listening
on_listening-Advances host a v s =
    when_binding-Advances s.start s _ (bind_to-Advances (Start.bound_at host a) v s)

resume_close-Advances : (b : Bool) (s : Runtime) → Inv s → Advances s (Close.resume_close b s)
unfolding Close.resume_close
resume_close-Advances b s h = ground arith

close_runtime-Advances : (b : Bool) (s : Runtime) → Inv s → Advances s (Close.close_runtime b s)
unfolding Close.close_runtime
close_runtime-Advances b s h = ground arith

-- A turn lowers the rank, or changes nothing but what is open.
pub step-Advances : (host : String) (s : Runtime) (e : Event) → Inv s → Advances s (step host s e)
unfolding step
step-Advances host s (start_called a) h = start_runtime-Advances a s
step-Advances host s (close_called b) h = close_runtime-Advances b s h
step-Advances host s (listening a v) h = on_listening-Advances host a v s
step-Advances host s (bind_error v) h = ground arith
step-Advances host s start_resumes h = ground arith
step-Advances host s (close_resumes b) h = resume_close-Advances b s h
step-Advances host s release_settles h = ground arith
step-Advances host s (connection i) h = ground arith
step-Advances host s (request i j) h = ground arith
step-Advances host s (connection_ends i) h = ground arith
step-Advances host s (request_ends i) h = ground arith
step-Advances host s (response_ends i) h = ground arith
step-Advances host s deadline h = ground arith
step-Advances host s server_close_done h = ground arith

-- The turns of a run that change the control.
unfoldable pub control_turns : String → Runtime → List Event → ℕ
unfolding step
control_turns host s [] = 0
control_turns host s (e ∷ es) =
    (if ltb (rank (step host s e)) (rank s) then 1 else 0) + control_turns host (step host s e) es

rank-same : (s t : Runtime) → SameControl s t → rank t ≡ rank s
rank-same s t c = cc (c.same_start, c.same_close, c.same_release, c.same_drain, c.same_server_close)

-- A run in which all but `n` turns change nothing but what is open.
pub data Changes (host : String) : Runtime → List Event → ℕ → Type 0 where
  no_turn : {s : Runtime} → Changes host s [] 0
  quiet_turn :
      {s : Runtime} {e : Event} {es : List Event} {n : ℕ}
      → SameControl s (step host s e)
      → Changes host (step host s e) es n
      → Changes host s (e ∷ es) n
  other_turn :
      {s : Runtime} {e : Event} {es : List Event} {n : ℕ}
      → Changes host (step host s e) es n
      → Changes host s (e ∷ es) (suc n)

changes :
    (host : String) (es : List Event) (s : Runtime)
    → Inv s
    → (n : ℕ) × (n + rank (run host s es) ≤ rank s) × Changes host s es n
unfolding run
changes host [] s h = (0, omega arith, no_turn)
changes host (e ∷ es) s h =
    let (n, le, rest) = changes host es (step host s e) (step-Inv host s e h) in
    elim (step-Advances host s e h) [
      | inl lower ↦ (suc n, omega (arith, lower, le), other_turn rest)
      | inr c ↦ (n, omega (arith, rank-same s (step host s e) c, le), quiet_turn c rest)
    ]

initial_rank : rank initial_runtime ≡ 15
unfolding initial_runtime
initial_rank = refl

-- In any run of a runtime from its creation, all but at most 15 turns leave everything but what is
-- open as it was.
pub turns-bounded :
    (host : String) (es : List Event) → (n : ℕ) × (n ≤ 15) × Changes host initial_runtime es n
turns-bounded host es =
    let (n, le, c) = changes host es initial_runtime initial_runtime-Inv in
    (n, omega (arith, le, initial_rank), c)
