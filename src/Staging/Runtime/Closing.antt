-- ===== src/Staging/Runtime/Closing.antt =====
-- A runtime that is asked to close comes to its end, if the server answers a bind under way and
-- what it is asked to close, and if the timers and the promises take their turns.
use stadtstack.Base.{
  ℕ, zero, suc, ◌≤◌, ◌<◌, String, Bool, true, false, none, ◌≡◌, ◌≢◌, arith, if◌then◌else◌, ◌⊎◌, inl,
  inr, List, [], ◌∷◌,
}
use stadtstack.Staging.Runtime.State.{
  stopped, StartProgress, binding, start_releasing, CloseProgress, awaiting_drain,
  awaiting_server_close, close_releasing, closed, Release, releasing, released, Drain,
  drain_waiting, ServerClose, closing, nothing_tracked, Runtime, closing_requested,
  start_is_pending, Health, health,
}
use stadtstack.Staging.Runtime.Start.{ServerView, Address}
use stadtstack.Staging.Runtime.Step.{
  Event, listening, bind_error, start_resumes, close_resumes, release_settles, deadline,
  server_close_done, step, run, RuntimeReach,
}
use stadtstack.Staging.Runtime.Invariant.{Inv, step-Inv, runtime-Inv, release_calls}
use stadtstack.Staging.Runtime.Turns.{rank}

-- The server's answer to `listen`.
pub data BindAnswer : Type 0 where
  it_listens : Address → ServerView → BindAnswer
  it_fails : ServerView → BindAnswer

abbrev pub answer_event : BindAnswer → Event
answer_event (it_listens a v) = listening a v
answer_event (it_fails v) = bind_error v

abbrev pub release_turn : Release → Event → Event
release_turn releasing e = release_settles
release_turn _ e = e

abbrev pub drain_turn : Drain → Event → Event
drain_turn drain_waiting e = deadline
drain_turn _ e = e

abbrev pub server_turn : ServerClose → Event → Event
server_turn closing e = server_close_done
server_turn _ e = e

-- Once `close` has been called it stays called.
pub step-closing :
    (host : String) (s : Runtime) (e : Event)
    → closing_requested s.close ≡ true
    → closing_requested (step host s e).close ≡ true
unfolding step
step-closing host s e c = ground arith

pub closed-stays :
    (host : String) (s : Runtime) (e : Event) → s.close ≡ closed → (step host s e).close ≡ closed
unfolding step
closed-stays host s e c = ground arith

closed_or_open : (c : CloseProgress) → (c ≡ closed) ⊎ (c ≢ closed)
closed_or_open c = ground arith

pub record IsClosed (s : Runtime) : Type 0 where
  pub promise_fulfilled : s.close ≡ closed
  pub is_stopped : s.phase ≡ stopped
  pub forgotten : s.tracked ≡ nothing_tracked
  pub release_settled : s.release ≡ released
  pub released_once : release_calls s ≡ 1

closed_lem : (s : Runtime) → Inv s → s.close ≡ closed → IsClosed s
closed_lem s h c = ground arith

abbrev pub IsUnready : Health → Type 0
IsUnready h = (h.is_ready ≡ false) × (h.port ≡ none)

rank_zero : (s : Runtime) → rank s ≡ 0 → s.close ≡ closed
rank_zero s h = ground arith

module _ (host : String) (answer : BindAnswer) (throws : Bool) where
  abbrev pub start_turn : StartProgress → Release → Event
  start_turn binding r = answer_event answer
  start_turn start_releasing r = release_turn r start_resumes
  start_turn _ r = start_resumes

  abbrev pub close_turn : CloseProgress → Runtime → Event
  close_turn awaiting_drain s = drain_turn s.drain (close_resumes throws)
  close_turn awaiting_server_close s = server_turn s.server_close (close_resumes throws)
  close_turn close_releasing s = release_turn s.release (close_resumes throws)
  close_turn _ s = close_resumes throws

  -- A turn that a closing runtime waits for.
  abbrev pub next_turn : Runtime → Event
  next_turn s =
      if start_is_pending s.start then start_turn s.start s.release else close_turn s.close s

  unfoldable pub attend : ℕ → Runtime → Runtime
  unfolding step
  attend zero s = s
  attend (suc n) s = attend n (step host s (next_turn s))

  next_turn-lowers :
      (s : Runtime)
      → Inv s
      → closing_requested s.close ≡ true
      → s.close ≢ closed
      → rank (step host s (next_turn s)) < rank s
  unfolding step
  next_turn-lowers s h c o = ground arith

  attend_stays : (n : ℕ) (s : Runtime) → s.close ≡ closed → (attend n s).close ≡ closed
  unfolding attend
  attend_stays zero s c = c
  attend_stays (suc n) s c = attend_stays n _ (closed-stays host s _ c)

  attend-Inv : (n : ℕ) (s : Runtime) → Inv s → Inv (attend n s)
  unfolding attend
  attend-Inv zero s h = h
  attend-Inv (suc n) s h = attend-Inv n _ (step-Inv host s _ h)

  attend-closed :
      (n : ℕ) (s : Runtime)
      → Inv s
      → closing_requested s.close ≡ true
      → rank s ≤ n
      → (attend n s).close ≡ closed
  unfolding attend
  attend-closed zero s h c le = rank_zero s (omega arith)
  attend-closed (suc n) s h c le = elim (closed_or_open s.close) [
    | inl e ↦ attend_stays n _ (closed-stays host s _ e)
    | inr o ↦
        attend-closed n _ (step-Inv host s _ h) (step-closing host s _ c)
          (omega (arith, next_turn-lowers s h c o))
  ]

  -- Whatever a reachable runtime was doing when `close` was called, as many turns of the server, the
  -- timers and the promises as its rank end it: the promise of `close` is fulfilled, the runtime is
  -- stopped, nothing is tracked, and the release callback has run, once.
  pub runtime_closes :
      {s : Runtime}
      → RuntimeReach host s
      → closing_requested s.close ≡ true
      → IsClosed (attend (rank s) s)
  runtime_closes {s = s} r c =
      closed_lem (attend (rank s) s) (attend-Inv (rank s) s (runtime-Inv r))
        (attend-closed (rank s) s (runtime-Inv r) c (omega arith))

run-closing :
    (host : String) (es : List Event) (s : Runtime)
    → closing_requested s.close ≡ true
    → closing_requested (run host s es).close ≡ true
unfolding run
run-closing host [] s c = c
run-closing host (e ∷ es) s c = run-closing host es (step host s e) (step-closing host s e c)

run-Inv : (host : String) (es : List Event) (s : Runtime) → Inv s → Inv (run host s es)
unfolding run
run-Inv host [] s h = h
run-Inv host (e ∷ es) s h = run-Inv host es (step host s e) (step-Inv host s e h)

unready : (s : Runtime) → Inv s → closing_requested s.close ≡ true → IsUnready (health s)
unfolding health
unready s h c = ground arith

-- Once `close` has been called, whatever the server does, a bind that succeeds late included, no
-- later state is ready or shows a port.
pub closing-IsUnready :
    {host : String} {s : Runtime}
    → RuntimeReach host s
    → (es : List Event) → closing_requested s.close ≡ true
    → IsUnready (health (run host s es))
closing-IsUnready {host = host} {s = s} r es c =
    unready _ (run-Inv host es s (runtime-Inv r)) (run-closing host es s c)
