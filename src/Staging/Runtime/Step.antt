-- ===== src/Staging/Runtime/Step.antt =====
-- The turns of the event loop that concern a runtime, and the states that they reach.
use stadtstack.Base.{ℕ, String, Bool, List, [], ◌∷◌}
use stadtstack.Staging.Runtime.State.{releasing, released, Runtime, initial_runtime}
use stadtstack.Staging.Runtime.Start.{
  ServerView, Address, ListenAnswer, start_runtime, on_listening, on_error, resume_start,
}
use stadtstack.Staging.Runtime.Close.{
  track_connection, track_request, remove_connection, remove_request, remove_response,
  drain_deadline, server_closed, close_runtime, resume_close,
}

-- A call of `start` or `close`, an event of the server or of what it accepted, a timer, or the turn
-- after a promise has settled. A request ends by `close` or `aborted`, a response by `finish` or
-- `close`.
pub data Event : Type 0 where
  start_called : ListenAnswer → Event
  close_called : Bool → Event
  listening : Address → ServerView → Event
  bind_error : ServerView → Event
  start_resumes : Event
  close_resumes : Bool → Event
  release_settles : Event
  connection : ℕ → Event
  request : ℕ → ℕ → Event
  connection_ends request_ends response_ends : ℕ → Event
  deadline : Event
  server_close_done : Event

-- The release has run; `invokeRelease` drops its error.
unfoldable pub settle_release : Runtime → Runtime
settle_release s = elim s.release [ releasing ↦ record s { release = released } | _ ↦ s ]

unfoldable pub step : String → Runtime → Event → Runtime
unfolding start_runtime on_listening on_error resume_start track_connection track_request
    remove_connection remove_request remove_response drain_deadline server_closed close_runtime
    resume_close settle_release
step host s (start_called a) = start_runtime a s
step host s (close_called throws) = close_runtime throws s
step host s (listening address v) = on_listening host address v s
step host s (bind_error v) = on_error v s
step host s start_resumes = resume_start s
step host s (close_resumes throws) = resume_close throws s
step host s release_settles = settle_release s
step host s (connection i) = track_connection i s
step host s (request i j) = track_request i j s
step host s (connection_ends i) = remove_connection i s
step host s (request_ends i) = remove_request i s
step host s (response_ends i) = remove_response i s
step host s deadline = drain_deadline s
step host s server_close_done = server_closed s

unfoldable pub run : String → Runtime → List Event → Runtime
unfolding step
run host s [] = s
run host s (e ∷ es) = run host (step host s e) es

pub data RuntimeReach (host : String) : Runtime → Type 0 where
  created : RuntimeReach host initial_runtime
  turned : {s : Runtime} → RuntimeReach host s → (e : Event) → RuntimeReach host (step host s e)
