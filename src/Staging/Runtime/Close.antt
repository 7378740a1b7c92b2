-- ===== src/Staging/Runtime/Close.antt =====
-- `close`, what it waits for, and the tracking of what is open.
use stadtstack.Base.{ℕ, Bool, true, false, List, [], ◌∷◌, ◌++◌, eqb, if◌then◌else◌, any}
use stadtstack.Staging.Runtime.State.{
  Phase, starting, ready, draining, stopped, not_closing, awaiting_start, awaiting_drain,
  awaiting_server_close, racing, close_releasing, closed, released, Drain, drain_waiting,
  drain_resolved, not_asked, closing, finished, close_server, close_idle, Runtime, invoke_release,
  remove_tracking, force_close_connections, at_phase, start_is_pending, is_drained,
}

-- `Set.prototype.add` and `delete`, and whether the set has an element
abbrev pub has_member : ℕ → List ℕ → Bool
has_member i xs = any (eqb i) xs

abbrev pub add_id : ℕ → List ℕ → List ℕ
add_id i xs = if has_member i xs then xs else xs ++ i ∷ []

unfoldable pub delete_id : ℕ → List ℕ → List ℕ
delete_id i [] = []
delete_id i (x ∷ xs) = let rest = delete_id i xs in if eqb i x then rest else x ∷ rest

-- `maybeResolveDrain`
unfoldable pub maybe_resolve_drain : Runtime → Runtime
maybe_resolve_drain s = elim s.drain [
  | drain_waiting ↦ if is_drained s.tracked then record s { drain = drain_resolved false } else s
  | _ ↦ s
]

-- `trackConnection`, which the server calls until `removeTracking`
unfoldable pub track_connection : ℕ → Runtime → Runtime
track_connection i s =
    if s.cleanup_done
    then s
    else record s { tracked = record (s.tracked) { connections = add_id i s.tracked.connections } }

-- `trackRequest`
unfoldable pub track_request : ℕ → ℕ → Runtime → Runtime
track_request i j s = if s.cleanup_done then s else record s {
  tracked = record (s.tracked) {
    requests = add_id i s.tracked.requests;
    responses = add_id j s.tracked.responses;
  };
}

-- `removeConnection`, `removeRequest` and `removeResponse`: the handlers are there while the sets
-- have the object.
unfoldable pub remove_connection : ℕ → Runtime → Runtime
unfolding delete_id maybe_resolve_drain
remove_connection i s =
    if has_member i s.tracked.connections
    then maybe_resolve_drain (record s {
      tracked = record (s.tracked) { connections = delete_id i s.tracked.connections };
    })
    else s

unfoldable pub remove_request : ℕ → Runtime → Runtime
unfolding delete_id maybe_resolve_drain
remove_request i s =
    if has_member i s.tracked.requests
    then maybe_resolve_drain
        (record s { tracked = record (s.tracked) { requests = delete_id i s.tracked.requests } })
    else s

unfoldable pub remove_response : ℕ → Runtime → Runtime
unfolding delete_id maybe_resolve_drain
remove_response i s =
    if has_member i s.tracked.responses
    then maybe_resolve_drain
        (record s { tracked = record (s.tracked) { responses = delete_id i s.tracked.responses } })
    else s

-- `waitForServerClose`, where `server.close` may throw
unfoldable pub wait_for_server_close : Bool → Runtime → Runtime
wait_for_server_close throws s = elim s.server_close [
  | not_asked ↦ record s {
    server_close = if throws then finished else closing;
    calls = close_idle ∷ close_server ∷ s.calls;
  }
  | _ ↦ s
]

-- `waitForDrain`
unfoldable pub wait_for_drain : Runtime → Runtime
wait_for_drain s = record s {
  drain = if is_drained s.tracked then drain_resolved false else drain_waiting;
}

-- The drain's deadline.
unfoldable pub drain_deadline : Runtime → Runtime
unfolding force_close_connections
drain_deadline s = elim s.drain [
  | drain_waiting ↦ record (force_close_connections s) { drain = drain_resolved true }
  | _ ↦ s
]

-- The callback of `server.close`.
unfoldable pub server_closed : Runtime → Runtime
server_closed s = elim s.server_close [ closing ↦ record s { server_close = finished } | _ ↦ s ]

-- The end of `finishClose`, up to its wait for the release.
unfoldable pub finalize : Runtime → Runtime
unfolding invoke_release remove_tracking
finalize s = record (invoke_release (remove_tracking (at_phase stopped s))) {
  close = close_releasing;
}

-- `finishClose` where no bind is under way
abbrev pub close_at : Phase → Bool → Runtime → Runtime
close_at ready throws s =
    record (wait_for_drain (wait_for_server_close throws (at_phase draining s))) {
      close = awaiting_drain;
    }
close_at draining throws s =
    record (wait_for_drain (wait_for_server_close throws (at_phase draining s))) {
      close = awaiting_drain;
    }
close_at _ throws s = finalize s

-- `finishClose`, up to its first `await`
unfoldable pub finish_close : Bool → Runtime → Runtime
unfolding wait_for_drain wait_for_server_close finalize
finish_close throws s =
    if start_is_pending s.start
    then record s { close = awaiting_start }
    else close_at s.phase throws s

abbrev pub closing_phase : Phase → Phase
closing_phase starting = draining
closing_phase ready = draining
closing_phase p = p

-- `close`
unfoldable pub close_runtime : Bool → Runtime → Runtime
unfolding finish_close
close_runtime throws s = elim s.close [
  | not_closing ↦ finish_close throws (record s { phase = closing_phase s.phase })
  | _ ↦ s
]

abbrev pub after_drain : Drain → Runtime → Runtime
after_drain (drain_resolved true) s = record s { close = racing }
after_drain (drain_resolved false) s = record s { close = awaiting_server_close }
after_drain _ s = s

-- What follows each `await` of `finishClose`. The race needs no more than one turn.
unfoldable pub resume_close : Bool → Runtime → Runtime
unfolding wait_for_drain wait_for_server_close finalize
resume_close throws s = elim s.close [
  | awaiting_start ↦ if start_is_pending s.start then s else close_at s.phase throws s
  | awaiting_drain ↦ after_drain s.drain s
  | awaiting_server_close ↦ elim s.server_close [ finished ↦ finalize s | _ ↦ s ]
  | racing ↦ finalize s
  | close_releasing ↦ elim s.release [ released ↦ record s { close = closed } | _ ↦ s ]
  | _ ↦ s
]
