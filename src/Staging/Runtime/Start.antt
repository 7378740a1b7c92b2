-- ===== src/Staging/Runtime/Start.antt =====
-- `start`: the bind, its events, and what follows a bind that fails. What the Node server says when
-- it is asked is an argument.
use stadtstack.Base.{ℕ, String, Bool, not, ◌&&◌, Option, none, some, ◌∷◌, leb, if◌then◌else◌, ◌==◌}
use stadtstack.Value.{Number, nat}
use stadtstack.Staging.Runtime.State.{
  Phase, new, starting, ready, stopped, failed, StartProgress, not_started, start_skipped, binding,
  bound, stopping_listener, start_releasing, start_rejected, released, listen, close_server,
  Runtime, invoke_release, at_phase, force_close_connections, closing_requested,
}

-- `server.listening`, and whether `server.address()` is null; asking may throw.
pub record ServerView : Type 0 where
  pub throws : Bool
  pub listening : Bool
  pub address_is_null : Bool

abbrev pub server_is_unbound : ServerView → Bool
server_is_unbound v = not v.throws && not v.listening && v.address_is_null

-- What `server.address()` gives: nothing, the path of a pipe, or an address and a port.
pub data Address : Type 0 where
  no_address : Address
  pipe : String → Address
  address_info : String → Number → Address

-- The port, where the server is bound to the host that was promised.
abbrev pub bound_at : String → Address → Option ℕ
bound_at host (address_info address (nat port)) =
    if address == host && leb port 65535 then some port else none
bound_at host _ = none

-- The server before `listen`, whether `listen` throws, and the server after that.
pub record ListenAnswer : Type 0 where
  pub before : ServerView
  pub listen_throws : Bool
  pub after : ServerView

-- `stopUnexpectedListener`, up to its wait for the server or the timer
unfoldable pub stop_unexpected_listener : ServerView → Runtime → Runtime
unfolding force_close_connections
stop_unexpected_listener v s =
    if server_is_unbound v then s else record (force_close_connections s) {
      calls = close_server ∷ (force_close_connections s).calls;
    }

-- `failBind`
unfoldable pub fail_bind : ServerView → Runtime → Runtime
unfolding stop_unexpected_listener
fail_bind v s = record (stop_unexpected_listener v (at_phase failed s)) {
  start = stopping_listener;
}

unfoldable pub begin_listening : ListenAnswer → Runtime → Runtime
unfolding fail_bind
begin_listening a s =
    let t = record s { phase = starting; start = binding; calls = listen ∷ s.calls } in
    if a.listen_throws then fail_bind a.after t else t

abbrev pub start_at : Phase → ListenAnswer → Runtime → Runtime
start_at stopped a s = record s { start = start_skipped }
start_at new a s = if server_is_unbound a.before then begin_listening a s else fail_bind a.before s
start_at _ a s = s

abbrev pub start_from : StartProgress → ListenAnswer → Runtime → Runtime
start_from not_started a s = start_at s.phase a s
start_from _ a s = s

-- `start`
unfoldable pub start_runtime : ListenAnswer → Runtime → Runtime
unfolding begin_listening
start_runtime a s = start_from s.start a s

unfoldable pub bind_to : Option ℕ → ServerView → Runtime → Runtime
unfolding fail_bind
bind_to none v s = fail_bind v s
bind_to (some port) v s = record s {
  phase = if closing_requested s.close then s.phase else ready;
  bound_port = some port;
  start = bound;
}

-- `if (settled) return`
abbrev pub when_binding : StartProgress → Runtime → Runtime → Runtime
when_binding binding t s = t
when_binding _ t s = s

-- `onListening`
unfoldable pub on_listening : String → Address → ServerView → Runtime → Runtime
unfolding bind_to
on_listening host address v s = when_binding s.start (bind_to (bound_at host address) v s) s

-- `onError`
unfoldable pub on_error : ServerView → Runtime → Runtime
unfolding fail_bind
on_error v s = when_binding s.start (fail_bind v s) s

-- What follows each `await` of a bind that failed.
unfoldable pub resume_start : Runtime → Runtime
unfolding invoke_release
resume_start s = elim s.start [
  | stopping_listener ↦ record (invoke_release s) { start = start_releasing }
  | start_releasing ↦ elim s.release [ released ↦ record s { start = start_rejected } | _ ↦ s ]
  | _ ↦ s
]
