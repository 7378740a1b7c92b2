-- ===== src/Staging/Process/Config.antt =====
-- `captureConfig` of src/staging-case-process-lifecycle.ts, and the bind plans that it asks
-- src/staging-case-control-preflight.ts about.
use stadtstack.Base.{
  ℕ, String, Bool, true, false, not, ◌&&◌, ◌||◌, Option, none, some, List, [], ◌∷◌, ◌++◌, ◌==◌, eqb,
  leb, length, any, Result, ok, guard, or_fail, ◌>>=◌, ◌>>◌, if◌then◌else◌,
}
use stadtstack.Value.{undefined, str}
use stadtstack.Regex.{codes}
use stadtstack.Staging.Raw.{
  Raw, plain, token, server_object, function_object, RawObject, raw_get, keys_among, exact_object,
  integer_within,
}

pub data ProcessError : Type 0 where
  process_config_invalid : ProcessError

-- What a child lifecycle is told to listen on: a loopback port or a bind plan.
pub data RuntimeListener : Type 0 where
  loopback : ℕ → RuntimeListener
  deployment : ℕ → RuntimeListener

pub record CapturedListener : Type 0 where
  pub id : String
  pub server : ℕ
  pub listener : RuntimeListener

pub record ProcessConfig : Type 0 where
  pub listeners : List CapturedListener
  pub release : ℕ
  pub drain_timeout_ms : ℕ
  pub before_bind : Option ℕ

is_lower : ℕ → Bool
is_lower c = leb 97 c && leb c 122

is_id_char : ℕ → Bool
unfolding is_lower
is_id_char c = is_lower c || (leb 48 c && leb c 57) || eqb c 95 || eqb c 45

all_id_chars : List ℕ → Bool
unfolding is_id_char
all_id_chars [] = true
all_id_chars (c ∷ cs) = is_id_char c && all_id_chars cs

listener_codes : List ℕ → Bool
unfolding is_lower all_id_chars
listener_codes [] = false
listener_codes (c ∷ cs) = is_lower c && all_id_chars cs && leb (length cs) 63

-- `LISTENER_ID`
unfoldable pub is_listener_id : String → Bool
unfolding listener_codes
is_listener_id s = listener_codes (codes s)

abbrev pub listener_id_of : Raw → Option String
listener_id_of (plain (str s)) = if is_listener_id s then some s else none
listener_id_of _ = none

abbrev pub is_loopback_host : Raw → Bool
is_loopback_host (plain (str s)) = s == "127.0.0.1"
is_loopback_host _ = false

-- A server that is no proxy.
abbrev pub plain_server : Raw → Option ℕ
plain_server (server_object s) = if s.is_proxy then none else some s.identity
plain_server _ = none

abbrev pub has_server : ℕ → List CapturedListener → Bool
has_server n cs = any (λ c. eqb c.server n) cs

abbrev pub has_listener_id : String → List CapturedListener → Bool
has_listener_id id cs = any (λ c. c.id == id) cs

-- The id and the server of a listener, new among those before it.
unfoldable pub listener_names : List CapturedListener → RawObject → Result ProcessError (String × ℕ)
unfolding raw_get is_listener_id
listener_names before raw =
    or_fail (listener_id_of (raw_get "id" raw)) process_config_invalid >>= λ id.
    guard (not (has_listener_id id before)) process_config_invalid
    >> or_fail (plain_server (raw_get "server" raw)) process_config_invalid
    >>= λ server. guard (not (has_server server before)) process_config_invalid >> ok (id, server)

unfoldable pub loopback_listener :
    List CapturedListener → RawObject → Result ProcessError CapturedListener
unfolding listener_names raw_get integer_within
loopback_listener before raw = listener_names before raw >>= λ (id, server).
    guard (is_loopback_host (raw_get "host" raw)) process_config_invalid
    >> or_fail (integer_within 0 65535 (raw_get "port" raw)) process_config_invalid
    >>= λ port. ok (record { id = id; server = server; listener = loopback port })

-- `bindPlanFacts`: the ids of the bind plans that the preflight has made, by their identities.
abbrev pub Plans : Type 0
Plans = List (ℕ × String)

-- `assertStagingCaseControlListenerBindPlan`
unfoldable pub plan_id : ℕ → Plans → Option String
plan_id i [] = none
plan_id i ((j, id) ∷ plans) = let rest = plan_id i plans in if eqb j i then some id else rest

abbrev pub plan_of : Plans → Raw → Option (ℕ × String)
plan_of plans (token i) = elim (plan_id i plans) [ some id ↦ some (i, id) | none ↦ none ]
plan_of plans _ = none

abbrev pub expected_id : String → String
expected_id id = if id == "private-outbox" then "outbox" else id

unfoldable pub deployment_listener :
    Plans → List CapturedListener → RawObject → Result ProcessError CapturedListener
unfolding listener_names raw_get exact_object plan_id
deployment_listener plans before raw =
    guard (exact_object ("id" ∷ "server" ∷ "bindPlan" ∷ []) raw) process_config_invalid
    >> listener_names before raw
    >>= λ (id, server).
        or_fail (plan_of plans (raw_get "bindPlan" raw)) process_config_invalid
        >>= λ (plan, plan_name).
            guard (expected_id plan_name == id) process_config_invalid
            >> ok (record { id = id; server = server; listener = deployment plan })

unfoldable pub capture_one :
    Plans → List CapturedListener → RawObject → Result ProcessError CapturedListener
unfolding loopback_listener deployment_listener exact_object
capture_one plans before raw =
    if exact_object ("id" ∷ "server" ∷ "host" ∷ "port" ∷ []) raw
    then loopback_listener before raw
    else deployment_listener plans before raw

-- The loop over the listeners.
unfoldable pub capture_all :
    Plans → List CapturedListener → List RawObject → Result ProcessError (List CapturedListener)
unfolding capture_one
capture_all plans before [] = ok before
capture_all plans before (raw ∷ raws) =
    capture_one plans before raw >>= λ c. capture_all plans (before ++ c ∷ []) raws

-- The fields of a configuration: three that must be there, and the guard.
unfoldable pub has_process_fields : RawObject → Bool
unfolding keys_among exact_object
has_process_fields fs =
    exact_object ("listeners" ∷ "release" ∷ "drainTimeoutMs" ∷ []) fs
    || exact_object ("listeners" ∷ "release" ∷ "drainTimeoutMs" ∷ "beforeBind" ∷ []) fs

abbrev pub plain_function : Raw → Option ℕ
plain_function (function_object f) = if f.is_proxy then none else some f.identity
plain_function _ = none

-- A guard that is there is a function, neither a proxy nor async.
abbrev pub guard_of : Raw → Option (Option ℕ)
guard_of (plain undefined) = some none
guard_of (function_object f) = if f.is_proxy || f.is_async then none else some (some f.identity)
guard_of _ = none

-- `captureConfig`; the array of listeners stands beside the other fields.
unfoldable pub capture_process_config :
    Plans → RawObject → List RawObject → Result ProcessError ProcessConfig
unfolding capture_all has_process_fields raw_get integer_within
capture_process_config plans config raws =
    guard (has_process_fields config) process_config_invalid
    >> guard (leb 1 (length raws) && leb (length raws) 4) process_config_invalid
    >> capture_all plans [] raws
    >>= λ listeners.
        or_fail (plain_function (raw_get "release" config)) process_config_invalid >>= λ release.
        or_fail (integer_within 100 10000 (raw_get "drainTimeoutMs" config)) process_config_invalid
        >>= λ timeout.
            or_fail (guard_of (raw_get "beforeBind" config)) process_config_invalid
            >>= λ before_bind. ok (record {
              listeners = listeners;
              release = release;
              drain_timeout_ms = timeout;
              before_bind = before_bind;
            })
