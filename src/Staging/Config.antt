-- ===== src/Staging/Config.antt =====
-- `captureConfig` and `captureListener` of src/staging-case-runtime-lifecycle.ts.
use stadtstack.Base.{
  ℕ, String, Bool, not, ◌&&◌, Option, none, [], ◌∷◌, Result, ok, guard, or_fail, ◌>>=◌, ◌>>◌,
  if◌then◌else◌,
}
use stadtstack.Value.{obj, Fields, get}
use stadtstack.Staging.Listeners.{
  ListenerError, config_invalid, ResolvedListener, Facts, fact_of, has_exactly, host_is,
}
use stadtstack.Staging.Runtime.Start.{server_is_unbound}
use stadtstack.Staging.Raw.{
  ServerInput, Raw, plain, token, RawObject, raw_get, exact_object, integer_within, server_of,
  function_of,
}

pub record RuntimeConfig : Type 0 where
  pub server : ℕ
  pub host : String
  pub port : ℕ
  pub release : ℕ
  pub drain_timeout_ms : ℕ

-- `captureStagingCaseRuntimeDeploymentListener`: only an object that was registered.
abbrev pub registered_listener : Facts → Raw → Option ResolvedListener
registered_listener facts (token i) = fact_of i facts
registered_listener facts _ = none

-- A loopback tuple.
unfoldable pub loopback_listener : Fields → Result ListenerError ResolvedListener
unfolding integer_within get
loopback_listener fs =
    guard (host_is "127.0.0.1" (get "host" fs)) config_invalid
    >> or_fail (integer_within 0 65535 (plain (get "port" fs))) config_invalid
    >>= λ port. ok (record { host = "127.0.0.1"; port = port })

-- `captureListener`
unfoldable pub capture_listener : Facts → Raw → Result ListenerError ResolvedListener
unfolding loopback_listener has_exactly fact_of
capture_listener facts (plain (obj fs)) =
    if has_exactly ("host" ∷ "port" ∷ []) fs
    then loopback_listener fs
    else or_fail (registered_listener facts (plain (obj fs))) config_invalid
capture_listener facts raw = or_fail (registered_listener facts raw) config_invalid

abbrev pub unbound_server : ServerInput → Bool
unbound_server s = not s.is_proxy && server_is_unbound s.view

-- `captureConfig`
unfoldable pub capture_config : Facts → RawObject → Result ListenerError RuntimeConfig
unfolding capture_listener exact_object raw_get integer_within
capture_config facts config =
    guard (exact_object ("server" ∷ "listener" ∷ "release" ∷ "drainTimeoutMs" ∷ []) config)
      config_invalid
    >> or_fail (server_of (raw_get "server" config)) config_invalid
    >>= λ server.
        guard (unbound_server server) config_invalid
        >> capture_listener facts (raw_get "listener" config)
        >>= λ listener.
            or_fail (function_of (raw_get "release" config)) config_invalid >>= λ release.
            or_fail (integer_within 100 10000 (raw_get "drainTimeoutMs" config)) config_invalid
            >>= λ timeout. ok (record {
              server = server.identity;
              host = listener.host;
              port = listener.port;
              release = release.identity;
              drain_timeout_ms = timeout;
            })
