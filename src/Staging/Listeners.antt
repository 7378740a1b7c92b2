-- ===== src/Staging/Listeners.antt =====
-- src/staging-case-runtime-listener-capability.ts: opaque tokens that stand for a deployment's
-- listener. An object has an identity, which is what the WeakMap `capabilityFacts` looks at.
use stadtstack.Base.{
  ℕ, String, Bool, true, false, not, ◌&&◌, Option, none, some, List, [], ◌∷◌, eqb, ◌==◌, Result, ok,
  guard, or_fail, ◌>>=◌, ◌>>◌, length, is_some, any, if◌then◌else◌,
}
use stadtstack.Value.{nat, Value, num, str, Key, name, Fields, get, own_keys, as_record}

pub data ListenerError : Type 0 where
  listener_capability_invalid config_invalid : ListenerError

pub record ResolvedListener : Type 0 where
  pub host : String
  pub port : ℕ

-- An object that is offered as a capability.
pub record Token : Type 0 where
  pub identity : ℕ
  pub frozen : Bool
  pub fields : Fields

abbrev pub control_ports : List (String × ℕ)
control_ports =
    ("admission", 18085)
    ∷ ("private-outbox", 18087)
    ∷ ("probe", 18088)
    ∷ ("administration-review", 18090)
    ∷ []

abbrev pub public_ports : List (String × ℕ)
public_ports = ("public", 18086) ∷ ("public-probe", 18089) ∷ []

-- `ports[id]`
unfoldable pub port_of : String → List (String × ℕ) → Option ℕ
port_of id [] = none
port_of id ((k, p) ∷ ports) = let rest = port_of id ports in if k == id then some p else rest

abbrev pub key_among : List String → Key → Bool
key_among names (name k) = any (λ n. n == k) names
key_among names (Key.symbol k) = false

abbrev pub all_among : List String → List Key → Bool
all_among names [] = true
all_among names (k ∷ ks) = key_among names k && all_among names ks

-- Exactly these keys, none of them a symbol.
unfoldable pub has_exactly : List String → Fields → Bool
unfolding own_keys
has_exactly names fs = eqb (length (own_keys fs)) (length names) && all_among names (own_keys fs)

abbrev pub port_is : Value → Option ℕ → Bool
port_is (num (nat p)) (some q) = eqb p q
port_is _ _ = false

abbrev pub id_text : Value → Option String
id_text (str s) = some s
id_text _ = none

abbrev pub host_is : String → Value → Bool
host_is h (str s) = s == h
host_is h _ = false

unfoldable pub capture_deployment_listener :
    Value → List (String × ℕ) → Result ListenerError ResolvedListener
unfolding port_of has_exactly get
capture_deployment_listener value ports =
    or_fail (as_record value) listener_capability_invalid >>= λ fs.
    guard (has_exactly ("id" ∷ "host" ∷ "port" ∷ []) fs) listener_capability_invalid
    >> or_fail (id_text (get "id" fs)) listener_capability_invalid
    >>= λ id. or_fail (port_of id ports) listener_capability_invalid >>= λ p.
        guard (host_is "0.0.0.0" (get "host" fs) && port_is (get "port" fs) (some p))
          listener_capability_invalid
        >> ok (record { host = "0.0.0.0"; port = p })

-- The WeakMap, by identity.
abbrev pub Facts : Type 0
Facts = List (ℕ × ResolvedListener)

unfoldable pub fact_of : ℕ → Facts → Option ResolvedListener
fact_of i [] = none
fact_of i ((j, r) ∷ facts) = let rest = fact_of i facts in if eqb j i then some r else rest

-- A frozen object with the schema alone, not registered before.
unfoldable pub may_register : Facts → Token → String → Bool
unfolding fact_of has_exactly get
may_register facts token schema =
    token.frozen
    && has_exactly ("schemaVersion" ∷ []) token.fields
    && host_is schema (get "schemaVersion" token.fields)
    && not (is_some (fact_of token.identity facts))

unfoldable pub register :
    Facts → Token → Value → String → List (String × ℕ) → Result ListenerError Facts
unfolding capture_deployment_listener may_register
register facts token listener schema ports =
    guard (may_register facts token schema) listener_capability_invalid
    >> capture_deployment_listener listener ports
    >>= λ r. ok ((token.identity, r) ∷ facts)

unfoldable pub register_control : Facts → Token → Value → Result ListenerError Facts
unfolding register
register_control facts token listener =
    register facts token listener "staging_case_control_listener_bind_plan_v1" control_ports

unfoldable pub register_public : Facts → Token → Value → Result ListenerError Facts
unfolding register
register_public facts token listener =
    register facts token listener "staging_public_case_binding_listener_bind_plan_v1" public_ports
