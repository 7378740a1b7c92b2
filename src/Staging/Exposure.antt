-- ===== src/Staging/Exposure.antt =====
-- Where a runtime may listen: on the loopback interface, or as a registered token says.
use stadtstack.Base.{
  ℕ, String, ◌≤◌, Bool, true, false, Option, some, List, [], ◌∷◌, ◌≡◌, ◌⊎◌, inl, inr, arith, eqb,
  ◌==◌, Result, ok, guard, ◌>>◌, Option-cases, Result-cases, All, >>=-eq-ok, or_fail-eq-ok, subst,
  if◌then◌else◌,
}
use stadtstack.Value.{Value, obj, Fields, get, as_record}
use stadtstack.Staging.Listeners.{
  ListenerError, config_invalid, ResolvedListener, Token, control_ports, public_ports, port_of,
  Facts, fact_of, capture_deployment_listener, register, register_control, register_public, id_text,
  may_register,
}
use stadtstack.Staging.Raw.{
  Raw, plain, token, RawObject, raw_get, integer_within, server_of, function_of,
  integer_within-bounds,
}
use stadtstack.Staging.Config.{RuntimeConfig, loopback_listener, capture_listener, capture_config}

-- The ports that the deployment has fixed.
abbrev pub IsDeployed : ℕ → Type 0
IsDeployed p = (18085 ≤ p) × (p ≤ 18090)

abbrev pub IsDeployedListener : ResolvedListener → Type 0
IsDeployedListener r = (r.host ≡ "0.0.0.0") × IsDeployed r.port

-- The registrations that were made.
pub data Registered : Facts → Type 0 where
  none_yet : Registered []
  control_plan :
      {facts after : Facts}
      → Registered facts
      → (t : Token) (v : Value) → register_control facts t v ≡ ok after
      → Registered after
  public_plan :
      {facts after : Facts}
      → Registered facts
      → (t : Token) (v : Value) → register_public facts t v ≡ ok after
      → Registered after

if-eq-some :
    {A : Type 0} (b : Bool) (x y : Option A) {a : A}
    → (if b then x else y) ≡ some a
    → (x ≡ some a) ⊎ (y ≡ some a)
if-eq-some true x y h = inl h
if-eq-some false x y h = inr h

same_listener :
    {q r : ResolvedListener} → some q ≡ some r → IsDeployedListener q → IsDeployedListener r
same_listener {q = q} {r = r} e d = ground arith

port_of-IsDeployed :
    (id : String) (ports : List (String × ℕ)) {p : ℕ}
    → All (λ (k, q). IsDeployed q) ports
    → port_of id ports ≡ some p
    → IsDeployed p
unfolding port_of
port_of-IsDeployed id [] all h = cc
port_of-IsDeployed id ((k, q) ∷ ports) all h =
    elim (if-eq-some (k == id) (some q) (port_of id ports) h) [
      | inl e ↦ ground (arith, e, all)
      | inr e ↦ port_of-IsDeployed id ports all.1 e
    ]

deployed_lem :
    (v : Value) (ports : List (String × ℕ)) {r : ResolvedListener}
    → All (λ (k, q). IsDeployed q) ports
    → capture_deployment_listener v ports ≡ ok r
    → IsDeployedListener r
unfolding capture_deployment_listener
deployed_lem v ports all h = elim (Option-cases (as_record v)) [
  | inl e ↦ absurd (ground arith)
  | inr (fs, e) ↦ elim (Option-cases (id_text (get "id" fs))) [
    | inl e' ↦ absurd (ground arith)
    | inr (id, e') ↦ elim (Option-cases (port_of id ports)) [
      | inl n ↦ absurd (ground arith)
      | inr (p, n) ↦ ground (arith, port_of-IsDeployed id ports all n)
    ]
  ]
]

fact_of-IsDeployed :
    (i : ℕ) (facts : Facts) {r : ResolvedListener}
    → All (λ (j, q). IsDeployedListener q) facts
    → fact_of i facts ≡ some r
    → IsDeployedListener r
unfolding fact_of
fact_of-IsDeployed i [] all h = cc
fact_of-IsDeployed i ((j, q) ∷ facts) all h =
    elim (if-eq-some (eqb j i) (some q) (fact_of i facts) h) [
      | inl e ↦ same_listener e all.0
      | inr e ↦ fact_of-IsDeployed i facts all.1 e
    ]

abbrev pub AllDeployed : Facts → Type 0
AllDeployed facts = All (λ (j, q). IsDeployedListener q) facts

ok-injective : {A : Type 0} {x y : A} → ◌≡◌ {A = Result ListenerError A} (ok x) (ok y) → x ≡ y
ok-injective h = cc

register-AllDeployed :
    (facts : Facts) (t : Token) (v : Value) (schema : String) (ports : List (String × ℕ))
    {after : Facts}
    → All (λ (k, q). IsDeployed q) ports
    → AllDeployed facts
    → register facts t v schema ports ≡ ok after
    → AllDeployed after
unfolding register
register-AllDeployed facts t v schema ports all d h =
    let (r, first, e) =
      >>=-eq-ok (guard (may_register facts t schema) _ >> capture_deployment_listener v ports) _
        h in
    let (u, g, captured) = >>=-eq-ok (guard (may_register facts t schema) _) _ first in
    subst AllDeployed (ok-injective e) (deployed_lem v ports all captured, d)

control_ports-IsDeployed : All (λ (k, q). IsDeployed q) control_ports
control_ports-IsDeployed = ground arith

public_ports-IsDeployed : All (λ (k, q). IsDeployed q) public_ports
public_ports-IsDeployed = ground arith

Registered-AllDeployed : {facts : Facts} → Registered facts → AllDeployed facts
unfolding register_control register_public
Registered-AllDeployed none_yet = tt
Registered-AllDeployed (control_plan {facts = facts} r t v h) =
    register-AllDeployed facts t v _ control_ports control_ports-IsDeployed
      (Registered-AllDeployed r) h
Registered-AllDeployed (public_plan {facts = facts} r t v h) =
    register-AllDeployed facts t v _ public_ports public_ports-IsDeployed (Registered-AllDeployed r)
      h

-- The loopback interface with a TCP port, or every interface with a deployed port.
abbrev pub IsExposed : String → ℕ → Type 0
IsExposed host port =
    ((host ≡ "127.0.0.1") × (port ≤ 65535)) ⊎ ((host ≡ "0.0.0.0") × IsDeployed port)

loopback_listener-IsExposed :
    (fs : Fields) {r : ResolvedListener} → loopback_listener fs ≡ ok r → IsExposed r.host r.port
unfolding loopback_listener integer_within
loopback_listener-IsExposed fs h = ground arith

capture_listener-IsExposed :
    (facts : Facts) (raw : Raw) {r : ResolvedListener}
    → AllDeployed facts
    → capture_listener facts raw ≡ ok r
    → IsExposed r.host r.port
unfolding capture_listener
capture_listener-IsExposed facts (token i) d h =
    inr (fact_of-IsDeployed i facts d (or_fail-eq-ok (fact_of i facts) config_invalid h))
capture_listener-IsExposed facts (plain (obj fs)) d h =
    loopback_listener-IsExposed fs (ground arith)
capture_listener-IsExposed facts raw d h = absurd (ground arith)

pub record IsBounded (c : RuntimeConfig) : Type 0 where
  pub exposed : IsExposed c.host c.port
  pub timeout_least : 100 ≤ c.drain_timeout_ms
  pub timeout_most : c.drain_timeout_ms ≤ 10000

-- An accepted configuration of a runtime listens on the loopback interface, or on every interface at
-- a port that the deployment has fixed, if the tokens were registered by the two plans; its drain
-- takes between 100 and 10000 milliseconds.
pub capture_config-IsBounded :
    {facts : Facts} {c : RuntimeConfig} (raw : RawObject)
    → Registered facts
    → capture_config facts raw ≡ ok c
    → IsBounded c
unfolding capture_config
capture_config-IsBounded {facts = facts} raw r h =
    elim (Option-cases (server_of (raw_get "server" raw))) [
      | inl e ↦ absurd (ground arith)
      | inr (server, e) ↦ elim (Result-cases (capture_listener facts (raw_get "listener" raw))) [
        | inl (x, e1) ↦ absurd (ground arith)
        | inr (listener, e1) ↦ elim (Option-cases (function_of (raw_get "release" raw))) [
          | inl e2 ↦ absurd (ground arith)
          | inr (release, e2) ↦
              elim (Option-cases (integer_within 100 10000 (raw_get "drainTimeoutMs" raw))) [
                | inl e3 ↦ absurd (ground arith)
                | inr (timeout, e3) ↦ ground (
                  arith,
                  capture_listener-IsExposed facts (raw_get "listener" raw)
                      (Registered-AllDeployed r) e1,
                  integer_within-bounds 100 10000 (raw_get "drainTimeoutMs" raw) e3,
                )
              ]
        ]
      ]
    ]
