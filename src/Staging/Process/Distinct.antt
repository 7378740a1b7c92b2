-- ===== src/Staging/Process/Distinct.antt =====
-- What a captured configuration of a process guarantees.
use stadtstack.Base.{
  ℕ, suc, leb, ◌&&◌, ◌≤◌, String, true, false, Option, some, List, [], ◌∷◌, ◌++◌, length, ◌≡◌, refl,
  sym, subst, ◌∙◌, ap, arith, Result, ok, >>=-eq-ok, Option-cases, Result-cases, Bool-cases, inl,
  inr, eq_iff,
}
use stadtstack.Staging.Raw.{
  Raw, RawObject, raw_get, exact_object, integer_within, integer_within-bounds, token,
}
use stadtstack.Staging.Process.Config

abbrev pub ListensAt : Config.Plans → String → Config.RuntimeListener → Type 0
ListensAt plans id (Config.loopback port) = port ≤ 65535
ListensAt plans id (Config.deployment i) =
    (plan : String) × (Config.plan_id i plans ≡ some plan) × (Config.expected_id plan ≡ id)

-- A listener whose id and server are new among those before it.
pub record IsNew (plans : Config.Plans) (before : List Config.CapturedListener)
    (c : Config.CapturedListener) : Type 0 where
  pub named : Config.is_listener_id c.id ≡ true
  pub new_id : Config.has_listener_id c.id before ≡ false
  pub new_server : Config.has_server c.server before ≡ false
  pub listens : ListensAt plans c.id c.listener

abbrev pub AllNew :
    Config.Plans → List Config.CapturedListener → List Config.CapturedListener → Type 0
AllNew plans before [] = Unit
AllNew plans before (c ∷ cs) = IsNew plans before c × AllNew plans (before ++ c ∷ []) cs

record Named (before : List Config.CapturedListener) (id : String) (server : ℕ) : Type 0 where
  named : Config.is_listener_id id ≡ true
  new_id : Config.has_listener_id id before ≡ false
  new_server : Config.has_server server before ≡ false

id_lem :
    (r : Raw) {id : String} → Config.listener_id_of r ≡ some id → Config.is_listener_id id ≡ true
id_lem r h = ground arith

names_lem :
    (before : List Config.CapturedListener) (raw : RawObject) {id : String} {server : ℕ}
    → Config.listener_names before raw ≡ ok (id, server)
    → Named before id server
unfolding Config.listener_names
names_lem before raw h = elim (Option-cases (Config.listener_id_of (raw_get "id" raw))) [
  | inl e ↦ absurd (ground arith)
  | inr (i, e) ↦ elim (Option-cases (Config.plain_server (raw_get "server" raw))) [
    | inl e' ↦ absurd (ground arith)
    | inr (s, e') ↦ ground (arith, id_lem (raw_get "id" raw) e)
  ]
]

loopback_lem :
    (plans : Config.Plans) (before : List Config.CapturedListener) (raw : RawObject)
    {c : Config.CapturedListener}
    → Config.loopback_listener before raw ≡ ok c
    → IsNew plans before c
unfolding Config.loopback_listener
loopback_lem plans before raw h = elim (Result-cases (Config.listener_names before raw)) [
  | inl (x, e) ↦ absurd (ground arith)
  | inr ((id, server), e) ↦ elim (Option-cases (integer_within 0 65535 (raw_get "port" raw))) [
    | inl e' ↦ absurd (ground arith)
    | inr (p, e') ↦
        ground
          (arith, names_lem before raw e, integer_within-bounds 0 65535 (raw_get "port" raw) e')
  ]
]

plan_lem :
    (plans : Config.Plans) (r : Raw) {i : ℕ} {plan : String}
    → Config.plan_of plans r ≡ some (i, plan)
    → Config.plan_id i plans ≡ some plan
plan_lem plans (token j) h = elim (Option-cases (Config.plan_id j plans)) [
  | inl e ↦ absurd (ground arith)
  | inr (name, e) ↦ ground arith
]
plan_lem plans r h = absurd (ground arith)

deployment_lem :
    (plans : Config.Plans) (before : List Config.CapturedListener) (raw : RawObject)
    {c : Config.CapturedListener}
    → Config.deployment_listener plans before raw ≡ ok c
    → IsNew plans before c
unfolding Config.deployment_listener
deployment_lem plans before raw {c = c} h = elim (Result-cases (Config.listener_names before raw)) [
  | inl (x, e) ↦ absurd (ground arith)
  | inr ((id, server), e) ↦ elim (Option-cases (Config.plan_of plans (raw_get "bindPlan" raw))) [
    | inl e' ↦ absurd (ground arith)
    | inr ((i, plan), e') ↦
        let same = (eq_iff (Config.expected_id plan) id).0 (ground arith) in
        let n = names_lem before raw e in
        let made : record { id = id; server = server; listener = Config.deployment i } ≡ c =
          ground arith in
        subst (IsNew plans before) made (record {
          named = n.named;
          new_id = n.new_id;
          new_server = n.new_server;
          listens = (plan, plan_lem plans (raw_get "bindPlan" raw) e', same);
        })
  ]
]

one_lem :
    (plans : Config.Plans) (before : List Config.CapturedListener) (raw : RawObject)
    {c : Config.CapturedListener}
    → Config.capture_one plans before raw ≡ ok c
    → IsNew plans before c
unfolding Config.capture_one
one_lem plans before raw h =
    elim (Bool-cases (exact_object ("id" ∷ "server" ∷ "host" ∷ "port" ∷ []) raw)) [
      | inl e ↦ loopback_lem plans before raw (ground arith)
      | inr e ↦ deployment_lem plans before raw (ground arith)
    ]

-- The listeners captured after those before them.
record Captured (plans : Config.Plans) (before : List Config.CapturedListener) (n : ℕ)
    (all : List Config.CapturedListener) : Type 0 where
  added : List Config.CapturedListener
  all_are : all ≡ before ++ added
  all_new : AllNew plans before added
  counted : length added ≡ n

append_nil : (xs : List Config.CapturedListener) → xs ≡ xs ++ []
append_nil [] = refl
append_nil (x ∷ xs) = ap (◌∷◌ x) (append_nil xs)

ok_eq : {E A : Type 0} {x y : A} → ◌≡◌ {A = Result E A} (ok x) (ok y) → y ≡ x
ok_eq h = cc

ok_same :
    {E : Type 0} {before all : List Config.CapturedListener}
    → ◌≡◌ {A = Result E (List Config.CapturedListener)} (ok before) (ok all)
    → all ≡ before ++ []
ok_same {before = before} h = ok_eq h ∙ append_nil before

append_one :
    (before : List Config.CapturedListener) (c : Config.CapturedListener)
    (cs : List Config.CapturedListener)
    → (before ++ c ∷ []) ++ cs ≡ before ++ c ∷ cs
append_one [] c cs = refl
append_one (b ∷ before) c cs = ap (◌∷◌ b) (append_one before c cs)

all_lem :
    (plans : Config.Plans) (raws : List RawObject) (before : List Config.CapturedListener)
    {all : List Config.CapturedListener}
    → Config.capture_all plans before raws ≡ ok all
    → Captured plans before (length raws) all
unfolding Config.capture_all
all_lem plans [] before h = record { added = []; all_are = ok_same h; all_new = tt; counted = refl }
all_lem plans (raw ∷ raws) before h =
    let (c, first, rest) = >>=-eq-ok (Config.capture_one plans before raw) _ h in
    let k = all_lem plans raws (before ++ c ∷ []) rest in
    record {
      added = c ∷ k.added;
      all_are = k.all_are ∙ append_one before c k.added;
      all_new = (one_lem plans before raw first, k.all_new);
      counted = ap suc k.counted;
    }

-- A captured configuration: between one and four listeners, each with an id of the right form, new
-- among those before it as its server is, on a loopback port or by a bind plan of that name; and a
-- drain that takes between 100 and 10000 milliseconds.
pub record IsSound (plans : Config.Plans) (c : Config.ProcessConfig) : Type 0 where
  pub listeners_new : AllNew plans [] c.listeners
  pub some_listener : 1 ≤ length c.listeners
  pub few_listeners : length c.listeners ≤ 4
  pub timeout_least : 100 ≤ c.drain_timeout_ms
  pub timeout_most : c.drain_timeout_ms ≤ 10000

sound_lem :
    (plans : Config.Plans) (raws : List RawObject) (timeout release : ℕ) (g : Option ℕ)
    {all : List Config.CapturedListener}
    → Captured plans [] (length raws) all
    → (leb 1 (length raws) && leb (length raws) 4) ≡ true
    → (100 ≤ timeout) × (timeout ≤ 10000)
    → IsSound plans
        (record { listeners = all; release = release; drain_timeout_ms = timeout; before_bind = g })
sound_lem plans raws timeout release g k n t =
    let same = ap length k.all_are ∙ k.counted in
    record {
      listeners_new = subst (AllNew plans []) (sym k.all_are) k.all_new;
      some_listener = ground (arith, same);
      few_listeners = ground (arith, same);
      timeout_least = t.0;
      timeout_most = t.1;
    }

-- An accepted configuration of a process has between one and four listeners. Each has an id of the
-- required form, an id and a server that none before it has, and either a loopback port that TCP
-- allows or a known bind plan whose name is that id. The drain takes between 100 and 10000
-- milliseconds.
pub capture_process_config-IsSound :
    (plans : Config.Plans) (raw : RawObject) (raws : List RawObject) {c : Config.ProcessConfig}
    → Config.capture_process_config plans raw raws ≡ ok c
    → IsSound plans c
unfolding Config.capture_process_config
capture_process_config-IsSound plans raw raws {c = c} h =
    elim (Result-cases (Config.capture_all plans [] raws)) [
      | inl (x, e) ↦ absurd (ground arith)
      | inr (all, e) ↦ elim (Option-cases (Config.plain_function (raw_get "release" raw))) [
        | inl e1 ↦ absurd (ground arith)
        | inr (release, e1) ↦
            elim (Option-cases (integer_within 100 10000 (raw_get "drainTimeoutMs" raw))) [
              | inl e2 ↦ absurd (ground arith)
              | inr (timeout, e2) ↦
                  elim (Option-cases (Config.guard_of (raw_get "beforeBind" raw))) [
                    | inl e3 ↦ absurd (ground arith)
                    | inr (g, e3) ↦
                        let made : record {
                          listeners = all;
                          release = release;
                          drain_timeout_ms = timeout;
                          before_bind = g;
                        }
                            ≡ c =
                          ground arith in
                        subst (IsSound plans) made (
                          sound_lem plans raws timeout release g (all_lem plans raws [] e)
                            (ground arith)
                            (integer_within-bounds 100 10000 (raw_get "drainTimeoutMs" raw) e2))
                  ]
            ]
      ]
    ]
