-- ===== src/Kernel/Registry.antt =====
-- What the configuration's snapshot guarantees.
use stadtstack.Base.{
  String, true, false, none, some, List, [], ◌∷◌, ◌≡◌, ◌≢◌, sym, subst, arith, All, IsDistinct,
  has_no_duplicates-IsDistinct, is_some, Result, ok, traverse, or_fail-eq-ok, Result-cases,
  Option-cases, inl, inr, Bool-cases,
}
use stadtstack.Text.{trim, is_blank}
use stadtstack.Text.Laws.{trim_idempotent}
use stadtstack.Value.{Value, str, Fields, get, as_record, full_text}
use stadtstack.Kernel.Types.{Role, CivicActor, CivicKernelConfig}
use stadtstack.Kernel.Errors.{department_id_required}
use stadtstack.Kernel.Actors.{
  parse_role_value, needs_department, department_actor, plain_actor, normalize_actor_fields,
  normalize_civic_actor,
}
use stadtstack.Kernel.Config.{
  ConfigInput, read_department, read_actors, given_departments, actor_ids,
  snapshot_civic_kernel_config,
}

-- A text that is trimmed and not blank.
pub record IsFull (s : String) : Type 0 where
  pub trimmed : trim s ≡ s
  pub filled : is_blank s ≡ false

-- An actor belongs to a department exactly where its role needs one.
pub record IsActor (a : CivicActor) : Type 0 where
  pub id : IsFull a.id
  pub department : needs_department a.role ≡ is_some a.department_id

pub record IsConfig (c : CivicKernelConfig) : Type 0 where
  pub municipality : IsFull c.municipality_id
  pub case : IsFull c.case_id
  pub departments : All IsFull c.departments
  pub staffed : c.departments ≢ []
  pub distinct_departments : IsDistinct c.departments
  pub actors : All IsActor c.actors
  pub distinct_actors : IsDistinct (actor_ids c.actors)

trim-IsFull : (s : String) → is_blank s ≡ false → IsFull (trim s)
trim-IsFull s h = record {
  trimmed = trim_idempotent s;
  filled = unfold is_blank in rw (trim_idempotent s) h;
}

full_text-IsFull : (v : Value) (s : String) → full_text v ≡ some s → IsFull s
full_text-IsFull (str t) s h = elim (Bool-cases (is_blank t)) [
  | inl blank ↦ absurd (ground arith)
  | inr filled ↦ subst IsFull (ground arith) (trim-IsFull t filled)
]
full_text-IsFull v s h = cc

traverse-All {ℓ κ} :
    {A : Type ℓ} {B : Type κ} {E : Type 0} (P : B → Type 0) (f : A → Result E B)
    → ((x : A) (y : B) → f x ≡ ok y → P y)
    → (xs : List A) (ys : List B) → traverse f xs ≡ ok ys
    → All P ys
traverse-All P f h [] [] e = tt
traverse-All P f h [] (y ∷ ys) e = cc
traverse-All P f h (x ∷ xs) ys e = elim (Result-cases (f x)) [
  | inl (_, fails) ↦ absurd (ground arith)
  | inr (z, made) ↦ elim (Result-cases (traverse f xs)) [
    | inl (_, fails) ↦ absurd (ground arith)
    | inr (zs, rest) ↦
        subst (All P) {x = z ∷ zs} (ground arith) (h x z made, traverse-All P f h xs zs rest)
  ]
]

department_actor-IsActor :
    (id : String) (role : Role) (fs : Fields) (a : CivicActor)
    → IsFull id
    → needs_department role ≡ true
    → department_actor id role fs ≡ ok a
    → IsActor a
unfolding department_actor
department_actor-IsActor id role fs a full needs h =
    elim (Option-cases (full_text (get "departmentId" fs))) [
      | inl missing ↦ absurd (ground arith)
      | inr (d, e) ↦
          let made : a ≡ record { id = id; role = role; department_id = some d } = ground arith in
          subst IsActor (sym made) (record { id = full; department = needs })
    ]

plain_actor-IsActor :
    (id : String) (role : Role) (fs : Fields) (a : CivicActor)
    → IsFull id
    → needs_department role ≡ false
    → plain_actor id role fs ≡ ok a
    → IsActor a
unfolding plain_actor
plain_actor-IsActor id role fs a full needs h =
    let made : a ≡ record { id = id; role = role; department_id = none } = ground arith in
    subst IsActor (sym made) (record { id = full; department = needs })

fields-IsActor : (fs : Fields) (a : CivicActor) → normalize_actor_fields fs ≡ ok a → IsActor a
unfolding normalize_actor_fields
fields-IsActor fs a h = elim (Option-cases (full_text (get "id" fs))) [
  | inl missing ↦ absurd (ground arith)
  | inr (id, named) ↦ elim (Option-cases (parse_role_value (get "role" fs))) [
    | inl unknown ↦ absurd (ground arith)
    | inr (role, parsed) ↦ elim (Bool-cases (needs_department role)) [
      | inl needs ↦
          department_actor-IsActor id role fs a (full_text-IsFull _ id named) needs (ground arith)
      | inr free ↦
          plain_actor-IsActor id role fs a (full_text-IsFull _ id named) free (ground arith)
    ]
  ]
]

normalize_civic_actor-IsActor :
    (v : Value) (a : CivicActor) → normalize_civic_actor v ≡ ok a → IsActor a
unfolding normalize_civic_actor
normalize_civic_actor-IsActor v a h = elim (Option-cases (as_record v)) [
  | inl other ↦ absurd (ground arith)
  | inr (fs, e) ↦ fields-IsActor fs a (ground arith)
]

read_department-IsFull : (v : Value) (s : String) → read_department v ≡ ok s → IsFull s
unfolding read_department
read_department-IsFull v s h = full_text-IsFull v s (or_fail-eq-ok _ department_id_required h)

-- An accepted configuration has trimmed, non-blank ids; at least one department, and no department
-- or actor id twice; and each actor names a department exactly where its role needs one.
pub snapshot_civic_kernel_config-IsConfig :
    (input : ConfigInput) (c : CivicKernelConfig)
    → snapshot_civic_kernel_config input ≡ ok c
    → IsConfig c
unfolding snapshot_civic_kernel_config
snapshot_civic_kernel_config-IsConfig input c h =
    elim (Option-cases (full_text input.municipality_id)) [
      | inl missing ↦ absurd (ground arith)
      | inr (m, m_given) ↦ elim (Option-cases (full_text input.case_id)) [
        | inl missing ↦ absurd (ground arith)
        | inr (k, k_given) ↦
            elim (Result-cases (traverse read_department (given_departments input.departments))) [
              | inl (e, fails) ↦ absurd (ground arith)
              | inr (ds, ds_read) ↦ elim (Result-cases (read_actors input.actors)) [
                | inl (e, fails) ↦ absurd (ground arith)
                | inr (given, given_read) ↦
                    elim (Result-cases (traverse normalize_civic_actor given)) [
                      | inl (e, fails) ↦ absurd (ground arith)
                      | inr (actors, actors_read) ↦
                          let made : c ≡ record {
                            municipality_id = m;
                            case_id = k;
                            departments = ds;
                            actors = actors;
                          } =
                            ground arith in
                          subst IsConfig (sym made) (record {
                            municipality = full_text-IsFull _ m m_given;
                            case = full_text-IsFull _ k k_given;
                            departments =
                                traverse-All IsFull read_department read_department-IsFull _ ds
                                  ds_read;
                            staffed = ground arith;
                            distinct_departments = has_no_duplicates-IsDistinct ds (ground arith);
                            actors =
                                traverse-All IsActor normalize_civic_actor
                                  normalize_civic_actor-IsActor given actors actors_read;
                            distinct_actors =
                                has_no_duplicates-IsDistinct (actor_ids actors) (ground arith);
                          })
                    ]
              ]
            ]
      ]
    ]
