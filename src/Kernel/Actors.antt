-- ===== src/Kernel/Actors.antt =====
-- `normalizeCivicActor`: the actor envelope at the kernel's boundary.
use stadtstack.Base.{
  String, Bool, true, false, not, Option, none, some, List, [], ◌∷◌, if◌then◌else◌, ◌==◌, contains,
  Result, ok, err, ◌>>=◌, ◌>>◌, guard, or_fail, each,
}
use stadtstack.Value.{
  Key, name, symbol, Value, str, Fields, get, has_own, own_keys, as_record, full_text,
}
use stadtstack.Kernel.Types.{
  Role, citizen, case_steward, department_agent, department_reviewer, participation_reviewer,
  publisher, CivicActor,
}
use stadtstack.Kernel.Errors.{
  KernelError, civic_actor_invalid, civic_actor_field_forbidden, civic_actor_id_required,
  civic_actor_role_invalid, civic_actor_department_required, civic_actor_department_forbidden,
}

abbrev civic_actor_keys : List String
civic_actor_keys = "id" ∷ "role" ∷ "departmentId" ∷ []

-- A text of `CIVIC_ACTOR_ROLES` as the role that it names.
abbrev pub parse_role : String → Option Role
parse_role s =
    if s == "citizen"
    then some citizen
    else if s == "case_steward"
    then some case_steward
    else if s == "department_agent"
    then some department_agent
    else if s == "department_reviewer"
    then some department_reviewer
    else if s == "participation_reviewer"
    then some participation_reviewer
    else if s == "publisher"
    then some publisher
    else none

unfoldable pub parse_role_value : Value → Option Role
parse_role_value (str s) = parse_role s
parse_role_value _ = none

unfoldable pub check_actor_key : Key → Result KernelError (Unit {0})
check_actor_key (symbol s) = err (civic_actor_field_forbidden (symbol s))
check_actor_key (name k) =
    guard (contains k civic_actor_keys) (civic_actor_field_forbidden (name k))

abbrev pub needs_department : Role → Bool
needs_department department_agent = true
needs_department department_reviewer = true
needs_department _ = false

unfoldable pub department_actor : String → Role → Fields → Result KernelError CivicActor
department_actor id role fs = do
  department ← or_fail (full_text (get "departmentId" fs)) civic_actor_department_required
  ok (record { id = id; role = role; department_id = some department })

unfoldable pub plain_actor : String → Role → Fields → Result KernelError CivicActor
plain_actor id role fs = do
  guard (not (has_own "departmentId" fs)) civic_actor_department_forbidden
  ok (record { id = id; role = role; department_id = none })

-- The checks on the fields of the envelope.
unfoldable pub normalize_actor_fields : Fields → Result KernelError CivicActor
unfolding check_actor_key parse_role_value department_actor plain_actor
normalize_actor_fields fs = do
  each check_actor_key (own_keys fs)
  id ← or_fail (full_text (get "id" fs)) civic_actor_id_required
  role ← or_fail (parse_role_value (get "role" fs)) civic_actor_role_invalid
  if needs_department role then department_actor id role fs else plain_actor id role fs

unfoldable pub normalize_civic_actor : Value → Result KernelError CivicActor
normalize_civic_actor value =
    or_fail (as_record value) civic_actor_invalid >>= normalize_actor_fields

-- Roles are texts in the source, compared by `===`.
abbrev pub role_code : Role → String
role_code citizen = "citizen"
role_code case_steward = "case_steward"
role_code department_agent = "department_agent"
role_code department_reviewer = "department_reviewer"
role_code participation_reviewer = "participation_reviewer"
role_code publisher = "publisher"

abbrev pub role_eq : Role → Role → Bool
role_eq a b = role_code a == role_code b

-- `===` on an optional text
abbrev pub optional_eq : Option String → Option String → Bool
optional_eq none none = true
optional_eq (some a) (some b) = a == b
optional_eq _ _ = false
