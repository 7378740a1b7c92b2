-- ===== src/Kernel/Config.antt =====
-- `snapshotCivicKernelConfig`: the immutable configuration and its actor registry.
use stadtstack.Base.{
  String, not, Option, none, some, List, [], map, has_no_duplicates, is_empty, Result, ok, err,
  ◌>>=◌, ◌>>◌, guard, or_fail, traverse, from_entries,
}
use stadtstack.Value.{Value, arr, items, full_text}
use stadtstack.Kernel.Types.{CivicActor, CivicKernelConfig}
use stadtstack.Kernel.Errors.{
  KernelError, municipality_id_required, case_id_required, department_id_required,
  departments_required, departments_unique, civic_actor_registry_required,
  civic_actor_registry_unique,
}
use stadtstack.Kernel.Actors.{normalize_civic_actor}

-- `departments` is `none` where the source reads undefined.
pub record ConfigInput : Type 0 where
  pub municipality_id : Value
  pub case_id : Value
  pub departments : Option (List Value)
  pub actors : Value

abbrev pub given_departments : Option (List Value) → List Value
given_departments none = []
given_departments (some vs) = vs

unfoldable pub read_department : Value → Result KernelError String
read_department v = or_fail (full_text v) department_id_required

unfoldable pub read_actors : Value → Result KernelError (List Value)
read_actors (arr vs) = do
  guard (not (is_empty (items vs))) civic_actor_registry_required
  ok (items vs)
read_actors _ = err civic_actor_registry_required

abbrev pub actor_ids : List CivicActor → List String
actor_ids = map (λ a. a.id)

unfoldable pub snapshot_civic_kernel_config : ConfigInput → Result KernelError CivicKernelConfig
unfolding read_department read_actors
snapshot_civic_kernel_config input = do
  municipality_id ← or_fail (full_text input.municipality_id) municipality_id_required
  case_id ← or_fail (full_text input.case_id) case_id_required
  departments ← traverse read_department (given_departments input.departments)
  guard (not (is_empty departments)) departments_required
  guard (has_no_duplicates departments) departments_unique
  given ← read_actors input.actors
  actors ← traverse normalize_civic_actor given
  guard (has_no_duplicates (actor_ids actors)) civic_actor_registry_unique
  ok (record {
    municipality_id = municipality_id;
    case_id = case_id;
    departments = departments;
    actors = actors;
  })

-- `actorRegistry`
unfoldable pub actor_registry : CivicKernelConfig → List (String × CivicActor)
actor_registry config = from_entries [] (map (λ a. (a.id, a)) config.actors)
