-- ===== src/Kernel/Errors.antt =====
-- What src/civic-kernel.ts passes to `new Error`; `type_error` is the language's own.
use stadtstack.Base.{ℕ, String}
use stadtstack.Value.{Key}

-- A place in a participation result, as the messages spell it: `p.k`, `p[i]`, `p.i`, `p.[symbol]`.
pub data ResultPath : Type 0 where
  result : ResultPath
  child : ResultPath → String → ResultPath
  index : ResultPath → ℕ → ResultPath
  element : ResultPath → ℕ → ResultPath
  symbol_child : ResultPath → ResultPath

pub data KernelError : Type 0 where
  type_error : KernelError
  civic_actor_invalid civic_actor_id_required civic_actor_role_invalid : KernelError
  civic_actor_field_forbidden : Key → KernelError
  civic_actor_department_required civic_actor_department_forbidden : KernelError
  civic_actor_registry_required civic_actor_registry_unique : KernelError
  civic_actor_not_registered civic_actor_binding_mismatch : KernelError
  municipality_id_required case_id_required department_id_required : KernelError
  departments_required departments_unique : KernelError
  discussion_provenance_private_field_forbidden : String → String → KernelError
  discussion_provenance_field_forbidden : String → String → KernelError
  discussion_provenance_scope_invalid discussion_provenance_scope_mismatch : KernelError
  discussion_provenance_proof_invalid discussion_provenance_invalid : KernelError
  discussion_provenance_schema_invalid discussion_provenance_id_required : KernelError
  discussion_provenance_id_mismatch discussion_provenance_source_invalid : KernelError
  discussion_provenance_source_ref_required discussion_provenance_authority_invalid : KernelError
  discussion_provenance_event_invalid discussion_provenance_event_id_mismatch : KernelError
  discussion_provenance_source_proof_mismatch : KernelError
  participation_result_shape_invalid : ResultPath → KernelError
  participation_result_field_forbidden : ResultPath → KernelError
  raw_participation_data_forbidden : ResultPath → KernelError
  raw_participation_value_forbidden : ResultPath → KernelError
  participation_result_schema_invalid participation_result_authority_invalid : KernelError
  participation_result_reference_required participation_checksum_required : KernelError
  participation_checksum_invalid participation_result_count_invalid : KernelError
  participation_timestamp_required participation_timestamp_invalid : KernelError
  participation_timestamp_order_invalid representation_count_invalid : KernelError
  representation_count_inconsistent participation_result_option_invalid : KernelError
  participation_option_duplicate participation_option_count_inconsistent : KernelError
  citizen_required case_steward_required department_agent_required : KernelError
  department_reviewer_required publisher_required participation_reviewer_required : KernelError
  discussion_signature_required discussion_conflict discussion_not_found : KernelError
  suggestion_conflict suggestion_not_found : KernelError
  department_work_package_not_found department_actor_scope_mismatch : KernelError
  department_response_citation_required department_reviewer_scope_mismatch : KernelError
  department_response_not_found department_response_author_required : KernelError
  department_reviewer_independence all_department_responses_must_be_reviewed : KernelError
  participation_result_conflict reviewed_citizen_brief_required viewer_role_invalid : KernelError
