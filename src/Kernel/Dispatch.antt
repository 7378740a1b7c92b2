-- ===== src/Kernel/Dispatch.antt =====
-- `dispatch`: one handler for each command. Every write of the source stands behind the last guard
-- of its handler, so a command that throws leaves the state as it was.
use stadtstack.Base.{
  ℕ, String, Bool, ◌&&◌, Option, none, some, if◌then◌else◌, ◌==◌, lookup, Result, ok, err, ◌>>=◌,
  ◌>>◌, guard, or_fail,
}
use stadtstack.Value.{Value, truthy}
use stadtstack.Value.Json.{same_json}
use stadtstack.Kernel.Types.{
  participation_reviewer, CivicActor, CivicKernelConfig, ParticipationResult, CivicCommand,
  record_discussion, craft_suggestion, submit_suggestion_for_administration,
  record_department_response, review_department_response, publish_reviewed_citizen_brief,
  record_participation_result, record_reviewed_participation_result,
}
use stadtstack.Kernel.Errors.{
  KernelError, civic_actor_not_registered, civic_actor_binding_mismatch,
  participation_reviewer_required, participation_result_conflict,
}
use stadtstack.Kernel.Actors.{normalize_civic_actor, role_eq, optional_eq}
use stadtstack.Kernel.Config.{actor_registry}
use stadtstack.Kernel.Participation.{normalize_participation_result}
use stadtstack.Kernel.State.{KernelState, participation_value}
use stadtstack.Kernel.Discussions.{dispatch_discussion, dispatch_suggestion}
use stadtstack.Kernel.Packages.{
  dispatch_submission, dispatch_response, dispatch_review, dispatch_brief,
}

-- The envelope must name a registered actor with its registered role and department.
unfoldable pub registered_actor : CivicKernelConfig → CivicActor → Result KernelError CivicActor
registered_actor config envelope = do
  registered ← or_fail (lookup envelope.id (actor_registry config)) civic_actor_not_registered
  guard
      (role_eq registered.role envelope.role
        && optional_eq registered.department_id envelope.department_id)
      civic_actor_binding_mismatch
  ok registered

unfoldable pub authenticate : CivicKernelConfig → Value → Result KernelError CivicActor
unfolding registered_actor
authenticate config value = normalize_civic_actor value >>= registered_actor config

abbrev pub same_result : ParticipationResult → ParticipationResult → Bool
same_result old given =
    old.id == given.id && same_json (participation_value old) (participation_value given)

unfoldable pub store_result : KernelState → ParticipationResult → Result KernelError KernelState
store_result s given = elim s.participation_result [
  | some old ↦ if same_result old given then ok s else err participation_result_conflict
  | none ↦ ok (record s { participation_result = some given })
]

module _ (date_parse : String → Option ℕ) where
  unfoldable pub dispatch_result : KernelState → CivicActor → Value → Result KernelError KernelState
  dispatch_result s actor result = do
    guard (role_eq actor.role participation_reviewer) participation_reviewer_required
    given ← normalize_participation_result date_parse result
    store_result s given

  -- A participation command with no actor at all fails as one from the wrong role.
  unfoldable pub dispatch_participation :
      CivicKernelConfig → KernelState → Value → Value → Result KernelError KernelState
  dispatch_participation config s actor_value result = do
    guard (truthy actor_value) participation_reviewer_required
    actor ← authenticate config actor_value
    dispatch_result s actor result

  unfoldable pub dispatch :
      CivicKernelConfig → KernelState → CivicCommand → Result KernelError KernelState
  dispatch config s (record_discussion a given) =
      authenticate config a >>= λ actor. dispatch_discussion config s actor given
  dispatch config s (craft_suggestion a id discussion_id title) =
      authenticate config a >>= λ actor. dispatch_suggestion s actor id discussion_id title
  dispatch config s (submit_suggestion_for_administration a id) =
      authenticate config a >>= λ actor. dispatch_submission config s actor id
  dispatch config s (record_department_response a id summary citations) =
      authenticate config a >>= λ actor. dispatch_response s actor id summary citations
  dispatch config s (review_department_response a id) =
      authenticate config a >>= λ actor. dispatch_review s actor id
  dispatch config s (publish_reviewed_citizen_brief a summary) =
      authenticate config a >>= λ actor. dispatch_brief config s actor summary
  dispatch config s (record_participation_result a result) =
      dispatch_participation config s a result
  dispatch config s (record_reviewed_participation_result a result) =
      dispatch_participation config s a result
