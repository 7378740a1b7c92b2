-- ===== src/Kernel/Project.antt =====
-- `prepareCouncilDryRunBrief` and `project`: what each viewer is shown. The clones of the source
-- are equal values here.
use stadtstack.Base.{
  String, Option, none, some, List, map, if◌then◌else◌, count_if, Result, ok, ◌>>=◌, or_fail, ◌==◌,
}
use stadtstack.Value.{is_text}
use stadtstack.Kernel.Types.{
  no_authority, CivicKernelConfig, ParticipationResult, CouncilDryRunBrief, dry_run_not_submitted,
  ReviewedCitizenBrief, CivicProjection, DepartmentWorkPackage,
}
use stadtstack.Kernel.Errors.{KernelError, reviewed_citizen_brief_required, viewer_role_invalid}
use stadtstack.Kernel.State.{PublishedBrief, KernelState}
use stadtstack.Kernel.Packages.{is_reviewed}

pub data ViewerRole : Type 0 where
  administration council public : ViewerRole

abbrev pub parse_viewer : String → Option ViewerRole
parse_viewer s =
    if s == "administration"
    then some administration
    else if s == "council"
    then some council
    else if s == "public"
    then some public
    else none

council_brief : CivicKernelConfig → KernelState → PublishedBrief → CouncilDryRunBrief
council_brief config s brief = record {
  schema_version = "council_dry_run_brief_v1";
  municipality_id = config.municipality_id;
  case_id = config.case_id;
  authority_binding = no_authority;
  state = dry_run_not_submitted;
  summary = brief.summary;
  citizen_signal = s.participation_result;
  reviewed_department_response_count = count_if is_reviewed s.department_work_packages;
}

-- `buildCouncilDryRunBrief`, and `prepareCouncilDryRunBrief` by a clone of it.
unfoldable pub build_council_dry_run_brief :
    CivicKernelConfig → KernelState → Result KernelError CouncilDryRunBrief
unfolding council_brief
build_council_dry_run_brief config s = do
  brief ← or_fail s.reviewed_citizen_brief reviewed_citizen_brief_required
  ok (council_brief config s brief)

shown_publisher : ViewerRole → PublishedBrief → Option String
shown_publisher administration brief = some brief.published_by
shown_publisher _ brief = none

reviewed_brief_for_viewer : ViewerRole → Option PublishedBrief → Option ReviewedCitizenBrief
unfolding shown_publisher
reviewed_brief_for_viewer viewer none = none
reviewed_brief_for_viewer viewer (some brief) = some (record {
  summary = brief.summary;
  citations = brief.citations;
  published_by = shown_publisher viewer brief;
})

shown_result : ViewerRole → ParticipationResult → Option ParticipationResult
shown_result public r = if is_text "retracted" r.correction_state then none else some r
shown_result _ r = some r

result_for_viewer : ViewerRole → Option ParticipationResult → Option ParticipationResult
unfolding shown_result
result_for_viewer viewer none = none
result_for_viewer viewer (some r) = shown_result viewer r

dry_run_for_viewer : ViewerRole → CivicKernelConfig → KernelState → Option CouncilDryRunBrief
unfolding council_brief
dry_run_for_viewer council config s = elim s.reviewed_citizen_brief [
  | none ↦ none
  | some brief ↦ some (council_brief config s brief)
]
dry_run_for_viewer _ config s = none

packages_for_viewer : ViewerRole → KernelState → Option (List DepartmentWorkPackage)
packages_for_viewer administration s = some s.department_work_packages
packages_for_viewer _ s = none

unfoldable pub project_for : CivicKernelConfig → KernelState → ViewerRole → CivicProjection
unfolding reviewed_brief_for_viewer result_for_viewer dry_run_for_viewer packages_for_viewer
project_for config s viewer = record {
  municipality_id = config.municipality_id;
  case_id = config.case_id;
  authority_binding = no_authority;
  discussions = map (λ p. p.1) s.discussions;
  suggestions = map (λ p. p.1) s.suggestions;
  reviewed_citizen_brief = reviewed_brief_for_viewer viewer s.reviewed_citizen_brief;
  participation_result = result_for_viewer viewer s.participation_result;
  council_dry_run_brief = dry_run_for_viewer viewer config s;
  department_work_packages = packages_for_viewer viewer s;
}

unfoldable pub project :
    CivicKernelConfig → KernelState → String → Result KernelError CivicProjection
project config s role = do
  viewer ← or_fail (parse_viewer role) viewer_role_invalid
  ok (project_for config s viewer)
