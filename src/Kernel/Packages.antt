-- ===== src/Kernel/Packages.antt =====
-- `dispatch` on department work packages: submission, response, review and publication.
use Prim.Native.String
use stadtstack.Base.{
  String, Bool, true, false, not, ◌&&◌, none, some, List, [], ◌++◌, map, if◌then◌else◌, ◌==◌,
  length, any, find, concat_map, eqb, lookup, insert, Result, ok, ◌>>=◌, ◌>>◌, guard, or_fail,
  is_empty, is_some,
}
use stadtstack.Kernel.Types.{
  case_steward, department_agent, department_reviewer, publisher, CivicActor, CivicKernelConfig,
  draft, submitted_for_administration_review, SuggestionStatus, Suggestion, pending_review,
  reviewed, ResponseStatus, DepartmentWorkPackage,
}
use stadtstack.Kernel.Errors.{
  KernelError, case_steward_required, department_agent_required, department_reviewer_required,
  publisher_required, suggestion_not_found, department_work_package_not_found,
  department_actor_scope_mismatch, department_response_citation_required,
  department_reviewer_scope_mismatch, department_response_not_found,
  department_response_author_required, department_reviewer_independence,
  all_department_responses_must_be_reviewed,
}
use stadtstack.Kernel.Actors.{role_eq, optional_eq}
use stadtstack.Kernel.State.{KernelState, update_first}

abbrev pub is_submitted : SuggestionStatus → Bool
is_submitted draft = false
is_submitted submitted_for_administration_review = true

-- `${suggestion.id}:${departmentId}`
abbrev pub package_id : String → String → String
package_id suggestion department = String.◌++◌ suggestion (String.◌++◌ ":" department)

abbrev pub new_package : String → String → DepartmentWorkPackage
new_package suggestion department = record {
  id = package_id suggestion department;
  department_id = department;
  suggestion_id = suggestion;
  response = none;
}

abbrev pub submitted_state : CivicKernelConfig → KernelState → String → Suggestion → KernelState
submitted_state config s key suggestion = record s {
  suggestions =
      insert key (record suggestion { status = submitted_for_administration_review }) s.suggestions;
  department_work_packages =
      s.department_work_packages ++ map (new_package suggestion.id) config.departments;
}

unfoldable pub submit :
    CivicKernelConfig → KernelState → String → Suggestion → Result KernelError KernelState
submit config s key suggestion =
    if is_submitted suggestion.status then ok s else ok (submitted_state config s key suggestion)

unfoldable pub dispatch_submission :
    CivicKernelConfig → KernelState → CivicActor → String → Result KernelError KernelState
dispatch_submission config s actor id = do
  guard (role_eq actor.role case_steward) case_steward_required
  suggestion ← or_fail (lookup id s.suggestions) suggestion_not_found
  submit config s id suggestion

abbrev pub has_id : String → DepartmentWorkPackage → Bool
has_id id p = p.id == id

-- `workPackage.response = { summary, citations: [...], status: "pending_review" }`
abbrev pub set_response : String → List String → DepartmentWorkPackage → DepartmentWorkPackage
set_response summary citations p = record p {
  response = some (record { summary = summary; citations = citations; status = pending_review });
}

-- The brief is cleared, since its reviewed input has changed.
abbrev pub responded_state :
    KernelState → DepartmentWorkPackage → String → String → List String → KernelState
responded_state s work_package author summary citations = record s {
  reviewed_citizen_brief = none;
  department_work_packages =
      update_first (has_id work_package.id) (set_response summary citations)
        s.department_work_packages;
  response_authors = insert work_package.id author s.response_authors;
}

unfoldable pub dispatch_response :
    KernelState → CivicActor → String → String → List String → Result KernelError KernelState
dispatch_response s actor id summary citations = do
  guard (role_eq actor.role department_agent) department_agent_required
  work_package ←
      or_fail (find (has_id id) s.department_work_packages) department_work_package_not_found
  guard (optional_eq actor.department_id (some work_package.department_id))
      department_actor_scope_mismatch
  guard (not (is_empty citations)) department_response_citation_required
  ok (responded_state s work_package actor.id summary citations)

-- `workPackage.response.status = "reviewed"`
abbrev pub mark_reviewed : DepartmentWorkPackage → DepartmentWorkPackage
mark_reviewed p = record p {
  response = elim p.response [ none ↦ none | some r ↦ some (record r { status = reviewed }) ];
}

abbrev pub reviewed_state : KernelState → DepartmentWorkPackage → KernelState
reviewed_state s work_package = record s {
  department_work_packages =
      update_first (has_id work_package.id) mark_reviewed s.department_work_packages;
}

-- The guards on the package itself.
unfoldable pub review :
    KernelState → CivicActor → DepartmentWorkPackage → Result KernelError KernelState
review s actor work_package = do
  guard (optional_eq actor.department_id (some work_package.department_id))
      department_reviewer_scope_mismatch
  guard (is_some work_package.response) department_response_not_found
  author ← or_fail (lookup work_package.id s.response_authors) department_response_author_required
  guard (not (author == "")) department_response_author_required
  guard (not (author == actor.id)) department_reviewer_independence
  ok (reviewed_state s work_package)

unfoldable pub dispatch_review : KernelState → CivicActor → String → Result KernelError KernelState
dispatch_review s actor id = do
  guard (role_eq actor.role department_reviewer) department_reviewer_required
  work_package ←
      or_fail (find (has_id id) s.department_work_packages) department_work_package_not_found
  review s actor work_package

abbrev pub is_reviewed_status : ResponseStatus → Bool
is_reviewed_status pending_review = false
is_reviewed_status reviewed = true

-- `item.response?.status === "reviewed"`
abbrev pub is_reviewed : DepartmentWorkPackage → Bool
is_reviewed p = elim p.response [ none ↦ false | some r ↦ is_reviewed_status r.status ]

-- `item.response?.citations ?? []`
abbrev pub response_citations : DepartmentWorkPackage → List String
response_citations p = elim p.response [ none ↦ [] | some r ↦ r.citations ]

abbrev pub published_state : KernelState → String → String → KernelState
published_state s publisher_id summary = record s {
  reviewed_citizen_brief = some (record {
    summary = summary;
    citations = concat_map response_citations s.department_work_packages;
    published_by = publisher_id;
  });
}

unfoldable pub dispatch_brief :
    CivicKernelConfig → KernelState → CivicActor → String → Result KernelError KernelState
dispatch_brief config s actor summary = do
  guard (role_eq actor.role publisher) publisher_required
  guard
      (eqb (length s.department_work_packages) (length config.departments)
        && not (any (λ p. not (is_reviewed p)) s.department_work_packages))
      all_department_responses_must_be_reviewed
  ok (published_state s actor.id summary)
