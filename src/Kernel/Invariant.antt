-- ===== src/Kernel/Invariant.antt =====
-- The kernel's invariant. `Steps` proves that every accepted command keeps it.
pub mod Lemmas
pub mod Rounds
pub mod Steps
use stadtstack.Base.{
  ℕ, zero, suc, ◌+◌, ◌*◌, ◌≤◌, String, Bool, true, false, not, Option, none, some, List, [], ◌∷◌,
  ◌++◌, map, ◌≡◌, ◌≢◌, refl, sym, ap, subst, ◌∙◌, arith, eq_iff, eq_refl, ◌==◌, length,
  length-append, length-map, any, take, take-append, take-length, concat_map, contains, IsDistinct,
  All, All-append, IsIn, find, lookup, insert, lookup-insert, Entries, insert-Entries, Entries-map,
  Entries-lookup, count_values, count_values-insert_new, count_values-insert_old, if◌then◌else◌,
  Bool-cases, Option-cases, inl, inr, Result, ok, is_some,
}
use stadtstack.Kernel.Types.{
  department_agent, publisher, CivicActor, CivicKernelConfig, draft,
  submitted_for_administration_review, Suggestion, CivicDiscussion, DepartmentResponse,
  ResponseStatus, reviewed, pending_review, DepartmentWorkPackage, CivicCommand,
}
use stadtstack.Kernel.State.{PublishedBrief, KernelState, initial_state, update_first}
use stadtstack.Kernel.Packages.{
  has_id, package_id, is_submitted, new_package, submitted_state, responded_state, reviewed_state,
  published_state, mark_reviewed, is_reviewed, is_reviewed_status, response_citations,
}
use stadtstack.Kernel.Dispatch.{dispatch}
use stadtstack.Kernel.Changes.{
  Change, unchanged, discussion_added, suggestion_added, suggestion_submitted, response_recorded,
  response_reviewed, brief_published, result_recorded, dispatch-Change,
}

-- How many suggestions have been submitted to the administration.
abbrev pub submitted_count : List (String × Suggestion) → ℕ
submitted_count m = count_values (λ x. is_submitted x.status) m

-- The author on record is a registered agent of a department.
abbrev pub HasAuthor : CivicKernelConfig → List (String × String) → String → Type 0
HasAuthor config authors id =
    (a : CivicActor) × IsIn a config.actors
    × (a.role ≡ department_agent)
    × (lookup id authors ≡ some a.id)

-- A response that is given has an author.
abbrev pub AuthoredIfGiven :
    CivicKernelConfig → List (String × String) → String → Option DepartmentResponse → Type 0
AuthoredIfGiven config authors id none = Unit
AuthoredIfGiven config authors id (some r) = HasAuthor config authors id

abbrev pub IsAuthored : CivicKernelConfig → List (String × String) → DepartmentWorkPackage → Type 0
IsAuthored config authors p = AuthoredIfGiven config authors p.id p.response

abbrev pub unreviewed : DepartmentWorkPackage → Bool
unreviewed p = not (is_reviewed p)

-- A published brief rests on the first round of packages: there is one for each department, each
-- reviewed, and their citations are the brief's.
pub record IsBacked (config : CivicKernelConfig) (ps : List DepartmentWorkPackage)
    (b : PublishedBrief) : Type 0 where
  pub complete : length config.departments ≤ length ps
  pub all_reviewed : any unreviewed (take (length config.departments) ps) ≡ false
  pub cited : b.citations ≡ concat_map response_citations (take (length config.departments) ps)

abbrev pub IsBackedIfGiven :
    CivicKernelConfig → List DepartmentWorkPackage → Option PublishedBrief → Type 0
IsBackedIfGiven config ps none = Unit
IsBackedIfGiven config ps (some b) = IsBacked config ps b

-- The suggestion and the department that a package is for, with its id.
abbrev pub subject : DepartmentWorkPackage → String × String × String
subject p = (p.id, p.suggestion_id, p.department_id)

abbrev pub subjects_of : List String → String → List (String × String × String)
subjects_of departments id = map (λ d. (package_id id d, id, d)) departments

abbrev pub submitted_at : Option Suggestion → Bool
submitted_at none = false
submitted_at (some x) = is_submitted x.status

-- The packages are those of the rounds, in order: one for each department of the configuration, for
-- each of the submitted suggestions, which are all different.
pub record IsAssigned (config : CivicKernelConfig) (suggestions : List (String × Suggestion))
    (ps : List DepartmentWorkPackage) : Type 0 where
  pub submissions : List String
  pub distinct : IsDistinct submissions
  pub all_submitted : (id : String) → contains id submissions ≡ submitted_at (lookup id suggestions)
  pub assigned : map subject ps ≡ concat_map (subjects_of config.departments) submissions

pub record Inv (config : CivicKernelConfig) (s : KernelState) : Type 0 where
  pub discussed : Entries (λ k x. lookup x.discussion_id s.discussions ≢ none) s.suggestions
  pub counted :
      length s.department_work_packages ≡ length config.departments * submitted_count s.suggestions
  pub named : Entries (λ k x. x.id ≡ k) s.suggestions
  pub rounds : IsAssigned config s.suggestions s.department_work_packages
  pub authored : All (IsAuthored config s.response_authors) s.department_work_packages
  pub backed : IsBackedIfGiven config s.department_work_packages s.reviewed_citizen_brief

pub initial_state-Inv : (config : CivicKernelConfig) → Inv config initial_state
unfolding initial_state lookup
initial_state-Inv config = record {
  discussed = tt;
  counted = omega arith;
  named = tt;
  rounds = record { submissions = []; distinct = tt; all_submitted = λ id. refl; assigned = refl };
  authored = tt;
  backed = tt;
}
