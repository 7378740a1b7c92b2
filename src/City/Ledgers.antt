-- ===== src/City/Ledgers.antt =====
-- The ledgers of the control plane agree with the kernel.
pub mod Updates
pub mod Reviews
pub mod Receipts
pub mod Handlers
pub mod Steps
pub mod Publications
pub mod Plane
use stadtstack.Base.{
  ◌≢◌, All, ℕ, String, Bool, true, false, not, ◌&&◌, ◌||◌, Option, none, some, List, [], ◌∷◌, ◌++◌,
  map, ◌≡◌, ◌≢◌, refl, sym, ap, subst, ◌∙◌, arith, ◌==◌, eq_iff, eq_refl, find, lookup, insert,
  Entries, Entries-map, insert-Entries, contains, if◌then◌else◌, Bool-cases, Option-cases,
  Result-cases, inl, inr, Result, ok,
}
use stadtstack.Value.{Value}
use stadtstack.Text.{trim}
use stadtstack.Kernel.Types.{
  CivicActor, CivicKernelConfig, DepartmentWorkPackage, DepartmentResponse, ParticipationResult,
  Suggestion, reviewed, pending_review,
}
use stadtstack.Kernel.Participation.{normalize_participation_result}
use stadtstack.Kernel.State.{PublishedBrief, KernelState, update_first}
use stadtstack.Kernel.Discussions.{dispatch_suggestion}
use stadtstack.Kernel.Packages.{
  has_id, is_submitted, new_package, set_response, mark_reviewed, submit, dispatch_submission,
  review, dispatch_review, dispatch_response, dispatch_brief,
}
use stadtstack.Kernel.Dispatch.{dispatch, dispatch_result, store_result}
use stadtstack.Kernel.Changes.{find-has_id}
use stadtstack.Kernel.Authority.{dispatch-IsHandled}
use stadtstack.City.Requests.{ResponseInput}
use stadtstack.City.Operations.{review_key}
use stadtstack.City.State.{ResponseEntry, BriefEntry, PlaneState}

-- The kernel's package has the response of the entry, whether reviewed or not.
pub record IsResponded (ps : List DepartmentWorkPackage) (id : String) (e : ResponseEntry)
    : Type 0 where
  pub work_package : DepartmentWorkPackage
  pub found : find (has_id id) ps ≡ some work_package
  pub given : DepartmentResponse
  pub responded : work_package.response ≡ some given
  pub summary : given.summary ≡ e.response.summary
  pub citations : given.citations ≡ e.response.citations

abbrev pub RespondedIfGiven : List DepartmentWorkPackage → String → Option ResponseEntry → Type 0
RespondedIfGiven ps id none = Unit
RespondedIfGiven ps id (some e) = IsResponded ps id e

-- A brief in the ledger is the kernel's brief, of the same publisher, whose id the kernel trims.
abbrev pub BriefAgrees : Option BriefEntry → Option PublishedBrief → Type 0
BriefAgrees none b = Unit
BriefAgrees (some e) none = ⊥
BriefAgrees (some e) (some b) = (b.summary ≡ e.summary) × (b.published_by ≡ trim e.publisher_id)

-- The result in the ledger is the one that the kernel has accepted.
abbrev pub ResultAgrees : (String → Option ℕ) → Option Value → Option ParticipationResult → Type 0
ResultAgrees clock none r = r ≡ none
ResultAgrees clock (some v) none = ⊥
ResultAgrees clock (some v) (some r) = normalize_participation_result clock v ≡ ok r

-- The kernel's package has a response.
pub record IsGiven (ps : List DepartmentWorkPackage) (id : String) : Type 0 where
  pub work_package : DepartmentWorkPackage
  pub found : find (has_id id) ps ≡ some work_package
  pub given : DepartmentResponse
  pub responded : work_package.response ≡ some given

-- The kernel's package has a response that has been reviewed.
pub record IsAssessed (ps : List DepartmentWorkPackage) (id : String) : Type 0 where
  pub given : IsGiven ps id
  pub assessed : given.given.status ≡ reviewed

-- A key in the ledger of reviews is that of a response in the ledger, which has been reviewed.
pub record IsReceipt (entries : List (String × ResponseEntry)) (ps : List DepartmentWorkPackage)
    (key : String) : Type 0 where
  pub id : String
  pub reviewer_id : String
  pub key_is : key ≡ review_key id reviewer_id
  pub entered : lookup id entries ≢ none
  pub assessed : IsAssessed ps id

pub record IsLedgered (clock : String → Option ℕ) (s : PlaneState) : Type 0 where
  pub brief : BriefAgrees s.published_brief s.kernel.reviewed_citizen_brief
  pub result : ResultAgrees clock s.participation s.kernel.participation_result
  pub responses :
      (id : String)
      → RespondedIfGiven s.kernel.department_work_packages id (lookup id s.response_inputs)
  pub entered :
      (id : String)
      → IsGiven s.kernel.department_work_packages id
      → lookup id s.response_inputs ≢ none
  pub reviews :
      All (IsReceipt s.response_inputs s.kernel.department_work_packages) s.response_reviews
