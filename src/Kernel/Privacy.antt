-- ===== src/Kernel/Privacy.antt =====
-- What a viewer's projection does not depend on.
use stadtstack.Base.{Option, none, some, ◌≡◌, arith, count_if}
use stadtstack.Kernel.Types.{CivicKernelConfig}
use stadtstack.Kernel.State.{PublishedBrief, KernelState}
use stadtstack.Kernel.Packages.{is_reviewed}
use stadtstack.Kernel.Project.{council, public, project_for}

-- Two briefs that the public cannot tell apart: only their publisher may differ.
abbrev pub SameBrief : Option PublishedBrief → Option PublishedBrief → Type 0
SameBrief none none = Unit
SameBrief (some b) (some c) = (b.summary ≡ c.summary) × (b.citations ≡ c.citations)
SameBrief _ _ = ⊥

-- Two states that agree on what everybody may see.
pub record SameForPublic (s t : KernelState) : Type 0 where
  pub discussions : s.discussions ≡ t.discussions
  pub suggestions : s.suggestions ≡ t.suggestions
  pub brief : SameBrief s.reviewed_citizen_brief t.reviewed_citizen_brief
  pub result : s.participation_result ≡ t.participation_result

-- The public projection is determined by discussions, suggestions, the brief without its publisher
-- and the participation result: work packages, response authors and the publisher's identity
-- have no influence on it.
pub project_for-public :
    (config : CivicKernelConfig) (s t : KernelState)
    → SameForPublic s t
    → project_for config s public ≡ project_for config t public
unfolding project_for
project_for-public config s t same = ground arith

-- The council sees, besides, how many responses have been reviewed, and nothing else of the packages.
pub project_for-council :
    (config : CivicKernelConfig) (s t : KernelState)
    → SameForPublic s t
    → count_if is_reviewed s.department_work_packages
      ≡ count_if is_reviewed t.department_work_packages
    → project_for config s council ≡ project_for config t council
unfolding project_for
project_for-council config s t same count = ground arith
