-- ===== src/Coordinator/Departments/Holding.antt =====
-- What the replay of a journal guarantees of a department: who drafted, who reviewed, and what.
use stadtstack.Base.{
  String, Bool, true, false, Option, none, some, is_some, lookup, ◌==◌, eq_iff, ok, guard, or_fail,
  ◌>>◌, ◌≡◌, sym, ap, ◌∙◌, >>=-eq-ok, or_fail-eq-ok, guard_then-eq-ok, Entries, insert-Entries,
  Entries-lookup,
}
use stadtstack.Value.{Value}
use stadtstack.Coordinator.Journal
use stadtstack.Coordinator.Departments.State
use stadtstack.Coordinator.Departments.Replay
use stadtstack.Coordinator.Receipts.{ok-injective}

module _ (checksum_of : Value → String) (o : State.CaseOptions) where
  -- A draft of the assigned agent, who is registered for the department, under its checksum.
  pub record IsDrafted (p : State.DepartmentPackage) (r : State.RecordedDraft) : Type 0 where
    pub agent : (r.actor_binding.actor_id == p.assigned_agent_actor_id) ≡ true
    pub scope :
        Replay.is_actor_of checksum_of o Journal.department_agent p.department_id r.actor_binding
        ≡ true
    pub hashed :
        Journal.sha256 checksum_of (State.draft_value r.draft) ≡ ok r.draft_artifact_checksum

  -- A review of that draft by the assigned reviewer, who is registered for the department and did
  -- not write the draft.
  pub record IsReviewed (p : State.DepartmentPackage) (r : State.RecordedDraft)
      (v : State.RecordedReview) : Type 0 where
    pub reviewer : (v.actor_binding.actor_id == p.assigned_reviewer_actor_id) ≡ true
    pub scope :
        Replay.is_actor_of checksum_of o Journal.department_reviewer p.department_id v.actor_binding
        ≡ true
    pub distinct : (v.actor_binding.actor_id == r.actor_binding.actor_id) ≡ false
    pub same_draft : (v.review.draft_artifact_checksum == r.draft_artifact_checksum) ≡ true
    pub attested :
        Journal.sha256 checksum_of
          (State.attestation_value v.review v.policy_version v.actor_binding)
        ≡ ok v.attestation_checksum

  abbrev pub DraftHolds : State.DepartmentPackage → Option State.RecordedDraft → Type 0
  DraftHolds p none = Unit
  DraftHolds p (some r) = IsDrafted p r

  abbrev pub ReviewHolds :
      State.DepartmentPackage → Option State.RecordedDraft → Option State.RecordedReview → Type 0
  ReviewHolds p draft none = Unit
  ReviewHolds p none (some v) = ⊥
  ReviewHolds p (some r) (some v) = IsReviewed p r v

  pub record IsSeparated (d : State.Department) : Type 0 where
    pub drafted : DraftHolds d.department_package d.draft
    pub reviewed : ReviewHolds d.department_package d.draft d.review
    pub packaged :
        Journal.sha256 checksum_of (State.package_value d.department_package)
        ≡ ok d.package_checksum

  abbrev pub AllSeparated : State.CaseState → Type 0
  AllSeparated c = Entries (λ key d. IsSeparated d) c.departments

  -- A department without a draft has no review.
  pub undrafted :
      (p : State.DepartmentPackage) (draft : Option State.RecordedDraft)
      (review : Option State.RecordedReview) (r : Option State.RecordedDraft)
      → ReviewHolds p draft review
      → is_some draft ≡ false
      → ReviewHolds p r review
  undrafted p none none r h e = tt
  undrafted p none (some v) r h e = absurd h
  undrafted p (some x) review r h e = cc

  pub set-AllSeparated :
      (c : State.CaseState) (key : String) (d : State.Department)
      → AllSeparated c
      → IsSeparated d
      → AllSeparated (Replay.set_department checksum_of o key d c)
  set-AllSeparated c key d h s = insert-Entries (λ key d. IsSeparated d) key d c.departments s h

  -- What the tests leave.
  pub record Checked (fits : Bool) (v : Value) (matches : String → Bool)
      (next result : State.CaseState) : Type 0 where
    pub sum : String
    pub fit : fits ≡ true
    pub is_sum : Journal.sha256 checksum_of v ≡ ok sum
    pub match : matches sum ≡ true
    pub results : next ≡ result

  pub checked-Checked :
      (fits : Bool) (v : Value) (matches : String → Bool) (next : State.CaseState)
      {result : State.CaseState}
      → Replay.checked checksum_of o fits v matches next ≡ ok result
      → Checked fits v matches next result
  unfolding Replay.checked
  checked-Checked fits v matches next h =
      let (s, h1, h2) = >>=-eq-ok (guard fits Replay.invalid >> Journal.sha256 checksum_of v) _ h in
      let (fit, is_sum) = guard_then-eq-ok fits _ _ h1 in
      let (match, results) = guard_then-eq-ok (matches s) _ _ h2 in
      record { sum = s; fit = fit; is_sum = is_sum; match = match; results = ok-injective results }

  pub found-IsSeparated :
      (c : State.CaseState) (key : String) {d : State.Department}
      → AllSeparated c
      → or_fail (lookup key c.departments) Replay.invalid ≡ ok d
      → IsSeparated d
  found-IsSeparated c key h found =
      Entries-lookup (λ key d. IsSeparated d) c.departments key h (or_fail-eq-ok _ _ found)

  pub same_sum :
      (v : Value) {sum x : String}
      → Journal.sha256 checksum_of v ≡ ok sum
      → (x == sum) ≡ true
      → Journal.sha256 checksum_of v ≡ ok x
  same_sum v {sum = sum} {x = x} h e = h ∙ ap ok (sym ((eq_iff x sum).0 e))
