-- ===== src/Kernel/State.antt =====
-- The variables that `createCivicKernel` closes over, and the JSON texts that it compares.
use stadtstack.Base.{ℕ, String, Bool, Option, none, some, List, [], ◌∷◌, if◌then◌else◌, foldr, true}
use stadtstack.Value.{
  nat, name, Value, undefined, null, bool, num, str, arr, obj, nil, cons, end, field,
}
use stadtstack.Kernel.Types.{
  ParticipationOptionAggregate, RepresentationAudit, ParticipationResult,
  DiscussionVerificationProof, nostr_nip01, synthetic_fixture, DiscussionSource, from_nostr,
  from_fixture, DiscussionProvenance, CivicDiscussion, Suggestion, DepartmentWorkPackage,
}

-- `reviewedCitizenBrief` inside the kernel always has its publisher.
pub record PublishedBrief : Type 0 where
  pub summary : String
  pub citations : List String
  pub published_by : String

pub record KernelState : Type 0 where
  pub discussions : List (String × CivicDiscussion)
  pub suggestions : List (String × Suggestion)
  pub department_work_packages : List DepartmentWorkPackage
  pub response_authors : List (String × String)
  pub reviewed_citizen_brief : Option PublishedBrief
  pub participation_result : Option ParticipationResult

unfoldable pub initial_state : KernelState
initial_state = record {
  discussions = [];
  suggestions = [];
  department_work_packages = [];
  response_authors = [];
  reviewed_citizen_brief = none;
  participation_result = none;
}

-- `Array.prototype.find` and a write through the reference that it returns.
unfoldable pub update_first {ℓ} : {A : Type ℓ} → (A → Bool) → (A → A) → List A → List A
update_first p f [] = []
update_first p f (x ∷ xs) = if p x then f x ∷ xs else x ∷ update_first p f xs

abbrev object : List (String × Value) → Value
object ps = obj (foldr (λ p fs. field (name p.0) p.1 fs) end ps)

abbrev texts : List String → Value
texts ss = arr (foldr (λ s vs. cons (str s) vs) nil ss)

proof_value : DiscussionVerificationProof → Value
proof_value (nostr_nip01 s) =
    object (("kind", str "nostr_nip01") ∷ ("verified", bool true) ∷ ("signature", str s) ∷ [])
proof_value (synthetic_fixture s) =
    object
      (("kind", str "synthetic_fixture") ∷ ("deterministic", bool true) ∷ ("fixtureId", str s) ∷ [])

source_value : DiscussionSource → Value
source_value from_nostr = str "nostr"
source_value from_fixture = str "synthetic_fixture"

-- A stored provenance as the object that `JSON.stringify` is given.
unfoldable pub provenance_value : Option DiscussionProvenance → Value
unfolding proof_value source_value
provenance_value none = undefined
provenance_value (some p) = object (
    ("schemaVersion", str "discussion_artifact_v1")
    ∷ ("id", str p.id)
    ∷ ("artifactId", str p.id)
    ∷ ("source", source_value p.source)
    ∷ ("sourceRef", str p.source_ref)
    ∷ (
      "scope",
      object
          (("municipalityId", str p.scope.municipality_id) ∷ ("caseId", str p.scope.case_id) ∷ []),
    )
    ∷ ("authorityBinding", str "none")
    ∷ ("verificationProof", proof_value p.verification_proof)
    ∷ ("event", object (("id", str p.event_id) ∷ ("pubkey", str p.event_pubkey) ∷ []))
    ∷ [])

option_value : ParticipationOptionAggregate → Value
option_value o = object (
    ("optionId", str o.option_id)
    ∷ ("label", str o.label)
    ∷ ("aggregateCount", num (nat o.aggregate_count))
    ∷ [])

invited_value : Option ℕ → Value
invited_value none = null
invited_value (some n) = num (nat n)

audit_value : RepresentationAudit → Value
unfolding invited_value
audit_value a = object (
    ("targetPopulationDescription", a.target_population_description)
    ∷ ("recruitmentMethod", a.recruitment_method)
    ∷ ("samplingMethod", a.sampling_method)
    ∷ ("totalInvited", invited_value a.total_invited)
    ∷ ("totalStarted", num (nat a.total_started))
    ∷ ("totalCompleted", num (nat a.total_completed))
    ∷ ("limitations", texts a.limitations)
    ∷ [])

unfoldable pub participation_value : ParticipationResult → Value
unfolding option_value audit_value
participation_value r = object (
    ("schemaVersion", str r.schema_version)
    ∷ ("id", str r.id)
    ∷ ("contractId", str r.contract_id)
    ∷ ("contractVersion", r.contract_version)
    ∷ ("methodKind", r.method_kind)
    ∷ ("methodVersion", r.method_version)
    ∷ ("ruleId", r.rule_id)
    ∷ ("ruleVersion", r.rule_version)
    ∷ ("authorityBinding", str "none")
    ∷ ("question", r.question)
    ∷ ("options", arr (foldr (λ o vs. cons (option_value o) vs) nil r.options))
    ∷ ("totalAccepted", num (nat r.total_accepted))
    ∷ ("resultSummary", r.result_summary)
    ∷ ("unresolvedDissent", texts r.unresolved_dissent)
    ∷ ("representationAudit", audit_value r.representation_audit)
    ∷ ("limitations", texts r.limitations)
    ∷ ("openedAt", str r.opened_at)
    ∷ ("closedAt", str r.closed_at)
    ∷ ("reviewedAt", str r.reviewed_at)
    ∷ ("resultArtifactRef", str r.result_artifact_ref)
    ∷ ("minorityReportRef", r.minority_report_ref)
    ∷ ("correctionState", r.correction_state)
    ∷ ("checksum", str r.checksum)
    ∷ [])
