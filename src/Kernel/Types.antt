-- ===== src/Kernel/Types.antt =====
-- The types of src/civic-kernel.ts. A field that no run-time check types stays a `Value`.
use stadtstack.Base.{ℕ, String, Option, List}
use stadtstack.Value.{Value}

-- `"none"`, the only authority that the contracts admit.
pub data AuthorityBinding : Type 0 where
  no_authority : AuthorityBinding

pub data Role : Type 0 where
  citizen case_steward department_agent department_reviewer participation_reviewer publisher : Role

pub record CivicActor : Type 0 where
  pub id : String
  pub role : Role
  pub department_id : Option String

pub record CivicKernelConfig : Type 0 where
  pub municipality_id : String
  pub case_id : String
  pub departments : List String
  pub actors : List CivicActor

pub record ParticipationOptionAggregate : Type 0 where
  pub option_id : String
  pub label : String
  pub aggregate_count : ℕ

pub record RepresentationAudit : Type 0 where
  pub target_population_description : Value
  pub recruitment_method : Value
  pub sampling_method : Value
  pub total_invited : Option ℕ
  pub total_started : ℕ
  pub total_completed : ℕ
  pub limitations : List String

pub record ParticipationResult : Type 0 where
  pub schema_version : String
  pub id : String
  pub contract_id : String
  pub contract_version : Value
  pub method_kind : Value
  pub method_version : Value
  pub rule_id : Value
  pub rule_version : Value
  pub authority_binding : AuthorityBinding
  pub question : Value
  pub options : List ParticipationOptionAggregate
  pub total_accepted : ℕ
  pub result_summary : Value
  pub unresolved_dissent : List String
  pub representation_audit : RepresentationAudit
  pub limitations : List String
  pub opened_at : String
  pub closed_at : String
  pub reviewed_at : String
  pub result_artifact_ref : String
  pub minority_report_ref : Value
  pub correction_state : Value
  pub checksum : String

-- `formalDecision: null` and the three `false` fields are constants of the type.
pub data DryRunState : Type 0 where
  dry_run_not_submitted : DryRunState

pub record CouncilDryRunBrief : Type 0 where
  pub schema_version : String
  pub municipality_id : String
  pub case_id : String
  pub authority_binding : AuthorityBinding
  pub state : DryRunState
  pub summary : String
  pub citizen_signal : Option ParticipationResult
  pub reviewed_department_response_count : ℕ

pub data SuggestionStatus : Type 0 where
  draft submitted_for_administration_review : SuggestionStatus

pub record Suggestion : Type 0 where
  pub id : String
  pub discussion_id : String
  pub title : String
  pub status : SuggestionStatus

pub data DiscussionVerificationProof : Type 0 where
  nostr_nip01 : String → DiscussionVerificationProof
  synthetic_fixture : String → DiscussionVerificationProof

pub data DiscussionSource : Type 0 where
  from_nostr from_fixture : DiscussionSource

pub record DiscussionScope : Type 0 where
  pub municipality_id : String
  pub case_id : String

-- Provenance as the kernel stores it: `artifactId` is `id`.
pub record DiscussionProvenance : Type 0 where
  pub id : String
  pub source : DiscussionSource
  pub source_ref : String
  pub scope : DiscussionScope
  pub authority_binding : AuthorityBinding
  pub verification_proof : DiscussionVerificationProof
  pub event_id : String
  pub event_pubkey : String

pub record CivicDiscussion : Type 0 where
  pub id : String
  pub content : String
  pub transport : String
  pub signature : String
  pub provenance : Option DiscussionProvenance

pub data ResponseStatus : Type 0 where
  pending_review reviewed : ResponseStatus

pub record DepartmentResponse : Type 0 where
  pub summary : String
  pub citations : List String
  pub status : ResponseStatus

-- `status: "awaiting_review"` is a constant of the type.
pub record DepartmentWorkPackage : Type 0 where
  pub id : String
  pub department_id : String
  pub suggestion_id : String
  pub response : Option DepartmentResponse

pub record ReviewedCitizenBrief : Type 0 where
  pub summary : String
  pub citations : List String
  pub published_by : Option String

pub record CivicProjection : Type 0 where
  pub municipality_id : String
  pub case_id : String
  pub authority_binding : AuthorityBinding
  pub discussions : List CivicDiscussion
  pub suggestions : List Suggestion
  pub reviewed_citizen_brief : Option ReviewedCitizenBrief
  pub participation_result : Option ParticipationResult
  pub council_dry_run_brief : Option CouncilDryRunBrief
  pub department_work_packages : Option (List DepartmentWorkPackage)

-- The command's payloads. A payload that the kernel normalises itself is a `Value`.
pub record DiscussionInput : Type 0 where
  pub id : String
  pub content : String
  pub transport : String
  pub signature : String
  pub provenance : Value

pub data CivicCommand : Type 0 where
  record_discussion : Value → DiscussionInput → CivicCommand
  craft_suggestion : Value → String → String → String → CivicCommand
  submit_suggestion_for_administration : Value → String → CivicCommand
  record_department_response : Value → String → String → List String → CivicCommand
  review_department_response : Value → String → CivicCommand
  publish_reviewed_citizen_brief : Value → String → CivicCommand
  record_participation_result : Value → Value → CivicCommand
  record_reviewed_participation_result : Value → Value → CivicCommand
