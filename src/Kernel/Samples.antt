-- ===== src/Kernel/Samples.antt =====
-- A configuration and inputs that the tests and the witnesses share.
use stadtstack.Base.{ℕ, String, Option, none, some, [], ◌∷◌}
use stadtstack.Kernel.State.{KernelState}
use stadtstack.Kernel.Config.{ConfigInput}
use stadtstack.Value.{
  nat, name, Value, undefined, null, num, str, arr, obj, nil, cons, Fields, end, field,
}
use stadtstack.Kernel.Types.{
  citizen, case_steward, department_agent, department_reviewer, participation_reviewer, publisher,
  CivicKernelConfig, DiscussionInput, draft, submitted_for_administration_review, SuggestionStatus,
  Suggestion, CivicDiscussion, pending_review, reviewed, ResponseStatus, DepartmentResponse,
  DepartmentWorkPackage, ParticipationResult, no_authority,
}

abbrev pub plain_envelope : String → String → Value
plain_envelope id role = obj (field (name "id") (str id) (field (name "role") (str role) end))

abbrev pub department_envelope : String → String → String → Value
department_envelope id role department = obj (
    field (name "id") (str id)
      (field (name "role") (str role) (field (name "departmentId") (str department) end)))

abbrev pub sample_config : CivicKernelConfig
sample_config = record {
  municipality_id = "sample-municipality";
  case_id = "sample-case";
  departments = "mobility" ∷ [];
  actors =
      record { id = "citizen-1"; role = citizen; department_id = none }
      ∷ record { id = "steward-1"; role = case_steward; department_id = none }
      ∷ record { id = "agent-1"; role = department_agent; department_id = some "mobility" }
      ∷ record { id = "reviewer-1"; role = department_reviewer; department_id = some "mobility" }
      ∷ record { id = "participation-1"; role = participation_reviewer; department_id = none }
      ∷ record { id = "publisher-1"; role = publisher; department_id = none }
      ∷ [];
}

abbrev pub citizen_envelope : Value
citizen_envelope = plain_envelope "citizen-1" "citizen"

abbrev pub steward_envelope : Value
steward_envelope = plain_envelope "steward-1" "case_steward"

abbrev pub agent_envelope : Value
agent_envelope = department_envelope "agent-1" "department_agent" "mobility"

abbrev pub reviewer_envelope : Value
reviewer_envelope = department_envelope "reviewer-1" "department_reviewer" "mobility"

abbrev pub publisher_envelope : Value
publisher_envelope = plain_envelope "publisher-1" "publisher"

abbrev pub participation_envelope : Value
participation_envelope = plain_envelope "participation-1" "participation_reviewer"

abbrev pub sample_discussion : DiscussionInput
sample_discussion = record {
  id = "d1";
  content = "A bench at the lake";
  transport = "synthetic_nostr_fixture";
  signature = "sig";
  provenance = undefined;
}

abbrev pub option_input : String → ℕ → Value
option_input id n = obj (
    field (name "optionId") (str id)
      (field (name "label") (str "Bench") (field (name "aggregateCount") (num (nat n)) end)))

abbrev pub audit_input : Value
audit_input = obj (
    field (name "totalInvited") null (
      field (name "totalStarted") (num (nat 9))
        (field (name "totalCompleted") (num (nat 8)) (field (name "limitations") (arr nil) end))))

-- A participation result, with what stands behind its checksum.
abbrev pub result_with : Fields → Value
result_with rest = obj (
    field (name "schemaVersion") (str "participation_result_v1") (
      field (name "id") (str "r1") (
        field (name "contractId") (str "c1") (
          field (name "authorityBinding") (str "none") (
            field (name "options") (arr (cons (option_input "a" 3) (cons (option_input "b" 4) nil)))
              (field (name "totalAccepted") (num (nat 7)) (
                field (name "unresolvedDissent") (arr nil) (
                  field (name "representationAudit") audit_input (
                    field (name "limitations") (arr nil) (
                      field (name "openedAt") (str "1") (
                        field (name "closedAt") (str "2") (
                          field (name "reviewedAt") (str "3") (
                            field (name "resultArtifactRef") (str "ref")
                              (field (name "checksum") (str "sha256:synthetic-1") rest))))))))))))))

abbrev pub result_input : Value
result_input = result_with end

abbrev pub retracted_input : Value
retracted_input = result_with (field (name "correctionState") (str "retracted") end)

-- A stand-in for `Date.parse`: a time for every text.
abbrev pub sample_clock : String → Option ℕ
sample_clock s = some 5

-- States of the sample case, one after another.
abbrev pub bench : SuggestionStatus → Suggestion
bench status = record { id = "s1"; discussion_id = "d1"; title = "Bench"; status = status }

abbrev pub lake_path : SuggestionStatus → Suggestion
lake_path status = record { id = "s2"; discussion_id = "d1"; title = "Path"; status = status }

abbrev pub stored_discussion : CivicDiscussion
stored_discussion = record {
  id = "d1";
  content = "A bench at the lake";
  transport = "synthetic_nostr_fixture";
  signature = "sig";
  provenance = none;
}

abbrev pub discussed : KernelState
discussed = record {
  discussions = ("d1", stored_discussion) ∷ [];
  suggestions = [];
  department_work_packages = [];
  response_authors = [];
  reviewed_citizen_brief = none;
  participation_result = none;
}

abbrev pub drafted : KernelState
drafted = record discussed { suggestions = ("s1", bench draft) ∷ [] }

abbrev pub package_with : Option DepartmentResponse → DepartmentWorkPackage
package_with r = record {
  id = "s1:mobility";
  department_id = "mobility";
  suggestion_id = "s1";
  response = r;
}

abbrev pub submitted : KernelState
submitted = record discussed {
  suggestions = ("s1", bench submitted_for_administration_review) ∷ [];
  department_work_packages = package_with none ∷ [];
}

abbrev pub response_with : ResponseStatus → DepartmentResponse
response_with status = record { summary = "fine"; citations = "law" ∷ []; status = status }

abbrev pub responded : KernelState
responded = record submitted {
  department_work_packages = package_with (some (response_with pending_review)) ∷ [];
  response_authors = ("s1:mobility", "agent-1") ∷ [];
}

abbrev pub assessed : KernelState
assessed = record responded {
  department_work_packages = package_with (some (response_with reviewed)) ∷ [];
}

abbrev pub published : KernelState
published = record assessed {
  reviewed_citizen_brief =
      some (record { summary = "brief"; citations = "law" ∷ []; published_by = "publisher-1" });
}

-- A second suggestion, drafted and submitted after the brief of the first.
abbrev pub redrafted : KernelState
redrafted = record published {
  suggestions = ("s1", bench submitted_for_administration_review) ∷ ("s2", lake_path draft) ∷ [];
}

abbrev pub resubmitted : KernelState
resubmitted = record published {
  suggestions =
      ("s1", bench submitted_for_administration_review)
      ∷ ("s2", lake_path submitted_for_administration_review)
      ∷ [];
  department_work_packages =
      package_with (some (response_with reviewed))
      ∷ record {
        id = "s2:mobility";
        department_id = "mobility";
        suggestion_id = "s2";
        response = none;
      }
      ∷ [];
}

-- What `result_input` is stored as, with a correction state of choice.
abbrev pub accepted_result : Value → ParticipationResult
accepted_result correction = record {
  schema_version = "participation_result_v1";
  id = "r1";
  contract_id = "c1";
  contract_version = undefined;
  method_kind = undefined;
  method_version = undefined;
  rule_id = undefined;
  rule_version = undefined;
  authority_binding = no_authority;
  question = undefined;
  options =
      record { option_id = "a"; label = "Bench"; aggregate_count = 3 }
      ∷ record { option_id = "b"; label = "Bench"; aggregate_count = 4 }
      ∷ [];
  total_accepted = 7;
  result_summary = undefined;
  unresolved_dissent = [];
  representation_audit = record {
    target_population_description = undefined;
    recruitment_method = undefined;
    sampling_method = undefined;
    total_invited = none;
    total_started = 9;
    total_completed = 8;
    limitations = [];
  };
  limitations = [];
  opened_at = "1";
  closed_at = "2";
  reviewed_at = "3";
  result_artifact_ref = "ref";
  minority_report_ref = undefined;
  correction_state = correction;
  checksum = "sha256:synthetic-1";
}

-- The configuration as the caller gives it, with blanks around the ids.
abbrev pub config_input : ConfigInput
config_input = record {
  municipality_id = str " sample-municipality";
  case_id = str "sample-case ";
  departments = some (str " mobility " ∷ []);
  actors = arr (
      cons citizen_envelope (
        cons steward_envelope (
          cons agent_envelope
            (cons reviewer_envelope (cons participation_envelope (cons publisher_envelope nil))))));
}
