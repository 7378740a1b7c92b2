-- ===== src/City/Samples.antt =====
-- A city and requests that the tests and the witnesses share.
use stadtstack.Base.{String, Option, none, some, List, [], ◌∷◌, Result, ok}
use stadtstack.Value.{name, Value, undefined, str, arr, obj, nil, cons, Fields, end, field}
use stadtstack.Kernel.Types.{
  citizen, case_steward, department_agent, department_reviewer, participation_reviewer, publisher,
}
use stadtstack.Kernel.Samples.{plain_envelope, department_envelope}
use stadtstack.City.Types.{CityRole, civic, council_member, ActorRecord, CityConfig, CityError}
use stadtstack.City.Config.{CityConfigInput}
use stadtstack.City.Ingestion.{RelayReceipt, Artifact}

abbrev pub sample_signer : String
sample_signer = "00112233445566778899aabbccddeeff00112233445566778899aabbccddeeff"

abbrev pub entry : String → CityRole → Option String → String × ActorRecord
entry id role department = (id, record { id = id; role = role; department_id = department })

abbrev pub sample_city : CityConfig
sample_city = record {
  municipality_id = "sample-municipality";
  case_id = "sample-case";
  departments = "mobility" ∷ [];
  relay_url = "ws://127.0.0.1:7777";
  allowed_signer_pubkeys = sample_signer ∷ [];
  actors =
      entry "citizen-1" (civic citizen) none
      ∷ entry "steward-1" (civic case_steward) none
      ∷ entry "agent-1" (civic department_agent) (some "mobility")
      ∷ entry "reviewer-1" (civic department_reviewer) (some "mobility")
      ∷ entry "participation-1" (civic participation_reviewer) none
      ∷ entry "publisher-1" (civic publisher) none
      ∷ entry "council-1" council_member none
      ∷ [];
  department_agents = ("mobility", "agent-1") ∷ [];
  department_reviewers = ("mobility", "reviewer-1") ∷ [];
  companion_identities = "w-a" ∷ "w-c" ∷ "w-p" ∷ [];
}

abbrev pub sample_city_input : CityConfigInput
sample_city_input = record {
  municipality_id = str " sample-municipality";
  case_id = str "sample-case";
  departments = some (str "mobility " ∷ []);
  relay_url = str "ws://127.0.0.1:7777";
  allowed_signer_pubkeys = arr (cons (str sample_signer) nil);
  fixture_marker = arr (cons (str "t") (cons (str "stadtstack-e2e-fixture") nil));
  companion_identities = obj (
      field (name "administration") (str "w-a")
        (field (name "council") (str "w-c") (field (name "public") (str "w-p") end)));
  actors = arr (
      cons (plain_envelope "citizen-1" "citizen") (
        cons (plain_envelope "steward-1" "case_steward") (
          cons (department_envelope "agent-1" "department_agent" "mobility") (
            cons (department_envelope "reviewer-1" "department_reviewer" "mobility") (
              cons (plain_envelope "participation-1" "participation_reviewer") (
                cons (plain_envelope "publisher-1" "publisher")
                  (cons (plain_envelope "council-1" "council_member") nil)))))));
}

-- A stand-in for the relay's address rules, which admits every address as it is.
abbrev pub sample_address : String → Option String
sample_address url = some url

abbrev pub sample_event : Fields
sample_event = field (name "id") (str "d1") (field (name "pubkey") (str sample_signer) end)

-- A stand-in for the discussion adapter.
abbrev pub sample_adapter : Fields → Option (List String) → Result CityError Artifact
sample_adapter event refs = ok (record {
  id = "d1";
  content = "A bench at the lake";
  signature = some "sig";
  document = undefined;
})

abbrev pub sample_receipt : RelayReceipt
sample_receipt = record { event = sample_event; events = sample_event ∷ [] }

abbrev pub request_of : String → Fields → Value
request_of caller rest = obj (field (name "callerId") (str caller) rest)

abbrev pub ingestion_of_event : Value
ingestion_of_event = request_of "citizen-1" (field (name "event") (obj sample_event) end)

abbrev pub bench_request : Value
bench_request = request_of "citizen-1" (
    field (name "suggestion")
      (obj (
        field (name "id") (str "s1")
          (field (name "discussionId") (str "d1") (field (name "title") (str "Bench") end))))
      end)

abbrev pub submit_request : Value
submit_request = request_of "steward-1" (field (name "suggestionId") (str "s1") end)

abbrev pub reply_request : Value
reply_request = request_of "agent-1" (
    field (name "workPackageId") (str "s1:mobility") (
      field (name "response")
        (obj (
          field (name "summary") (str "fine")
            (field (name "citations") (arr (cons (str "law") nil)) end)))
        end))

abbrev pub assess_request : Value
assess_request = request_of "reviewer-1" (field (name "workPackageId") (str "s1:mobility") end)

abbrev pub brief_request : Value
brief_request = request_of "publisher-1" (field (name "summary") (str "brief") end)

abbrev pub tally_request : Value → Value
tally_request result = request_of "participation-1" (field (name "result") result end)

abbrev pub council_request : Value
council_request = request_of "council-1" (field (name "profile") (str "council") end)
