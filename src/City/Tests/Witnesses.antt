-- ===== src/City/Tests/Witnesses.antt =====
-- The theorems on the control plane at the sample city.
use stadtstack.Base.{none, some, List, [], ◌∷◌, All, ◌≡◌, refl, ok, err}
use stadtstack.Value.{str}
use stadtstack.Kernel.Types.{participation_reviewer}
use stadtstack.Kernel.Participation.{normalize_participation_result}
use stadtstack.Kernel.Project.{ViewerRole, council, project_for}
use stadtstack.Kernel.Samples.{
  sample_config, sample_clock, published, retracted_input, accepted_result,
}
use stadtstack.City.Types.{ActorRecord, civic, participation_result_missing}
use stadtstack.City.State.{PlaneState, initial_plane}
use stadtstack.City.Requests.{assert_profile_access}
use stadtstack.City.Publishing.{
  publish_reviewed_brief, record_reviewed_participation, participation_request, project_profile,
}
use stadtstack.City.Runs.{CityRequest, PlaneReach, start, after}
use stadtstack.City.Ledgers.{IsLedgered}
use stadtstack.City.Ledgers.Plane.{plane-IsLedgered}
use stadtstack.City.Answers.{retracted_result_fails}
use stadtstack.City.Access.{MaySee, project_profile-MaySee}
use stadtstack.City.Repeats.{publication_twice}
use stadtstack.City.Staffing.{IsStaffed, normalize_config-IsStaffed}
use stadtstack.City.Samples.{
  sample_city, sample_city_input, sample_address, sample_adapter, brief_request, tally_request,
  council_request,
}
use stadtstack.City.Tests.{perform_all, publication_flow, city_accepted}

flow_reached :
    (rs : List CityRequest) {s : PlaneState}
    → PlaneReach sample_adapter sample_clock sample_city sample_config s
    → PlaneReach sample_adapter sample_clock sample_city sample_config (perform_all s rs)
unfolding perform_all
flow_reached [] r = r
flow_reached (q ∷ rs) r = flow_reached rs (after r q)

abbrev after_brief : PlaneState
after_brief = perform_all initial_plane publication_flow

brief_reached : PlaneReach sample_adapter sample_clock sample_city sample_config after_brief
brief_reached = flow_reached publication_flow start

plane-IsLedgered_example : IsLedgered sample_clock after_brief
plane-IsLedgered_example =
    plane-IsLedgered sample_clock sample_city sample_config sample_adapter brief_reached

publication_twice_example :
    publish_reviewed_brief sample_clock sample_city sample_config
      (publish_reviewed_brief sample_clock sample_city sample_config after_brief
        brief_request).state
      brief_request
    ≡ publish_reviewed_brief sample_clock sample_city sample_config after_brief brief_request
unfolding perform_all
publication_twice_example =
    publication_twice sample_clock sample_city sample_config after_brief brief_request refl

abbrev tallier : ActorRecord
tallier = record {
  id = "participation-1";
  role = civic participation_reviewer;
  department_id = none;
}

tally_checked :
    participation_request sample_clock sample_city sample_config after_brief
      (tally_request retracted_input)
    ≡ ok (tallier, retracted_input)
unfolding perform_all
tally_checked = refl

retracted_accepted :
    normalize_participation_result sample_clock retracted_input
    ≡ ok (accepted_result (str "retracted"))
unfolding perform_all
retracted_accepted = refl

retracted_result_fails_example :
    ((record_reviewed_participation sample_clock sample_city sample_config after_brief
        (tally_request retracted_input)).answer
      ≡ err participation_result_missing)
    × ((record_reviewed_participation sample_clock sample_city sample_config after_brief
          (tally_request retracted_input)).state.kernel.participation_result
        ≡ some (accepted_result (str "retracted")))
    × ((record_reviewed_participation sample_clock sample_city sample_config after_brief
          (tally_request retracted_input)).state.participation
        ≡ some retracted_input)
unfolding perform_all
retracted_result_fails_example =
    retracted_result_fails sample_clock sample_city sample_config after_brief
      (record published { participation_result = some (accepted_result (str "retracted")) })
      (tally_request retracted_input) retracted_input tallier (accepted_result (str "retracted"))
      tally_checked refl refl refl retracted_accepted refl

council_shown :
    project_profile sample_clock sample_city sample_config after_brief council_request
    ≡ ok (project_for sample_config after_brief.kernel council)
unfolding perform_all project_profile assert_profile_access
council_shown = refl

project_profile-MaySee_example :
    (actor : ActorRecord) × (profile : ViewerRole) × MaySee sample_city council_request actor
      profile
    × (project_for sample_config after_brief.kernel council
        ≡ project_for sample_config after_brief.kernel profile)
project_profile-MaySee_example =
    project_profile-MaySee sample_clock sample_city sample_config after_brief council_request
      (project_for sample_config after_brief.kernel council) council_shown

normalize_config-IsStaffed_example : All (IsStaffed sample_city) ("mobility" ∷ [])
normalize_config-IsStaffed_example =
    normalize_config-IsStaffed sample_address sample_city_input sample_city city_accepted
