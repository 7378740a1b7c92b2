-- ===== src/City/Ingestion.antt =====
-- `ingestDiscussion`. Its two dependencies are parameters: what the relay answers comes with the
-- request, and the discussion adapter is a function. The request is checked before the relay is
-- asked; what follows its answer runs on the state of that moment.
use stadtstack.Base.{
  ℕ, String, Bool, true, false, Option, none, some, List, [], ◌∷◌, ◌==◌, contains, Result, ok, err,
  ◌>>=◌, ◌>>◌, guard, or_fail, traverse,
}
use stadtstack.Value.{Value, undefined, null, str, arr, obj, Fields, get, items, as_record}
use stadtstack.Kernel.Types.{citizen, CivicKernelConfig, record_discussion}
use stadtstack.City.Types.{
  civic, ActorRecord, CityConfig, CityError, nostr_relay_event_invalid,
  nostr_relay_signer_not_allowed, discussion_id_invalid, discussion_id_mismatch,
  discussion_relay_invalid, nostr_relay_query_event_id_required, nostr_relay_event_id_mismatch,
}
use stadtstack.City.Requests.{
  required_string, read_request, assert_request_keys, assert_profile_caller,
}
use stadtstack.City.Config.{role_actor}
use stadtstack.City.State.{PlaneState, Outcome, checked, dispatched}

-- What is used of a `NostrRelayPublishAndQueryReceipt`.
pub record RelayReceipt : Type 0 where
  pub event : Fields
  pub events : List Fields

-- What is used of a `DiscussionArtifact`; the signature is that of a `nostr_nip01` proof.
pub record Artifact : Type 0 where
  pub id : String
  pub content : String
  pub signature : Option String
  pub document : Value

-- `field(request, "event") ?? request`
event_or_request : Value → Fields → Value
event_or_request undefined request = obj request
event_or_request null request = obj request
event_or_request v request = v

is_allowed_signer : CityConfig → Value → Bool
is_allowed_signer city (str pubkey) = contains pubkey city.allowed_signer_pubkeys
is_allowed_signer city _ = false

requested_id : Value → Result CityError (Option String)
requested_id undefined = ok none
requested_id v = required_string v discussion_id_invalid >>= λ id. ok (some id)

-- `===` of a value with a text
abbrev is_same_text : Value → Value → Bool
is_same_text (str a) (str b) = a == b
is_same_text _ _ = false

fits_id : Option String → Value → Bool
fits_id none id = true
fits_id (some requested) id = is_same_text (str requested) id

relay_ref : Value → Result CityError String
relay_ref (str s) = ok s
relay_ref _ = err discussion_relay_invalid

relay_refs : Value → Result CityError (Option (List String))
unfolding relay_ref
relay_refs undefined = ok none
relay_refs (arr vs) = traverse relay_ref (items vs) >>= λ refs. ok (some refs)
relay_refs _ = err discussion_relay_invalid

-- `events.length === 1 && events[0].id === event.id`
is_sole_event : Value → List Fields → Bool
is_sole_event id (found ∷ []) = is_same_text (get "id" found) id
is_sole_event id _ = false

-- The caller, the event and the relay references.
unfoldable pub ingestion_request :
    CityConfig → Value → Result CityError (ActorRecord × Fields × Option (List String))
unfolding event_or_request is_allowed_signer requested_id fits_id relay_refs
ingestion_request city raw = do
  request ← read_request raw
  assert_request_keys request ("callerId" ∷ "event" ∷ "relayRefs" ∷ "discussionId" ∷ [])
  actor ← assert_profile_caller city request (civic citizen ∷ [])
  event ←
      or_fail (as_record (event_or_request (get "event" request) request)) nostr_relay_event_invalid
  guard (is_allowed_signer city (get "pubkey" event)) nostr_relay_signer_not_allowed
  requested ← requested_id (get "discussionId" request)
  guard (fits_id requested (get "id" event)) discussion_id_mismatch
  refs ← relay_refs (get "relayRefs" request)
  _ ← required_string (get "id" event) nostr_relay_query_event_id_required
  ok (actor, event, refs)

abbrev signature_of : Artifact → String
signature_of a = elim a.signature [ none ↦ "" | some s ↦ s ]

module _ (adapter : Fields → Option (List String) → Result CityError Artifact)
    (clock : String → Option ℕ) (city : CityConfig) (config : CivicKernelConfig) where
  unfoldable pub received :
      Fields → Option (List String) → Result CityError RelayReceipt → Result CityError Artifact
  unfolding is_sole_event
  received event refs answer = do
    receipt ← answer
    guard (is_sole_event (get "id" event) receipt.events) nostr_relay_event_id_mismatch
    adapter receipt.event refs

  unfoldable pub pass_discussion : PlaneState → ActorRecord → Artifact → Outcome Artifact
  pass_discussion s actor artifact =
      dispatched clock config s
        (record_discussion (role_actor actor.id citizen none) (record {
          id = artifact.id;
          content = artifact.content;
          transport = "synthetic_nostr_fixture";
          signature = signature_of artifact;
          provenance = artifact.document;
        }))
        (λ t. record { state = t; answer = ok artifact })

  unfoldable pub ingest_discussion :
      PlaneState → Value → Result CityError RelayReceipt → Outcome Artifact
  unfolding received
  ingest_discussion s raw answer = checked s (ingestion_request city raw) (λ (actor, event, refs).
      checked s (received event refs answer) (λ artifact. pass_discussion s actor artifact))
