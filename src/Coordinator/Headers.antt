-- ===== src/Coordinator/Headers.antt =====
-- What the checksum of an event covers: equal canonical headers are headers of the same event.
use stadtstack.Base.{String, Option, some, [], ◌∷◌, ◌≡◌, refl, sym, ap, arith, ◌∙◌, ◌==◌, find}
use stadtstack.Coordinator.Canonical.{canonicalize, canonical_fields}
use stadtstack.Coordinator.Journal

-- The texts of types and of classes tell them apart.
type_of : String → Option Journal.EventType
type_of s =
    find (λ t. Journal.type_text t == s)
      (Journal.case_created ∷ Journal.discussion_recorded ∷ Journal.signed_suggestion_admitted
        ∷ Journal.signed_topic_suggestion_admitted ∷ Journal.citizen_adoption_admitted
        ∷ Journal.synthetic_adoption_admitted ∷ Journal.department_package_assigned
        ∷ Journal.department_draft_recorded ∷ Journal.department_review_attested
        ∷ Journal.citizen_brief_derived ∷ Journal.department_draft_corrected
        ∷ Journal.department_response_retracted ∷ Journal.advisory_participation_recorded
        ∷ Journal.advisory_participation_retracted ∷ Journal.reviewed_outcome_recorded ∷ [])

type_of-type_text : (a : Journal.EventType) → type_of (Journal.type_text a) ≡ some a
unfolding type_of
type_of-type_text Journal.case_created = refl
type_of-type_text Journal.discussion_recorded = refl
type_of-type_text Journal.signed_suggestion_admitted = refl
type_of-type_text Journal.signed_topic_suggestion_admitted = refl
type_of-type_text Journal.citizen_adoption_admitted = refl
type_of-type_text Journal.synthetic_adoption_admitted = refl
type_of-type_text Journal.department_package_assigned = refl
type_of-type_text Journal.department_draft_recorded = refl
type_of-type_text Journal.department_review_attested = refl
type_of-type_text Journal.citizen_brief_derived = refl
type_of-type_text Journal.department_draft_corrected = refl
type_of-type_text Journal.department_response_retracted = refl
type_of-type_text Journal.advisory_participation_recorded = refl
type_of-type_text Journal.advisory_participation_retracted = refl
type_of-type_text Journal.reviewed_outcome_recorded = refl

pub some-injective : {A : Type 0} {x y : A} → some x ≡ some y → x ≡ y
some-injective h = cc

pub type_text-injective :
    (a b : Journal.EventType) → Journal.type_text a ≡ Journal.type_text b → a ≡ b
type_text-injective a b h =
    some-injective (sym (type_of-type_text a) ∙ ap type_of h ∙ type_of-type_text b)

class_of : String → Option Journal.ActorClass
class_of s =
    find (λ t. Journal.class_text t == s)
      (Journal.citizen ∷ Journal.public ∷ Journal.administration ∷ Journal.council
        ∷ Journal.case_steward ∷ Journal.department_agent ∷ Journal.department_reviewer
        ∷ Journal.participation_reviewer ∷ [])

class_of-class_text : (a : Journal.ActorClass) → class_of (Journal.class_text a) ≡ some a
unfolding class_of
class_of-class_text Journal.citizen = refl
class_of-class_text Journal.public = refl
class_of-class_text Journal.administration = refl
class_of-class_text Journal.council = refl
class_of-class_text Journal.case_steward = refl
class_of-class_text Journal.department_agent = refl
class_of-class_text Journal.department_reviewer = refl
class_of-class_text Journal.participation_reviewer = refl

pub class_text-injective :
    (a b : Journal.ActorClass) → Journal.class_text a ≡ Journal.class_text b → a ≡ b
class_text-injective a b h =
    some-injective (sym (class_of-class_text a) ∙ ap class_of h ∙ class_of-class_text b)

pub text_or_null-injective :
    (a b : Option String)
    → canonicalize (Journal.text_or_null a) ≡ canonicalize (Journal.text_or_null b)
    → a ≡ b
unfolding canonicalize
text_or_null-injective a b h = ground arith

pub record SameHeader (e f : Journal.StoredEvent) : Type 0 where
  pub version : e.case_version ≡ f.case_version
  pub in_case : e.case_id ≡ f.case_id
  pub id : e.event_id ≡ f.event_id
  pub type : Journal.type_text e.event_type ≡ Journal.type_text f.event_type
  pub prior : e.prior_event_checksum ≡ f.prior_event_checksum
  pub actor : e.actor_binding.actor_id ≡ f.actor_binding.actor_id
  pub class :
      Journal.class_text e.actor_binding.actor_class
      ≡ Journal.class_text f.actor_binding.actor_class
  pub payload_checksum : e.payload_checksum ≡ f.payload_checksum
  pub correction : e.correction_of ≡ f.correction_of

pub header_lem :
    (e f : Journal.StoredEvent)
    → canonicalize (Journal.event_without_checksum e)
      ≡ canonicalize (Journal.event_without_checksum f)
    → SameHeader e f
unfolding canonicalize canonical_fields
header_lem e f h = ground arith
