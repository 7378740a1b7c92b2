-- ===== src/Kernel/History.antt =====
-- What is recorded stays recorded.
use stadtstack.Base.{
  ℕ, String, true, Option, none, some, List, ◌≡◌, refl, sym, ap, subst, ◌∙◌, arith, eq_iff, ◌==◌,
  lookup, insert, lookup-insert, inl, inr, Bool-cases,
}
use stadtstack.Kernel.Types.{
  CivicKernelConfig, CivicActor, CivicDiscussion, Suggestion, ParticipationResult,
  submitted_for_administration_review,
}
use stadtstack.Kernel.State.{KernelState}
use stadtstack.Kernel.Packages.{is_submitted}
use stadtstack.Kernel.Changes.{
  Change, unchanged, discussion_added, suggestion_added, suggestion_submitted, response_recorded,
  response_reviewed, brief_published, result_recorded, dispatch-Change,
}
use stadtstack.Kernel.Runs.{Reach, here, next}

-- A later form of a suggestion: the same text, and submitted if it was.
pub record IsLater (x y : Suggestion) : Type 0 where
  pub id : y.id ≡ x.id
  pub discussion : y.discussion_id ≡ x.discussion_id
  pub title : y.title ≡ x.title
  pub status : is_submitted x.status ≡ true → is_submitted y.status ≡ true

record Carries (s t : KernelState) : Type 0 where
  pub discussions :
      (k : String) (d : CivicDiscussion)
      → lookup k s.discussions ≡ some d
      → lookup k t.discussions ≡ some d
  pub suggestions :
      (k : String) (x : Suggestion)
      → lookup k s.suggestions ≡ some x
      → (y : Suggestion) × (lookup k t.suggestions ≡ some y) × IsLater x y
  pub result :
      (r : ParticipationResult) → s.participation_result ≡ some r → t.participation_result ≡ some r

IsLater-refl : (x : Suggestion) → IsLater x x
IsLater-refl x = record { id = refl; discussion = refl; title = refl; status = λ h. h }

Carries-refl : (s : KernelState) → Carries s s
Carries-refl s = record {
  discussions = λ k d h. h;
  suggestions = λ k x h. (x, h, IsLater-refl x);
  result = λ r h. h;
}

-- States that differ in packages, authors and the brief alone.
Carries-same :
    (s t : KernelState)
    → t.discussions ≡ s.discussions
    → t.suggestions ≡ s.suggestions
    → t.participation_result ≡ s.participation_result
    → Carries s t
Carries-same s t d x r = record {
  discussions = λ k a h. rw d h;
  suggestions = λ k a h. (a, rw x h, IsLater-refl a);
  result = λ a h. rw r h;
}

lookup-insert_fresh {ℓ} :
    {V : Type ℓ} (k j : String) (v w : V) (m : List (String × V))
    → lookup k m ≡ none
    → lookup j m ≡ some w
    → lookup j (insert k v m) ≡ some w
lookup-insert_fresh k j v w m new h = ground (arith, lookup-insert k j v m, eq_iff k j)

submitted-suggestions :
    (key k : String) (x y : Suggestion) (m : List (String × Suggestion))
    → lookup key m ≡ some x
    → lookup k m ≡ some y
    → (z : Suggestion) × (lookup k
          (insert key (record x { status = submitted_for_administration_review }) m)
        ≡ some z)
      × IsLater y z
submitted-suggestions key k x y m found h = elim (Bool-cases (key == k)) [
  | inl same ↦ (
    record x { status = submitted_for_administration_review },
    ground
        (arith, lookup-insert key k (record x { status = submitted_for_administration_review }) m),
    later (ground (arith, eq_iff key k)),
  )
  | inr other ↦ (
    y,
    ground
        (arith, lookup-insert key k (record x { status = submitted_for_administration_review }) m),
    IsLater-refl y,
  )
]
  where
    later : x ≡ y → IsLater y (record x { status = submitted_for_administration_review })
    later e = record {
      id = ap (λ z. z.id) e;
      discussion = ap (λ z. z.discussion_id) e;
      title = ap (λ z. z.title) e;
      status = λ _. refl;
    }

Carries-subst : {s t u : KernelState} → u ≡ t → Carries s t → Carries s u
Carries-subst {s} e h = subst (Carries s) (sym e) h

-- A step leaves recorded discussions and an accepted result as they are, and only submits
-- suggestions.
Change-Carries :
    (clock : String → Option ℕ) (config : CivicKernelConfig) (actor : CivicActor)
    (s t : KernelState)
    → Change clock config actor s t
    → Carries s t
Change-Carries clock config actor s t (unchanged e) = Carries-subst e (Carries-refl s)
Change-Carries clock config actor s t (discussion_added given p new found e) =
    Carries-subst e (record {
      discussions = λ k d h. lookup-insert_fresh given.id k _ d s.discussions new h;
      suggestions = λ k x h. (x, h, IsLater-refl x);
      result = λ r h. h;
    })
Change-Carries clock config actor s t (suggestion_added x is_draft new known e) =
    Carries-subst e (record {
      discussions = λ k d h. h;
      suggestions =
          λ k y h. (y, lookup-insert_fresh x.id k x y s.suggestions new h, IsLater-refl y);
      result = λ r h. h;
    })
Change-Carries clock config actor s t (suggestion_submitted key x found is_draft e) =
    Carries-subst e (record {
      discussions = λ k d h. h;
      suggestions = λ k y h. submitted-suggestions key k x y s.suggestions found h;
      result = λ r h. h;
    })
Change-Carries clock config actor s t (response_recorded p m c found r own cited e) =
    Carries-subst e (Carries-same s _ refl refl refl)
Change-Carries clock config actor s t
      (response_reviewed p r a found is_r own given written differs e) =
    Carries-subst e (Carries-same s _ refl refl refl)
Change-Carries clock config actor s t (brief_published m may same all_reviewed e) =
    Carries-subst e (Carries-same s _ refl refl refl)
Change-Carries clock config actor s t (result_recorded given r new found e) =
    Carries-subst e (record {
      discussions = λ k d h. h;
      suggestions = λ k x h. (x, h, IsLater-refl x);
      result = λ q h. absurd (ground arith);
    })

Carries-trans : {s t u : KernelState} → Carries s t → Carries t u → Carries s u
Carries-trans {s} {t} {u} a b = record {
  discussions = λ k d h. b.discussions k d (a.discussions k d h);
  suggestions = λ k x h.
      let (y, found, first) = a.suggestions k x h in
      let (z, found', second) = b.suggestions k y found in (z, found', IsLater-trans first second);
  result = λ r h. b.result r (a.result r h);
}
  where
    IsLater-trans : {x y z : Suggestion} → IsLater x y → IsLater y z → IsLater x z
    IsLater-trans p q = record {
      id = q.id ∙ p.id;
      discussion = q.discussion ∙ p.discussion;
      title = q.title ∙ p.title;
      status = λ h. q.status (p.status h);
    }

Reach-Carries :
    (clock : String → Option ℕ) (config : CivicKernelConfig) {s t : KernelState}
    → Reach clock config s t
    → Carries s t
Reach-Carries clock config {s} here = Carries-refl s
Reach-Carries clock config (next {t = t} {u = u} r c h) =
    let (actor, _, step) = dispatch-Change clock config t u c h in
    Carries-trans (Reach-Carries clock config r) (Change-Carries clock config actor t u step)

-- What is given stays as it is.
abbrev pub StaysIfGiven : {A : Type 0} → Option A → Option A → Type 0
StaysIfGiven none new = Unit
StaysIfGiven (some a) new = new ≡ some a

abbrev pub LaterIfGiven : Option Suggestion → Option Suggestion → Type 0
LaterIfGiven none new = Unit
LaterIfGiven (some x) new = (y : Suggestion) × (new ≡ some y) × IsLater x y

pub record Extends (s t : KernelState) : Type 0 where
  pub discussions : (k : String) → StaysIfGiven (lookup k s.discussions) (lookup k t.discussions)
  pub suggestions : (k : String) → LaterIfGiven (lookup k s.suggestions) (lookup k t.suggestions)
  pub result : StaysIfGiven s.participation_result t.participation_result

stays :
    {A : Type 0} (old new : Option A)
    → ((a : A) → old ≡ some a → new ≡ some a)
    → StaysIfGiven old new
stays none new h = tt
stays (some a) new h = h a refl

goes_on :
    (old new : Option Suggestion)
    → ((x : Suggestion) → old ≡ some x → (y : Suggestion) × (new ≡ some y) × IsLater x y)
    → LaterIfGiven old new
goes_on none new h = tt
goes_on (some x) new h = h x refl

-- Whatever commands follow: a recorded discussion and an accepted participation result never
-- change, and a suggestion keeps its id, its discussion and its title, and is never withdrawn from
-- the administration.
pub Reach-Extends :
    (clock : String → Option ℕ) (config : CivicKernelConfig) {s t : KernelState}
    → Reach clock config s t
    → Extends s t
Reach-Extends clock config {s} {t} r =
    let c = Reach-Carries clock config r in
    record {
      discussions = λ k. stays (lookup k s.discussions) (lookup k t.discussions) (c.discussions k);
      suggestions =
          λ k. goes_on (lookup k s.suggestions) (lookup k t.suggestions) (c.suggestions k);
      result = stays s.participation_result t.participation_result c.result;
    }
