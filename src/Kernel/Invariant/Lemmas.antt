-- ===== src/Kernel/Invariant/Lemmas.antt =====
-- What updates of dictionaries and packages keep.
use stadtstack.Base.{
  ℕ, zero, suc, ◌≤◌, String, Bool, true, false, Option, none, some, List, [], ◌∷◌, map, ◌≡◌, ◌≢◌,
  refl, sym, ap, arith, eq_iff, ◌==◌, length, any, take, All, IsIn, lookup, insert, lookup-insert,
  count_values-insert_new, count_values-insert_old, Bool-cases, inl, inr,
}
use stadtstack.Kernel.Types.{
  department_agent, CivicActor, CivicKernelConfig, draft, submitted_for_administration_review,
  Suggestion, DepartmentResponse, ResponseStatus, reviewed, pending_review, DepartmentWorkPackage,
}
use stadtstack.Kernel.State.{PublishedBrief, update_first}
use stadtstack.Kernel.Packages.{
  has_id, is_submitted, new_package, mark_reviewed, is_reviewed, is_reviewed_status,
}
use stadtstack.Kernel.Invariant.{
  submitted_count, HasAuthor, AuthoredIfGiven, IsAuthored, unreviewed, IsBackedIfGiven,
}

pub lookup-insert_keeps {ℓ} :
    {V : Type ℓ} (k j : String) (v : V) (m : List (String × V))
    → lookup j m ≢ none
    → lookup j (insert k v m) ≢ none
lookup-insert_keeps k j v m h = ground (arith, lookup-insert k j v m)

pub length-update_first {ℓ} :
    {A : Type ℓ} (p : A → Bool) (f : A → A) (xs : List A) → length (update_first p f xs) ≡ length xs
unfolding update_first
length-update_first p f [] = refl
length-update_first p f (x ∷ xs) = ground (arith, length-update_first p f xs)

-- An update that leaves what passes a test as it is.
pub All-update_first {ℓ κ} :
    {A : Type ℓ} (P : A → Type κ) (p : A → Bool) (f : A → A) (xs : List A)
    → ((x : A) → p x ≡ true → P x → P (f x))
    → All P xs
    → All P (update_first p f xs)
unfolding update_first
All-update_first P p f [] h a = tt
All-update_first P p f (x ∷ xs) h a = elim (Bool-cases (p x)) [
  | inl hit ↦ rw hit (h x hit a.0, a.1)
  | inr miss ↦ rw miss (a.0, All-update_first P p f xs h a.1)
]

pub All-weaken {ℓ κ μ} :
    {A : Type ℓ} {P : A → Type κ} {Q : A → Type μ} (xs : List A)
    → ((x : A) → P x → Q x)
    → All P xs
    → All Q xs
All-weaken [] f h = tt
All-weaken (x ∷ xs) f h = (f x h.0, All-weaken xs f h.1)

pub new_packages-IsAuthored :
    (config : CivicKernelConfig) (authors : List (String × String)) (id : String)
    (departments : List String)
    → All (IsAuthored config authors) (map (new_package id) departments)
new_packages-IsAuthored config authors id [] = tt
new_packages-IsAuthored config authors id (d ∷ ds) =
    (tt, new_packages-IsAuthored config authors id ds)

pub mark_reviewed-fixes : (p : DepartmentWorkPackage) → is_reviewed p ≡ true → mark_reviewed p ≡ p
mark_reviewed-fixes p h = ap (λ o. record p { response = o }) (fixed p.response h)
  where
    status_fixed : (x : ResponseStatus) → is_reviewed_status x ≡ true → reviewed ≡ x
    status_fixed pending_review h = cc
    status_fixed reviewed h = refl

    fixed :
        (o : Option DepartmentResponse)
        → is_reviewed (record p { response = o }) ≡ true
        → (mark_reviewed (record p { response = o })).response ≡ o
    fixed none h = refl
    fixed (some r) h = ap (λ x. some (record r { status = x })) (status_fixed r.status h)

pub take-update_first :
    (n : ℕ) (id : String) (ps : List DepartmentWorkPackage)
    → any unreviewed (take n ps) ≡ false
    → take n (update_first (has_id id) mark_reviewed ps) ≡ take n ps
unfolding update_first
take-update_first zero id ps h = refl
take-update_first (suc n) id [] h = refl
take-update_first (suc n) id (p ∷ ps) h = elim (Bool-cases (has_id id p)) [
  | inl hit ↦ rw hit (ap (λ q. q ∷ take n ps) (mark_reviewed-fixes p (ground arith)))
  | inr miss ↦ rw miss (ap (◌∷◌ p) (take-update_first n id ps (ground arith)))
]

-- More packages behind the first round, or a further review, leave a brief as well backed.
pub IsBacked-of_take :
    (config : CivicKernelConfig) (ps qs : List DepartmentWorkPackage) (b : Option PublishedBrief)
    → length ps ≤ length qs
    → (length config.departments ≤ length ps
        → any unreviewed (take (length config.departments) ps) ≡ false
        → take (length config.departments) qs ≡ take (length config.departments) ps)
    → IsBackedIfGiven config ps b
    → IsBackedIfGiven config qs b
IsBacked-of_take config ps qs none longer same h = tt
IsBacked-of_take config ps qs (some b) longer same h =
    let e = same h.complete h.all_reviewed in
    record {
      complete = omega (arith, h.complete);
      all_reviewed = rw e h.all_reviewed;
      cited = rw e h.cited;
    }

pub submitted_count-insert_draft :
    (x : Suggestion) (m : List (String × Suggestion))
    → x.status ≡ draft
    → lookup x.id m ≡ none
    → submitted_count (insert x.id x m) ≡ submitted_count m
submitted_count-insert_draft x m is_draft new =
    ground (arith, count_values-insert_new (λ y. is_submitted y.status) x.id x m)

pub submitted_count-submit :
    (key : String) (x : Suggestion) (m : List (String × Suggestion))
    → lookup key m ≡ some x
    → x.status ≡ draft
    → submitted_count (insert key (record x { status = submitted_for_administration_review }) m)
      ≡ suc (submitted_count m)
submitted_count-submit key x m e is_draft = ground (
  arith,
  count_values-insert_old (λ y. is_submitted y.status) key
      (record x { status = submitted_for_administration_review }) x m e,
)

pub hit_sym : (p q : DepartmentWorkPackage) → has_id p.id q ≡ true → (p.id == q.id) ≡ true
hit_sym p q h = (eq_iff p.id q.id).1 (sym ((eq_iff q.id p.id).0 h))

AuthoredIfGiven-map :
    (config : CivicKernelConfig) (as_ bs : List (String × String)) (id : String)
    (o : Option DepartmentResponse)
    → (HasAuthor config as_ id → HasAuthor config bs id)
    → AuthoredIfGiven config as_ id o
    → AuthoredIfGiven config bs id o
AuthoredIfGiven-map config as_ bs id none f h = tt
AuthoredIfGiven-map config as_ bs id (some r) f h = f h

pub mark_reviewed-IsAuthored :
    (config : CivicKernelConfig) (authors : List (String × String)) (q : DepartmentWorkPackage)
    → IsAuthored config authors q
    → IsAuthored config authors (mark_reviewed q)
mark_reviewed-IsAuthored config authors q h = kept q.response h
  where
    kept :
        (o : Option DepartmentResponse)
        → AuthoredIfGiven config authors q.id o
        → IsAuthored config authors (mark_reviewed (record q { response = o }))
    kept none k = tt
    kept (some r) k = k

pub IsAuthored-insert :
    (config : CivicKernelConfig) (authors : List (String × String)) (id : String)
    (actor : CivicActor)
    → IsIn actor config.actors
    → actor.role ≡ department_agent
    → (q : DepartmentWorkPackage) → IsAuthored config authors q
    → IsAuthored config (insert id actor.id authors) q
IsAuthored-insert config authors id actor listed is_agent q h =
    AuthoredIfGiven-map config authors (insert id actor.id authors) q.id q.response
      (λ (a, a_listed, a_agent, written). elim (Bool-cases (id == q.id)) [
        | inl same ↦
            (actor, listed, is_agent, rw (lookup-insert id q.id actor.id authors, same) refl)
        | inr other ↦
            (a, a_listed, a_agent, rw (lookup-insert id q.id actor.id authors, other) written)
      ])
      h
