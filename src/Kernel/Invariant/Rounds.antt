-- ===== src/Kernel/Invariant/Rounds.antt =====
-- Which packages there are: what each update does to the rounds of packages.
use stadtstack.Base.{
  String, Bool, false, ◌||◌, none, some, List, [], ◌∷◌, ◌++◌, map, ◌≡◌, refl, sym, ap, ◌∙◌, arith,
  eq_iff, ◌==◌, concat_map, contains, IsDistinct, lookup, insert, lookup-insert,
}
use stadtstack.Kernel.Types.{
  CivicKernelConfig, draft, submitted_for_administration_review, Suggestion, DepartmentWorkPackage,
}
use stadtstack.Kernel.State.{KernelState, update_first}
use stadtstack.Kernel.Packages.{new_package, submitted_state}
use stadtstack.Kernel.Invariant.{subject, subjects_of, submitted_at, IsAssigned}

map-append {ℓ κ} :
    {A : Type ℓ} {B : Type κ} (f : A → B) (xs ys : List A) → map f (xs ++ ys) ≡ map f xs ++ map f ys
map-append f [] ys = refl
map-append f (x ∷ xs) ys = ap (◌∷◌ (f x)) (map-append f xs ys)

append_assoc {ℓ} : {A : Type ℓ} (xs ys zs : List A) → (xs ++ ys) ++ zs ≡ xs ++ (ys ++ zs)
append_assoc [] ys zs = refl
append_assoc (x ∷ xs) ys zs = ap (◌∷◌ x) (append_assoc xs ys zs)

append_nil {ℓ} : {A : Type ℓ} (xs : List A) → xs ++ [] ≡ xs
append_nil [] = refl
append_nil (x ∷ xs) = ap (◌∷◌ x) (append_nil xs)

concat_map-one_more {ℓ κ} :
    {A : Type ℓ} {B : Type κ} (f : A → List B) (xs : List A) (x : A)
    → concat_map f (xs ++ x ∷ []) ≡ concat_map f xs ++ f x
concat_map-one_more f [] x = append_nil (f x)
concat_map-one_more f (y ∷ ys) x =
    ap (◌++◌ (f y)) (concat_map-one_more f ys x) ∙ sym (append_assoc (f y) (concat_map f ys) (f x))

contains-one_more :
    (k x : String) (xs : List String) → contains k (xs ++ x ∷ []) ≡ (contains k xs || x == k)
contains-one_more k x [] = ground arith
contains-one_more k x (y ∷ ys) = ground (arith, contains-one_more k x ys)

IsDistinct-one_more :
    (x : String) (xs : List String)
    → IsDistinct xs
    → contains x xs ≡ false
    → IsDistinct (xs ++ x ∷ [])
IsDistinct-one_more x [] d h = (refl, tt)
IsDistinct-one_more x (y ∷ ys) d h = (
  ground (arith, d.0, h, contains-one_more y x ys, eq_iff x y, eq_iff y x),
  IsDistinct-one_more x ys d.1 (ground (arith, h)),
)

new_packages-subjects :
    (id : String) (ds : List String) → map subject (map (new_package id) ds) ≡ subjects_of ds id
new_packages-subjects id [] = refl
new_packages-subjects id (d ∷ ds) =
    ap (◌∷◌ (subject (new_package id d))) (new_packages-subjects id ds)

update_first-subjects :
    (p : DepartmentWorkPackage → Bool) (f : DepartmentWorkPackage → DepartmentWorkPackage)
    (ps : List DepartmentWorkPackage)
    → ((q : DepartmentWorkPackage) → subject (f q) ≡ subject q)
    → map subject (update_first p f ps) ≡ map subject ps
unfolding update_first
update_first-subjects p f [] h = refl
update_first-subjects p f (q ∷ ps) h = ground (arith, h q, update_first-subjects p f ps h)

draft_unsubmitted : (x : Suggestion) → x.status ≡ draft → submitted_at (some x) ≡ false
draft_unsubmitted x h = ground arith

-- After a submission one more suggestion is submitted.
now_submitted :
    (key id : String) (x : Suggestion) (m : List (String × Suggestion))
    → (submitted_at (lookup id m) || key == id)
      ≡ submitted_at
          (lookup id (insert key (record x { status = submitted_for_administration_review }) m))
now_submitted key id x m =
    ground
      (arith, lookup-insert key id (record x { status = submitted_for_administration_review }) m)

module _ (config : CivicKernelConfig) (s : KernelState)
    (r : IsAssigned config s.suggestions s.department_work_packages) where
  -- A draft under a new id is not submitted.
  pub suggestion_added-IsAssigned :
      (x : Suggestion)
      → x.status ≡ draft
      → lookup x.id s.suggestions ≡ none
      → IsAssigned config (insert x.id x s.suggestions) s.department_work_packages
  suggestion_added-IsAssigned x is_draft new = record {
    submissions = r.submissions;
    distinct = r.distinct;
    all_submitted = λ id. ground (
      arith,
      r.all_submitted id,
      lookup-insert x.id id x s.suggestions,
      eq_iff x.id id,
      draft_unsubmitted x is_draft,
      ap submitted_at new,
      r.all_submitted x.id,
    );
    assigned = r.assigned;
  }

  -- A submission is a new round.
  pub submitted-IsAssigned :
      (key : String) (x : Suggestion)
      → lookup key s.suggestions ≡ some x
      → x.status ≡ draft
      → x.id ≡ key
      → IsAssigned config
          (submitted_state config s key x).suggestions
          (submitted_state config s key x).department_work_packages
  submitted-IsAssigned key x found is_draft named =
      let fresh : contains x.id r.submissions ≡ false =
        r.all_submitted x.id
        ∙ ap (λ k. submitted_at (lookup k s.suggestions)) named
        ∙ ap submitted_at found
        ∙ draft_unsubmitted x is_draft in
      record {
        submissions = r.submissions ++ x.id ∷ [];
        distinct = IsDistinct-one_more x.id r.submissions r.distinct fresh;
        all_submitted = λ id.
            contains-one_more id x.id r.submissions
            ∙ ap (λ k. contains id r.submissions || k == id) named
            ∙ ap (λ b. b || key == id) (r.all_submitted id)
            ∙ now_submitted key id x s.suggestions;
        assigned =
            map-append subject s.department_work_packages
              (map (new_package x.id) config.departments)
            ∙ ap (λ l. l ++ map subject (map (new_package x.id) config.departments)) r.assigned
            ∙ ap (◌++◌ (concat_map (subjects_of config.departments) r.submissions))
                (new_packages-subjects x.id config.departments)
            ∙ sym (concat_map-one_more (subjects_of config.departments) r.submissions x.id);
      }

  pub updated-IsAssigned :
      (p : DepartmentWorkPackage → Bool) (f : DepartmentWorkPackage → DepartmentWorkPackage)
      → ((q : DepartmentWorkPackage) → subject (f q) ≡ subject q)
      → IsAssigned config s.suggestions (update_first p f s.department_work_packages)
  updated-IsAssigned p f same = record {
    submissions = r.submissions;
    distinct = r.distinct;
    all_submitted = r.all_submitted;
    assigned = update_first-subjects p f s.department_work_packages same ∙ r.assigned;
  }
