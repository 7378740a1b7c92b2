-- ===== src/City/Ledgers/Reviews.antt =====
-- What updates of packages do to the responses that are given, and to those that are reviewed.
use stadtstack.Base.{
  String, Bool, false, none, some, List, [], ◌∷◌, ◌++◌, map, ◌≡◌, refl, sym, ap, subst, ◌∙◌, arith,
  ◌==◌, eq_iff, find, Bool-cases, Option-cases, ◌⊎◌, inl, inr,
}
use stadtstack.Kernel.Types.{DepartmentWorkPackage, DepartmentResponse, reviewed}
use stadtstack.Kernel.State.{update_first}
use stadtstack.Kernel.Packages.{has_id, new_package, mark_reviewed}
use stadtstack.City.Ledgers.{IsGiven, IsAssessed}
use stadtstack.City.Ledgers.Updates.{find-append, find-update_other, find-update_same}

-- No package is answered anew, and none that is reviewed is not any more.
pub record ReviewsKept (ps qs : List DepartmentWorkPackage) : Type 0 where
  pub given : (id : String) → IsGiven qs id → IsGiven ps id
  pub assessed : (id : String) → IsAssessed ps id → IsAssessed qs id

pub same-ReviewsKept : (ps qs : List DepartmentWorkPackage) → qs ≡ ps → ReviewsKept ps qs
same-ReviewsKept ps qs e = record {
  given = λ id h. subst (λ rs. IsGiven rs id) e h;
  assessed = λ id h. subst (λ rs. IsAssessed rs id) (sym e) h;
}

find-append_back {ℓ} :
    {A : Type ℓ} (p : A → Bool) (xs ys : List A) {a : A}
    → find p (xs ++ ys) ≡ some a
    → (find p xs ≡ some a) ⊎ (find p ys ≡ some a)
find-append_back p [] ys h = inr h
find-append_back p (x ∷ xs) ys h = elim (Bool-cases (p x)) [
  | inl hit ↦ inl (rw hit (rw hit at h))
  | inr miss ↦ rw miss (find-append_back p xs ys (rw miss at h))
]

new_unanswered :
    (x id : String) (ds : List String) {p : DepartmentWorkPackage}
    → find (has_id id) (map (new_package x) ds) ≡ some p
    → p.response ≡ none
new_unanswered x id [] h = cc
new_unanswered x id (d ∷ ds) {p = p} h = elim (Bool-cases (has_id id (new_package x d))) [
  | inl hit ↦ ground (arith, rw hit at h)
  | inr miss ↦ new_unanswered x id ds (rw miss at h)
]

pub append-ReviewsKept :
    (ps : List DepartmentWorkPackage) (x : String) (ds : List String)
    → ReviewsKept ps (ps ++ map (new_package x) ds)
append-ReviewsKept ps x ds = record {
  given = λ id h. elim (find-append_back (has_id id) ps (map (new_package x) ds) h.found) [
    | inl old ↦ record {
      work_package = h.work_package;
      found = old;
      given = h.given;
      responded = h.responded;
    }
    | inr new ↦ absurd (ground (arith, new_unanswered x id ds new, h.responded))
  ];
  assessed = λ id h. record {
    given = record {
      work_package = h.given.work_package;
      found = find-append (has_id id) ps (map (new_package x) ds) h.given.found;
      given = h.given.given;
      responded = h.given.responded;
    };
    assessed = h.assessed;
  };
}

module _ (f : DepartmentWorkPackage → DepartmentWorkPackage)
    (same : (p : DepartmentWorkPackage) → (f p).id ≡ p.id) where
  find-update_none :
      (k l : String) (rs : List DepartmentWorkPackage)
      → find (has_id l) rs ≡ none
      → find (has_id l) (update_first (has_id k) f rs) ≡ none
  unfolding update_first
  find-update_none k l [] a = refl
  find-update_none k l (r ∷ rs) a =
      ground (arith, a, find-update_none k l rs, ap (λ i. i == l) (same r))

  -- What is found after an update elsewhere was found before.
  find-update_other_back :
      (i j : String) (ps : List DepartmentWorkPackage) {p : DepartmentWorkPackage}
      → (i == j) ≡ false
      → find (has_id j) (update_first (has_id i) f ps) ≡ some p
      → find (has_id j) ps ≡ some p
  find-update_other_back i j ps other h = elim (Option-cases (find (has_id j) ps)) [
    | inl absent ↦ absurd (ground (arith, find-update_none i j ps absent, h))
    | inr (q, found) ↦ found ∙ sym (find-update_other f same i j ps other found) ∙ h
  ]

  -- A response elsewhere changes nothing here.
  pub update_other-ReviewsKept :
      (i j : String) (ps : List DepartmentWorkPackage)
      → (i == j) ≡ false
      → (IsGiven (update_first (has_id i) f ps) j → IsGiven ps j)
        × (IsAssessed ps j → IsAssessed (update_first (has_id i) f ps) j)
  update_other-ReviewsKept i j ps other = (
    λ h. record {
      work_package = h.work_package;
      found = find-update_other_back i j ps other h.found;
      given = h.given;
      responded = h.responded;
    },
    λ h. record {
      given = record {
        work_package = h.given.work_package;
        found = find-update_other f same i j ps other h.given.found;
        given = h.given.given;
        responded = h.given.responded;
      };
      assessed = h.assessed;
    },
  )

reviewed_given :
    (p : DepartmentWorkPackage) (r : DepartmentResponse)
    → p.response ≡ some r
    → (mark_reviewed p).response ≡ some (record r { status = reviewed })
reviewed_given p r h = rw h refl

-- A review of a response that is given leaves it reviewed.
pub review-IsAssessed :
    (id : String) (ps : List DepartmentWorkPackage)
    → IsGiven ps id
    → IsAssessed (update_first (has_id id) mark_reviewed ps) id
review-IsAssessed id ps h = record {
  given = record {
    work_package = mark_reviewed h.work_package;
    found = find-update_same mark_reviewed (λ p. refl) id ps h.found;
    given = record h.given { status = reviewed };
    responded = reviewed_given h.work_package h.given h.responded;
  };
  assessed = refl;
}

pub review-ReviewsKept :
    (i : String) (ps : List DepartmentWorkPackage)
    → IsGiven ps i
    → ReviewsKept ps (update_first (has_id i) mark_reviewed ps)
review-ReviewsKept i ps g = record {
  given = λ id h. elim (Bool-cases (i == id)) [
    | inl same ↦ subst (IsGiven ps) ((eq_iff i id).0 same) g
    | inr other ↦ (update_other-ReviewsKept mark_reviewed (λ p. refl) i id ps other).0 h
  ];
  assessed = λ id h. elim (Bool-cases (i == id)) [
    | inl same ↦
        subst (λ j. IsAssessed (update_first (has_id i) mark_reviewed ps) j) ((eq_iff i id).0 same)
          (review-IsAssessed i ps g)
    | inr other ↦ (update_other-ReviewsKept mark_reviewed (λ p. refl) i id ps other).1 h
  ];
}
