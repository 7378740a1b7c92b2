-- ===== src/City/Ledgers/Updates.antt =====
-- What is found after an update.
use stadtstack.Base.{
  String, Bool, true, false, some, List, [], ◌∷◌, ◌++◌, ◌≡◌, sym, subst, ◌∙◌, arith, ◌==◌, eq_iff,
  find, Bool-cases, inl, inr,
}
use stadtstack.Kernel.Types.{DepartmentWorkPackage}
use stadtstack.Kernel.State.{update_first}
use stadtstack.Kernel.Packages.{has_id}

pub find-append {ℓ} :
    {A : Type ℓ} (p : A → Bool) (xs ys : List A) {a : A}
    → find p xs ≡ some a
    → find p (xs ++ ys) ≡ some a
find-append p [] ys h = cc
find-append p (x ∷ xs) ys h = elim (Bool-cases (p x)) [
  | inl hit ↦ rw hit (rw hit at h)
  | inr miss ↦ rw miss (find-append p xs ys (rw miss at h))
]

module _ (f : DepartmentWorkPackage → DepartmentWorkPackage)
    (same : (p : DepartmentWorkPackage) → (f p).id ≡ p.id) where
  -- An update elsewhere does not change what is found.
  pub find-update_other :
      (i j : String) (ps : List DepartmentWorkPackage) {p : DepartmentWorkPackage}
      → (i == j) ≡ false
      → find (has_id j) ps ≡ some p
      → find (has_id j) (update_first (has_id i) f ps) ≡ some p
  unfolding update_first
  find-update_other i j [] other h = cc
  find-update_other i j (q ∷ ps) other h = elim (Bool-cases (q.id == i)) [
    | inl hit ↦
        let is_i = (eq_iff q.id i).0 hit in
        rw hit (
          rw (subst (λ x. (x == j) ≡ false) (sym (same q ∙ is_i)) other)
            (rw (subst (λ x. (x == j) ≡ false) (sym is_i) other) at h))
    | inr miss ↦ rw miss (elim (Bool-cases (q.id == j)) [
      | inl found ↦ rw found (rw found at h)
      | inr absent ↦ rw absent (find-update_other i j ps other (rw absent at h))
    ])
  ]

  -- An update here changes what is found.
  pub find-update_same :
      (i : String) (ps : List DepartmentWorkPackage) {p : DepartmentWorkPackage}
      → find (has_id i) ps ≡ some p
      → find (has_id i) (update_first (has_id i) f ps) ≡ some (f p)
  unfolding update_first
  find-update_same i [] h = cc
  find-update_same i (q ∷ ps) h = elim (Bool-cases (q.id == i)) [
    | inl hit ↦
        rw hit (rw (subst (λ x. (x == i) ≡ true) (sym (same q)) hit) (ground (arith, rw hit at h)))
    | inr miss ↦ rw miss (rw miss (find-update_same i ps (rw miss at h)))
  ]
