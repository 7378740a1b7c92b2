-- ===== src/Kernel/Reviews.antt =====
-- Reviews: a response whose reviewer is in scope can always be reviewed.
use stadtstack.Base.{
  Option, none, some, String, true, false, List, [], ◌∷◌, ◌≡◌, ◌≢◌, refl, sym, ap, subst, ◌∙◌,
  arith, eq_iff, eq_refl, ◌==◌, All, IsIn, IsDistinct, contains, find, ok, Bool-cases, inl, inr,
}
use stadtstack.Text.{trim, is_blank}
use stadtstack.Kernel.Types.{
  DepartmentResponse, department_reviewer, CivicActor, CivicKernelConfig, DepartmentWorkPackage,
}
use stadtstack.Kernel.Actors.{role_eq}
use stadtstack.Kernel.Config.{actor_ids}
use stadtstack.Kernel.State.{KernelState}
use stadtstack.Kernel.Packages.{has_id, review, reviewed_state, dispatch_review}
use stadtstack.Kernel.Registry.{IsFull, IsActor, IsConfig}
use stadtstack.Kernel.Invariant.{HasAuthor, AuthoredIfGiven, IsAuthored, Inv}

All-IsIn : {A : Type 0} (P : A → Type 0) (xs : List A) (a : A) → All P xs → IsIn a xs → P a
All-IsIn P [] a h m = elim m [ ]
All-IsIn P (x ∷ xs) a h (inl e) = subst P (sym e) h.0
All-IsIn P (x ∷ xs) a h (inr m) = All-IsIn P xs a h.1 m

contains-id :
    (as_ : List CivicActor) (a : CivicActor) → IsIn a as_ → contains a.id (actor_ids as_) ≡ true
contains-id [] a m = elim m [ ]
contains-id (x ∷ xs) a (inl e) = ground (arith, eq_refl a.id)
contains-id (x ∷ xs) a (inr m) = ground (arith, contains-id xs a m)

-- Ids that are all different name one actor each.
actor_of_id :
    (as_ : List CivicActor) (a b : CivicActor)
    → IsDistinct (actor_ids as_)
    → IsIn a as_
    → IsIn b as_
    → a.id ≡ b.id
    → a ≡ b
actor_of_id [] a b d m n e = elim m [ ]
actor_of_id (x ∷ xs) a b d (inl p) (inl q) e = p ∙ sym q
actor_of_id (x ∷ xs) a b d (inl p) (inr q) e = absurd (ground (arith, contains-id xs b q))
actor_of_id (x ∷ xs) a b d (inr p) (inl q) e = absurd (ground (arith, contains-id xs a p))
actor_of_id (x ∷ xs) a b d (inr p) (inr q) e = actor_of_id xs a b d.1 p q e

is_blank-empty : is_blank "" ≡ true
unfolding is_blank trim
is_blank-empty = refl

filled-ne-empty : (s : String) → IsFull s → (s == "") ≡ false
filled-ne-empty s f = elim (Bool-cases (s == "")) [
  | inl same ↦ absurd (blank ((eq_iff s "").0 same) f.filled)
  | inr differs ↦ differs
]
  where
    blank : s ≡ "" → is_blank s ≡ false → ⊥
    blank e h = cc (ap is_blank e, is_blank-empty)

find-All :
    (P : DepartmentWorkPackage → Type 0) (id : String) (ps : List DepartmentWorkPackage)
    (p : DepartmentWorkPackage)
    → All P ps
    → find (has_id id) ps ≡ some p
    → P p
find-All P id [] p h e = cc
find-All P id (q ∷ ps) p h e = elim (Bool-cases (has_id id q)) [
  | inl hit ↦ subst P (ground arith) h.0
  | inr miss ↦ find-All P id ps p h.1 (ground arith)
]

author_of :
    (config : CivicKernelConfig) (authors : List (String × String)) (id : String)
    (o : Option DepartmentResponse)
    → o ≢ none
    → AuthoredIfGiven config authors id o
    → HasAuthor config authors id
author_of config authors id none given h = absurd (given refl)
author_of config authors id (some r) given h = h

module _ (config : CivicKernelConfig) (s : KernelState) (actor : CivicActor) where
  reviewed_by :
      (p : DepartmentWorkPackage)
      → IsConfig config
      → IsAuthored config s.response_authors p
      → IsIn actor config.actors
      → actor.role ≡ department_reviewer
      → actor.department_id ≡ some p.department_id
      → p.response ≢ none
      → review s actor p ≡ ok (reviewed_state s p)
  unfolding review
  reviewed_by p c authored listed is_reviewer own given =
      let (author, author_listed, is_agent, written) =
        author_of config s.response_authors p.id p.response given authored in
      ground (
        arith,
        eq_refl p.department_id,
        eq_iff author.id actor.id,
        filled-ne-empty author.id (All-IsIn IsActor config.actors author c.actors author_listed).id,
        actor_of_id config.actors author actor c.distinct_actors author_listed listed,
      )

  -- In a state that commands reach, a registered reviewer of the package's department can review
  -- any response there: the checks that its author is known and is somebody else never fail.
  pub dispatch_review-succeeds :
      (p : DepartmentWorkPackage) (id : String)
      → IsConfig config
      → Inv config s
      → IsIn actor config.actors
      → actor.role ≡ department_reviewer
      → find (has_id id) s.department_work_packages ≡ some p
      → actor.department_id ≡ some p.department_id
      → p.response ≢ none
      → dispatch_review s actor id ≡ ok (reviewed_state s p)
  unfolding dispatch_review
  dispatch_review-succeeds p id c v listed is_reviewer found own given = ground (
    arith,
    subst (λ r. role_eq r department_reviewer ≡ true) (sym is_reviewer) refl,
    reviewed_by p c (find-All _ id s.department_work_packages p v.authored found) listed is_reviewer
        own given,
  )
