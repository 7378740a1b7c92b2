-- ===== src/Coordinator/Departments/Accepting.antt =====
-- Lemmas for what the replay accepts of the branches of `handle` on departments, and drafts.
use stadtstack.Base.{
  ℕ, String, Bool, true, false, not, ◌&&◌, Option, some, is_some, lookup, ◌==◌, eq_iff, eq_refl,
  Result, ok, guard, or_fail, ◌>>=◌, ◌>>◌, ◌≡◌, refl, sym, ap, subst, ◌∙◌, arith, >>=-eq-ok,
  or_fail-eq-ok, guard_then-eq-ok,
}
use stadtstack.Value.{Value}
use stadtstack.Coordinator.Journal
use stadtstack.Coordinator.Departments.State
use stadtstack.Coordinator.Departments.Replay
use stadtstack.Coordinator.Departments.Commands
use stadtstack.Coordinator.Receipts.{ok-injective, >>=-ok}

pub same_class :
    (a b c : Journal.ActorClass)
    → State.is_class a b ≡ true
    → State.is_class a c ≡ true
    → State.is_class b c ≡ true
same_class a b c h k =
    let e = (eq_iff (Journal.class_text a) (Journal.class_text b)).0 h in
    ap (λ s. s == Journal.class_text c) (sym e) ∙ k

pub found_again :
    {A : Type 0} (held : Option A) (x y : Journal.CoordinatorError) {a : A}
    → or_fail held x ≡ ok a
    → or_fail held y ≡ ok a
found_again held x y h = ap (λ k. or_fail k y) (or_fail-eq-ok held x h)

pub guard_found-eq-ok :
    {A B : Type 0} (b : Bool) (e : Journal.CoordinatorError) (x : A)
    (f : A → Result Journal.CoordinatorError B) {y : B}
    → (guard b e >> ok x >>= f) ≡ ok y
    → (b ≡ true) × (f x ≡ ok y)
guard_found-eq-ok true e x f h = (refl, h)
guard_found-eq-ok false e x f h = cc

module _ (checksum_of : Value → String) (o : State.CaseOptions) where
  -- Where an event with this outcome stands.
  abbrev pub place : ℕ → Journal.ActorBinding → String → Option String → Replay.Place
  place index actor id correction = record {
    index = index;
    actor_binding = actor;
    event_id = id;
    correction_of = correction;
  }

  abbrev pub Replays :
      State.CaseState → ℕ → Journal.ActorBinding → String → Replay.Payload × Option String → Type 0
  Replays c index actor id out =
      (next : State.CaseState) × (Replay.replay_payload checksum_of o c (place index actor id out.1)
          out.0
        ≡ ok next)

  pub checked-ok :
      (fits : Bool) (v : Value) (matches : String → Bool) (next : State.CaseState) (s : String)
      → fits ≡ true
      → Journal.sha256 checksum_of v ≡ ok s
      → matches s ≡ true
      → Replay.checked checksum_of o fits v matches next ≡ ok next
  unfolding Replay.checked
  checked-ok fits v matches next s fit sum match =
      ap
        (λ b. (guard b Replay.invalid >> Journal.sha256 checksum_of v) >>= λ s.
          guard (matches s) Replay.invalid >> ok next)
        fit
      ∙ ap (λ m. m >>= λ s. guard (matches s) Replay.invalid >> ok next) sum
      ∙ ap (λ b. guard b Replay.invalid >> ok next) match

  pub guarded-ok :
      (fits : Bool) (next : State.CaseState)
      → fits ≡ true
      → (guard fits Replay.invalid >> ok next) ≡ ok next
  guarded-ok fits next h = ap (λ b. guard b Replay.invalid >> ok next) h

  pub in_scope :
      (c : Journal.ActorClass) (d : String) (actor : Journal.ActorBinding)
      (r : State.ActorRegistration)
      → lookup actor.actor_id o.actors ≡ some r
      → State.is_class r.actor_class actor.actor_class ≡ true
      → State.is_class r.actor_class c ≡ true
      → State.is_text d r.department_id ≡ true
      → Replay.is_actor_of checksum_of o c d actor ≡ true
  in_scope c d actor r l same h t =
      ap (λ b. b && State.has_scope c d (lookup actor.actor_id o.actors))
        (same_class r.actor_class actor.actor_class c same h)
      ∙ ap (State.has_scope c d) l
      ∙ ground (arith, h, t)

  pub is_steward_lem :
      (actor : Journal.ActorBinding) (r : State.ActorRegistration)
      → lookup actor.actor_id o.actors ≡ some r
      → State.is_class r.actor_class actor.actor_class ≡ true
      → State.is_class r.actor_class Journal.case_steward ≡ true
      → Replay.is_steward checksum_of o actor ≡ true
  is_steward_lem actor r l same h =
      ap (λ b. b && State.has_class Journal.case_steward (lookup actor.actor_id o.actors))
        (same_class r.actor_class actor.actor_class Journal.case_steward same h)
      ∙ ap (State.has_class Journal.case_steward) l
      ∙ h

  pub accepted_again :
      (d : State.Department) (x : Journal.CoordinatorError)
      {held : State.RecordedDraft × State.RecordedReview}
      → or_fail (Commands.response_of d) x ≡ ok held
      → State.is_accepted held.1.review.decision ≡ true
      → or_fail (Replay.accepted_response d) Replay.invalid ≡ ok held
  accepted_again d x h a = ground (arith, h, a)

  pub record_draft-Replays :
      (c : State.CaseState) (index : ℕ) (event_id : String) (actor : Journal.ActorBinding)
      (r : State.ActorRegistration) (id checksum : String) (draft : State.DepartmentDraft)
      {out : Replay.Payload × Option String}
      → lookup actor.actor_id o.actors ≡ some r
      → State.is_class r.actor_class actor.actor_class ≡ true
      → Commands.record_draft checksum_of o (some c) actor r id checksum draft ≡ ok out
      → Replays c index actor event_id out
  unfolding Commands.record_draft Replay.replay_payload Replay.replay_drafted
  record_draft-Replays c index event_id actor r id checksum draft l same h =
      let (d, h1, h2) =
        >>=-eq-ok
          (guard (State.is_class r.actor_class Journal.department_agent)
              (Journal.refused "actor_role_forbidden")
            >> or_fail (lookup id c.departments)
                (Journal.refused "department_package_not_assigned"))
          _ h in
      let (role, found) =
        guard_then-eq-ok (State.is_class r.actor_class Journal.department_agent) _ _ h1 in
      let (s, h3, h4) =
        >>=-eq-ok
          (guard (not (is_some d.draft)) (Journal.refused "department_draft_already_recorded")
            >> guard (id == d.department_package.id) (Journal.refused "department_package_mismatch")
            >> guard (checksum == d.package_checksum)
                (Journal.refused "department_package_checksum_invalid")
            >> guard (actor.actor_id == d.department_package.assigned_agent_actor_id)
                (Journal.refused "department_agent_not_assigned")
            >> guard (State.is_text d.department_package.department_id r.department_id)
                (Journal.refused "department_actor_scope_mismatch")
            >> Journal.sha256 checksum_of (State.draft_value draft))
          _ h2 in
      let scope =
        in_scope Journal.department_agent d.department_package.department_id actor r l same role
          (ground (arith, h3)) in
      subst (Replays c index actor event_id) (ok-injective h4) (
        _,
        >>=-ok (or_fail (lookup id c.departments) Replay.invalid) _
              (found_again (lookup id c.departments) _ Replay.invalid found)
            ∙ checked-ok _ _ _ _ s (ground (arith, h3)) (ground (arith, h3))
                (ground (arith, eq_refl s, scope, h3)),
      )
