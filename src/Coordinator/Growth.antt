-- ===== src/Coordinator/Growth.antt =====
-- What a command appends to a valid journal leaves it valid.
use stadtstack.Base.{
  ℕ, suc, String, Bool, true, not, ◌||◌, List, [], ◌∷◌, ◌++◌, length, length-append, is_empty, ◌≡◌,
  refl, sym, ap, subst, arith, ◌∙◌, ok, >>=-eq-ok,
}
use stadtstack.Value.{Value}
use stadtstack.Coordinator.Journal
use stadtstack.Coordinator.Commit
use stadtstack.Coordinator.Receipts.{IsValid, appended, ok-injective}

append_nil : (xs : List Journal.StoredEvent) → xs ≡ xs ++ []
append_nil [] = refl
append_nil (x ∷ xs) = ap (◌∷◌ x) (append_nil xs)

append_one :
    (xs : List Journal.StoredEvent) (e : Journal.StoredEvent) (ys : List Journal.StoredEvent)
    → (xs ++ e ∷ []) ++ ys ≡ xs ++ e ∷ ys
append_one [] e ys = refl
append_one (x ∷ xs) e ys = ap (◌∷◌ x) (append_one xs e ys)

pub empty_where :
    (b : Bool) (es : List Journal.StoredEvent)
    → (not b || is_empty es) ≡ true
    → b ≡ true
    → length es ≡ 0
empty_where b es h e = ground arith

-- The types that the policies allow from an index on.
pub Allowed : Journal.JournalOptions → ℕ → List Journal.EventType → Type 0
Allowed o i [] = Unit
Allowed o i (t ∷ ts) =
    (Journal.policy_allows o t ≡ true)
    × (Journal.synthetic_allows o i t ≡ true)
    × Allowed o (suc i) ts

pub event_types-Allowed :
    (o : Journal.JournalOptions) (c : Commit.CommandType) (i : ℕ) {u : Unit {0}}
    → Commit.policy_gate o c ≡ ok u
    → (Commit.creates_case c ≡ true → i ≡ 0)
    → Allowed o i (Commit.event_types o c)
unfolding Allowed
event_types-Allowed o c i h k = ground arith

module _ (checksum_of : Value → String)
    (shaped : (v : Value) → Journal.is_sha256 (checksum_of v) ≡ true)
    (o : Journal.JournalOptions) where
  -- A journal that has grown from another, and still passes the checks.
  pub record Grown (s t : Journal.JournalState) : Type 0 where
    pub added : List Journal.StoredEvent
    pub events_are : t.events ≡ s.events ++ added
    pub valid : IsValid checksum_of shaped o t

  pub append_events-Grown :
      (actor : Journal.ActorBinding) (ts : List Journal.EventType) (cs : List Commit.Content)
      (s : Journal.JournalState) {t : Journal.JournalState}
      → IsValid checksum_of shaped o s
      → Allowed o (length s.events) ts
      → Commit.append_events checksum_of o actor ts cs s ≡ ok t
      → Grown s t
  unfolding Commit.append_events Allowed
  append_events-Grown actor [] cs s v a h =
      subst (Grown s) (ok-injective h)
        (record { added = []; events_are = append_nil s.events; valid = v })
  append_events-Grown actor (t ∷ ts) [] s v a h =
      subst (Grown s) (ok-injective h)
        (record { added = []; events_are = append_nil s.events; valid = v })
  append_events-Grown actor (t ∷ ts) (c ∷ cs) s v a h =
      let (next, one, rest) =
        >>=-eq-ok (Journal.append_event checksum_of o s actor t c.payload c.correction_of) _ h in
      let first = appended checksum_of shaped o s actor t c.payload c.correction_of v a.0 a.1 one in
      let longer : length next.events ≡ suc (length s.events) =
        ap length first.events_are ∙ length-append s.events (first.added ∷ []) ∙ omega arith in
      let more =
        append_events-Grown actor ts cs next first.valid
          (subst (λ n. Allowed o n ts) (sym longer) a.2) rest in
      record {
        added = first.added ∷ more.added;
        events_are =
            more.events_are
            ∙ ap (λ es. es ++ more.added) first.events_are
            ∙ append_one s.events first.added more.added;
        valid = more.valid;
      }
