-- ===== src/Coordinator/Receipts.antt =====
-- Every journal that commands build passes its own checks, and every receipt names a checksum of it.
use stadtstack.Base.{
  ℕ, suc, ◌+◌, String, Bool, true, ◌&&◌, Option, List, [], ◌∷◌, ◌++◌, length, ◌≡◌, refl, sym, ap,
  subst, arith, ◌∙◌, Result, ok, guard, ◌>>=◌, ◌>>◌, >>=-eq-ok, Option-cases, inl, inr, ◌==◌,
  eq_iff, eq_refl,
}
use stadtstack.Value.{Value}
use stadtstack.Coordinator.Canonical.{canonicalize}
use stadtstack.Coordinator.Journal

pub >>=-ok :
    {E A B : Type 0} (m : Result E A) (f : A → Result E B) {x : A} → m ≡ ok x → (m >>= f) ≡ f x
>>=-ok m f e = ap (λ n. n >>= f) e

pub >>-ok : {E B : Type 0} (m : Result E (Unit {0})) (n : Result E B) → m ≡ ok tt → (m >> n) ≡ n
>>-ok m n e = ap (λ k. k >> n) e

guard_ok : (b : Bool) (e : Journal.CoordinatorError) → b ≡ true → guard b e ≡ ok tt
guard_ok b e h = ground arith

guards_ok :
    (a b c : Bool) (x y z : Journal.CoordinatorError)
    → a ≡ true
    → b ≡ true
    → c ≡ true
    → (guard a x >> guard b y >> guard c z) ≡ ok tt
guards_ok a b c x y z h k l = ground arith

all_seven :
    (a b c d e f g : Bool)
    → a ≡ true
    → b ≡ true
    → c ≡ true
    → d ≡ true
    → e ≡ true
    → f ≡ true
    → g ≡ true
    → (a && b && c && d && e && f && g) ≡ true
all_seven a b c d e f g ha hb hc hd he hf hg = ground arith

pub ok-injective :
    {A : Type 0} {x y : A} → ◌≡◌ {A = Result Journal.CoordinatorError A} (ok x) (ok y) → x ≡ y
ok-injective h = cc

module _ (checksum_of : Value → String)
    (shaped : (v : Value) → Journal.is_sha256 (checksum_of v) ≡ true) where
  -- The chain of the events ends in the head.
  abbrev pub EndsIn : Journal.JournalOptions → List Journal.StoredEvent → String → Type 0
  EndsIn o es head =
      Journal.check_chain checksum_of o 0 (Journal.genesis_checksum checksum_of o.case_id) es
      ≡ ok head

  abbrev pub IsValid : Journal.JournalOptions → Journal.JournalState → Type 0
  IsValid o s = EndsIn o s.events s.head_checksum

  -- A journal with one more event.
  pub record Appended (o : Journal.JournalOptions) (s t : Journal.JournalState) : Type 0 where
    pub added : Journal.StoredEvent
    pub events_are : t.events ≡ s.events ++ added ∷ []
    pub valid : IsValid o t

  -- One more event at the end.
  chain_one_more :
      (o : Journal.JournalOptions) (es : List Journal.StoredEvent) (i n : ℕ) (p : String)
      (e : Journal.StoredEvent) {q r : String}
      → n ≡ length es + i
      → Journal.check_chain checksum_of o i p es ≡ ok q
      → Journal.check_event checksum_of o n q e ≡ ok r
      → Journal.check_chain checksum_of o i p (es ++ e ∷ []) ≡ ok r
  unfolding Journal.check_chain
  chain_one_more o [] i n p e {q} {r} at h k =
      let here : n ≡ i = omega (arith, at) in
      >>=-ok (Journal.check_event checksum_of o i p e) (λ next. ok next)
        (subst (λ m. Journal.check_event checksum_of o m p e ≡ ok r) here
          (subst (λ s. Journal.check_event checksum_of o n s e ≡ ok r) (sym (ok-injective h)) k))
  chain_one_more o (f ∷ es) i n p e at h k =
      let (c, first, rest) = >>=-eq-ok (Journal.check_event checksum_of o i p f) _ h in
      >>=-ok (Journal.check_event checksum_of o i p f)
        (λ next. Journal.check_chain checksum_of o (suc i) next (es ++ e ∷ [])) first
      ∙ chain_one_more o es (suc i) n c e (omega (arith, at)) rest k

  check_checksums-ok :
      (e : Journal.StoredEvent)
      → Journal.sha256 checksum_of (Journal.event_without_checksum e) ≡ ok e.event_checksum
      → Journal.sha256 checksum_of e.payload ≡ ok e.payload_checksum
      → Journal.check_checksums checksum_of e ≡ ok e.event_checksum
  unfolding Journal.check_checksums
  check_checksums-ok e own paid =
      >>=-ok (Journal.sha256 checksum_of (Journal.event_without_checksum e)) _ own
      ∙ >>=-ok
          (guard (e.event_checksum == e.event_checksum) Journal.event_checksum_invalid
            >> Journal.sha256 checksum_of e.payload)
          _
          (>>-ok (guard (e.event_checksum == e.event_checksum) Journal.event_checksum_invalid) _
              (guard_ok _ _ (eq_refl e.event_checksum))
            ∙ paid)
      ∙ >>-ok (guard (e.payload_checksum == e.payload_checksum) Journal.payload_checksum_invalid) _
          (guard_ok _ _ (eq_refl e.payload_checksum))

  check_event-ok :
      (o : Journal.JournalOptions) (i : ℕ) (prior : String) (e : Journal.StoredEvent)
      → Journal.is_chained o i prior e ≡ true
      → Journal.policy_allows o e.event_type ≡ true
      → Journal.synthetic_allows o i e.event_type ≡ true
      → Journal.sha256 checksum_of (Journal.event_without_checksum e) ≡ ok e.event_checksum
      → Journal.sha256 checksum_of e.payload ≡ ok e.payload_checksum
      → Journal.check_event checksum_of o i prior e ≡ ok e.event_checksum
  unfolding Journal.check_event Journal.check_place
  check_event-ok o i prior e a b c own paid =
      >>-ok
        (guard (Journal.is_chained o i prior e) Journal.journal_chain_invalid
          >> guard (Journal.policy_allows o e.event_type) Journal.journal_chain_invalid
          >> guard (Journal.synthetic_allows o i e.event_type)
              Journal.synthetic_case_continuation_unavailable)
        _ (guards_ok _ _ _ _ _ _ a b c)
      ∙ check_checksums-ok e own paid

  sha256-shaped :
      (v : Value) {c : String} → Journal.sha256 checksum_of v ≡ ok c → Journal.is_sha256 c ≡ true
  unfolding Journal.sha256
  sha256-shaped v h = elim (Option-cases (canonicalize v)) [
    | inl n ↦ absurd (ground arith)
    | inr (x, n) ↦ ground (arith, shaped x)
  ]

  head_of_events :
      (o : Journal.JournalOptions) (es : List Journal.StoredEvent) (head : String)
      → EndsIn o es head
      → Journal.head_of checksum_of o.case_id (record { events = es; head_checksum = head }) ≡ head
  unfolding Journal.check_chain
  head_of_events o [] head h = ok-injective h
  head_of_events o (e ∷ es) head h = ground arith

  head_lem :
      (o : Journal.JournalOptions) (s : Journal.JournalState)
      → IsValid o s
      → Journal.head_of checksum_of o.case_id s ≡ s.head_checksum
  head_lem o s v = head_of_events o s.events s.head_checksum v

  -- An event that was appended passes the checks at its index.
  pub appended :
      (o : Journal.JournalOptions) (s : Journal.JournalState) (actor : Journal.ActorBinding)
      (type : Journal.EventType) (payload : Value) (correction : Option String)
      {t : Journal.JournalState}
      → IsValid o s
      → Journal.policy_allows o type ≡ true
      → Journal.synthetic_allows o (length s.events) type ≡ true
      → Journal.append_event checksum_of o s actor type payload correction ≡ ok t
      → Appended o s t
  unfolding Journal.append_event
  appended o s actor type payload correction v allowed synthetic h =
      let (payload_checksum, paid, h1) = >>=-eq-ok (Journal.sha256 checksum_of payload) _ h in
      let e = Journal.unsealed checksum_of o s actor type payload correction payload_checksum in
      let (checksum, own, h2) =
        >>=-eq-ok (Journal.sha256 checksum_of (Journal.event_without_checksum e)) _ h1 in
      let sealed = record e { event_checksum = checksum } in
      let prior : Journal.head_of checksum_of o.case_id s ≡ s.head_checksum = head_lem o s v in
      let chained : Journal.is_chained o (length s.events) s.head_checksum sealed ≡ true =
        all_seven _ _ _ _ _ _ _ (eq_refl "case_event_v1") (eq_refl o.case_id) (ground arith)
          ((eq_iff (Journal.head_of checksum_of o.case_id s) s.head_checksum).1 prior)
          (sha256-shaped payload paid) (sha256-shaped (Journal.event_without_checksum e) own)
          (eq_refl (Journal.event_id_of o.case_id (suc (length s.events)))) in
      let k =
        check_event-ok o (length s.events) s.head_checksum sealed chained allowed synthetic own
          paid in
      subst (Appended o s) (ok-injective h2) (record {
        added = sealed;
        events_are = refl;
        valid = chain_one_more o s.events 0 (length s.events) _ sealed (omega arith) v k;
      })
