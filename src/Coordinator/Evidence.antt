-- ===== src/Coordinator/Evidence.antt =====
-- A head checksum is evidence of the whole journal before it.
use stadtstack.Base.{
  ℕ, suc, String, Bool, true, some, List, [], ◌∷◌, length, All, eqb, ◌≡◌, sym, ap, arith, ◌∙◌,
  Result, ok, guard, ◌>>◌, >>=-eq-ok, Option-cases, inl, inr, ◌==◌, eq_iff, guard_then-eq-ok,
  guard-eq-ok, ◌&&◌,
}
use stadtstack.Value.{Value}
use stadtstack.Coordinator.Canonical.{canonicalize}
use stadtstack.Coordinator.Journal
use stadtstack.Coordinator.Headers.{header_lem, type_text-injective, class_text-injective}

-- Two events that differ at most in how their payloads are written down.
pub record SameEvent (e f : Journal.StoredEvent) : Type 0 where
  pub same_version : e.case_version ≡ f.case_version
  pub same_case : e.case_id ≡ f.case_id
  pub same_id : e.event_id ≡ f.event_id
  pub same_type : e.event_type ≡ f.event_type
  pub same_prior : e.prior_event_checksum ≡ f.prior_event_checksum
  pub same_actor : e.actor_binding.actor_id ≡ f.actor_binding.actor_id
  pub same_class : e.actor_binding.actor_class ≡ f.actor_binding.actor_class
  pub same_payload_checksum : e.payload_checksum ≡ f.payload_checksum
  pub same_correction : e.correction_of ≡ f.correction_of
  pub same_payload : canonicalize e.payload ≡ canonicalize f.payload

abbrev pub SameEvents : List Journal.StoredEvent → List Journal.StoredEvent → Type 0
SameEvents [] [] = Unit
SameEvents [] (f ∷ fs) = ⊥
SameEvents (e ∷ es) [] = ⊥
SameEvents (e ∷ es) (f ∷ fs) = SameEvent e f × SameEvents es fs

ok-injective :
    {A : Type 0} {x y : A} → ◌≡◌ {A = Result Journal.CoordinatorError A} (ok x) (ok y) → x ≡ y
ok-injective h = cc

fourth : (a b c d e f g : Bool) → (a && b && c && d && e && f && g) ≡ true → d ≡ true
fourth a b c d e f g h = ground arith

-- The canonical values whose checksums an event has are among those of `P`.
pub record HashesIn (P : Value → Type 0) (e : Journal.StoredEvent) : Type 0 where
  pub header_in : (c : Value) → canonicalize (Journal.event_without_checksum e) ≡ some c → P c
  pub payload_in : (c : Value) → canonicalize e.payload ≡ some c → P c

module _ (checksum_of : Value → String) (P : Value → Type 0)
    (apart : (a b : Value) → P a → P b → checksum_of a ≡ checksum_of b → a ≡ b) where
  -- What an event that passes the checks has.
  record Sealed (next : String) (e : Journal.StoredEvent) : Type 0 where
    sealed : next ≡ e.event_checksum
    own : Journal.sha256 checksum_of (Journal.event_without_checksum e) ≡ ok e.event_checksum
    of_payload : Journal.sha256 checksum_of e.payload ≡ ok e.payload_checksum

  same_canonical :
      (a b : Value) {c d : String}
      → ((x : Value) → canonicalize a ≡ some x → P x)
      → ((y : Value) → canonicalize b ≡ some y → P y)
      → Journal.sha256 checksum_of a ≡ ok c
      → Journal.sha256 checksum_of b ≡ ok d
      → c ≡ d
      → canonicalize a ≡ canonicalize b
  unfolding Journal.sha256
  same_canonical a b p q h k e = elim (Option-cases (canonicalize a)) [
    | inl n ↦ absurd (ground arith)
    | inr (x, n) ↦ elim (Option-cases (canonicalize b)) [
      | inl m ↦ absurd (ground arith)
      | inr (y, m) ↦ n ∙ ap some (apart x y (p x n) (q y m) (ground arith)) ∙ sym m
    ]
  ]

  check_checksums-Sealed :
      (e : Journal.StoredEvent) {next : String}
      → Journal.check_checksums checksum_of e ≡ ok next
      → Sealed next e
  unfolding Journal.check_checksums
  check_checksums-Sealed e h =
      let (c, own, h1) =
        >>=-eq-ok (Journal.sha256 checksum_of (Journal.event_without_checksum e)) _ h in
      let (d, h2, h3) =
        >>=-eq-ok
          (guard (c == e.event_checksum) Journal.event_checksum_invalid
            >> Journal.sha256 checksum_of e.payload)
          _ h1 in
      let (same_own, paid) = guard_then-eq-ok (c == e.event_checksum) _ _ h2 in
      let (same_paid, done) = guard_then-eq-ok (d == e.payload_checksum) _ _ h3 in
      record {
        sealed = ok-injective (sym done);
        own = own ∙ ap ok ((eq_iff c e.event_checksum).0 same_own);
        of_payload = paid ∙ ap ok ((eq_iff d e.payload_checksum).0 same_paid);
      }

  -- Events that pass the checks with the same checksum after them are the same, and so is the
  -- checksum before them.
  Sealed-SameEvent :
      (e f : Journal.StoredEvent) {h k : String}
      → HashesIn P e
      → HashesIn P f
      → Sealed h e
      → Sealed k f
      → h ≡ k
      → SameEvent e f
  Sealed-SameEvent e f p q s t same =
      let head = header_lem e f (
        same_canonical (Journal.event_without_checksum e) (Journal.event_without_checksum f)
          p.header_in q.header_in s.own t.own (sym s.sealed ∙ same ∙ t.sealed)) in
      record {
        same_version = head.version;
        same_case = head.in_case;
        same_id = head.id;
        same_type = type_text-injective e.event_type f.event_type head.type;
        same_prior = head.prior;
        same_actor = head.actor;
        same_class =
            class_text-injective e.actor_binding.actor_class f.actor_binding.actor_class head.class;
        same_payload_checksum = head.payload_checksum;
        same_correction = head.correction;
        same_payload =
            same_canonical e.payload f.payload p.payload_in q.payload_in s.of_payload t.of_payload
              head.payload_checksum;
      }

  check_place-prior :
      (o : Journal.JournalOptions) (index : ℕ) (prior : String) (e : Journal.StoredEvent)
      {u : Unit {0}}
      → Journal.check_place o index prior e ≡ ok u
      → e.prior_event_checksum ≡ prior
  unfolding Journal.check_place
  check_place-prior o index prior e h =
      let (u, h1, h2) =
        >>=-eq-ok
          (guard (Journal.is_chained o index prior e) _
            >> guard (Journal.policy_allows o e.event_type) _)
          _ h in
      let (chained, h3) = guard_then-eq-ok (Journal.is_chained o index prior e) _ _ h1 in
      (eq_iff e.prior_event_checksum prior).0 (
        fourth (e.schema_version == "case_event_v1") (e.case_id == o.case_id)
          (eqb e.case_version (suc index)) (e.prior_event_checksum == prior)
          (Journal.is_sha256 e.payload_checksum) (Journal.is_sha256 e.event_checksum)
          (e.event_id == Journal.event_id_of o.case_id (suc index)) chained)

  events_same :
      (o p : Journal.JournalOptions) (i j : ℕ) (es fs : List Journal.StoredEvent) (a b : String)
      {h : String}
      → All (HashesIn P) es
      → All (HashesIn P) fs
      → length es ≡ length fs
      → Journal.check_chain checksum_of o i a es ≡ ok h
      → Journal.check_chain checksum_of p j b fs ≡ ok h
      → (a ≡ b) × SameEvents es fs
  unfolding Journal.check_chain Journal.check_event
  events_same o p i j [] [] a b x y n h k = (ok-injective (h ∙ sym k), tt)
  events_same o p i j [] (f ∷ fs) a b x y n h k = absurd (omega (arith, n))
  events_same o p i j (e ∷ es) [] a b x y n h k = absurd (omega (arith, n))
  events_same o p i j (e ∷ es) (f ∷ fs) a b x y n h k =
      let (c, first, rest) = >>=-eq-ok (Journal.check_event checksum_of o i a e) _ h in
      let (d, first', rest') = >>=-eq-ok (Journal.check_event checksum_of p j b f) _ k in
      let (u, place, s) = >>=-eq-ok (Journal.check_place o i a e) _ first in
      let (u', place', t) = >>=-eq-ok (Journal.check_place p j b f) _ first' in
      let (same, others) =
        events_same o p (suc i) (suc j) es fs c d x.1 y.1 (omega (arith, n)) rest rest' in
      let event =
        Sealed-SameEvent e f x.0 y.0 (check_checksums-Sealed e s) (check_checksums-Sealed f t)
          same in
      (
        sym (check_place-prior o i a e place) ∙ event.same_prior ∙ check_place-prior p j b f place',
        (event, others),
      )

  -- Where no two of the canonical values that are hashed have the same checksum: two journals that
  -- pass the checks, have as many events as each other and the same head checksum, have the same
  -- events, up to the order of the keys of their payloads.
  pub head-SameEvents :
      (o p : Journal.JournalOptions) (s t : Journal.JournalState)
      → Journal.check_journal checksum_of o s ≡ ok tt
      → Journal.check_journal checksum_of p t ≡ ok tt
      → All (HashesIn P) s.events
      → All (HashesIn P) t.events
      → length s.events ≡ length t.events
      → s.head_checksum ≡ t.head_checksum
      → SameEvents s.events t.events
  unfolding Journal.check_journal
  head-SameEvents o p s t h k x y n same =
      let (a, chain, g) =
        >>=-eq-ok
          (Journal.check_chain checksum_of o 0 (Journal.genesis_checksum checksum_of o.case_id)
            s.events)
          _ h in
      let (b, chain', g') =
        >>=-eq-ok
          (Journal.check_chain checksum_of p 0 (Journal.genesis_checksum checksum_of p.case_id)
            t.events)
          _ k in
      let at = (eq_iff s.head_checksum a).0 (guard-eq-ok _ _ g) in
      let at' = (eq_iff t.head_checksum b).0 (guard-eq-ok _ _ g') in
      (events_same o p 0 0 s.events t.events _ _ x y n chain
        (chain' ∙ ap ok (sym (sym at ∙ same ∙ at')))).1
