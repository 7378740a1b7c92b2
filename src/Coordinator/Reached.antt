-- ===== src/Coordinator/Reached.antt =====
-- The coordinators that commands reach: their journals pass their own checks, and every receipt
-- that they remember names a checksum of the journal.
use stadtstack.Base.{
  ℕ, ◌≤◌, String, true, not, ◌||◌, Option, none, some, List, ◌++◌, length, length-append, take,
  take-append, take-length, is_empty, ◌≡◌, refl, sym, ap, subst, arith, ◌∙◌, ok, guard, ◌>>◌,
  >>=-eq-ok, guard_then-eq-ok, ◌==◌, eq_refl, eqb, lookup, insert, Entries, insert-Entries,
  Entries-lookup, Entries-map,
}
use stadtstack.Value.{Value}
use stadtstack.Coordinator.Journal
use stadtstack.Coordinator.Commit
use stadtstack.Coordinator.Growth.{empty_where, event_types-Allowed, Grown, append_events-Grown}
use stadtstack.Coordinator.Receipts.{EndsIn, IsValid, ok-injective, >>=-ok}

guard_same : (s : String) → guard (s == s) Journal.journal_chain_invalid ≡ ok tt
guard_same s = ap (λ b. guard b Journal.journal_chain_invalid) (eq_refl s)

module _ (checksum_of : Value → String)
    (shaped : (v : Value) → Journal.is_sha256 (checksum_of v) ≡ true)
    (o : Journal.JournalOptions) where
  -- A receipt names the checksum of the journal at its version.
  pub record IsReceipt (es : List Journal.StoredEvent) (r : Commit.Receipt) : Type 0 where
    pub within : r.case_version ≤ length es
    pub names : EndsIn checksum_of shaped o (take r.case_version es) r.journal_head_checksum

  pub record CoordinatorInv (k : Commit.Coordinator) : Type 0 where
    pub valid : IsValid checksum_of shaped o k.journal
    pub receipts : Entries (λ key r. IsReceipt k.journal.events r.receipt) k.idempotency

  later-IsReceipt :
      (es added : List Journal.StoredEvent) (r : Commit.Receipt)
      → IsReceipt es r
      → IsReceipt (es ++ added) r
  later-IsReceipt es added r h = record {
    within = omega (arith, h.within, length-append es added);
    names =
        subst (λ fs. EndsIn checksum_of shaped o fs r.journal_head_checksum)
          (sym (take-append r.case_version es added h.within)) h.names;
  }

  -- A journal has the receipt that is made of it.
  own-IsReceipt :
      (before : ℕ) (s : Journal.JournalState)
      → IsValid checksum_of shaped o s
      → IsReceipt s.events (Commit.receipt_of checksum_of o before s)
  unfolding Commit.receipt_of
  own-IsReceipt before s v = record {
    within = omega arith;
    names =
        subst (λ es. EndsIn checksum_of shaped o es s.head_checksum) (sym (take-length s.events)) v;
  }

  admitted_lem :
      (k : Commit.Coordinator) (c : Commit.Command) (print : String) (j : Journal.JournalState)
      → CoordinatorInv k
      → Grown checksum_of shaped o k.journal j
      → (let receipt = Commit.receipt_of checksum_of o (length k.journal.events) j in
          CoordinatorInv (record {
            journal = j;
            idempotency =
                insert c.idempotency_key
                  (record { fingerprint = print; receipt = receipt })
                  k.idempotency;
          })
          × IsReceipt j.events receipt)
  admitted_lem k c print j inv grown =
      let own = own-IsReceipt (length k.journal.events) j grown.valid in
      (
        record {
          valid = grown.valid;
          receipts =
              insert-Entries (λ key r. IsReceipt j.events r.receipt) c.idempotency_key _
                k.idempotency own
                (Entries-map k.idempotency
                  (λ key r h.
                    subst (λ es. IsReceipt es r.receipt) (sym grown.events_are)
                      (later-IsReceipt k.journal.events grown.added r.receipt h))
                  inv.receipts);
        },
        own,
      )

  admit-Inv :
      (k : Commit.Coordinator) (c : Commit.Command) (print : String)
      {next : Commit.Coordinator × Commit.Receipt}
      → Commit.policy_gate o c.command_type ≡ ok tt
      → CoordinatorInv k
      → Commit.admit checksum_of o k c print ≡ ok next
      → CoordinatorInv next.0 × IsReceipt next.0.journal.events next.1
  unfolding Commit.admit
  admit-Inv k c print gate inv h =
      let (contents, h0, h1) =
        >>=-eq-ok
          (guard (eqb c.expected_case_version (length k.journal.events))
              Journal.case_version_conflict
            >> c.contents k.journal)
          _ h in
      let (j, h2, h3) =
        >>=-eq-ok
          (guard (not (Commit.creates_case c.command_type) || is_empty k.journal.events)
              (Journal.refused "topic_case_already_created")
            >> Commit.append_events checksum_of o c.actor (Commit.event_types o c.command_type)
                contents k.journal)
          _ h1 in
      let (created, grows) =
        guard_then-eq-ok (not (Commit.creates_case c.command_type) || is_empty k.journal.events) _ _
          h2 in
      let grown =
        append_events-Grown checksum_of shaped o c.actor (Commit.event_types o c.command_type)
          contents k.journal inv.valid
          (event_types-Allowed o c.command_type (length k.journal.events) gate
            (empty_where (Commit.creates_case c.command_type) k.journal.events created))
          grows in
      subst (λ next. CoordinatorInv next.0 × IsReceipt next.0.journal.events next.1)
        (ok-injective h3) (admitted_lem k c print j inv grown)

  recall-Inv :
      (k : Commit.Coordinator) (c : Commit.Command) (print : String)
      (held : Option Commit.Remembered) {next : Commit.Coordinator × Commit.Receipt}
      → lookup c.idempotency_key k.idempotency ≡ held
      → Commit.policy_gate o c.command_type ≡ ok tt
      → CoordinatorInv k
      → Commit.recall checksum_of o k c print held ≡ ok next
      → CoordinatorInv next.0 × IsReceipt next.0.journal.events next.1
  recall-Inv k c print none e gate inv h = admit-Inv k c print gate inv h
  recall-Inv k c print (some r) e gate inv h =
      let (same, done) = guard_then-eq-ok (r.fingerprint == print) _ _ h in
      subst (λ next. CoordinatorInv next.0 × IsReceipt next.0.journal.events next.1)
        (ok-injective done) (inv, Entries-lookup _ k.idempotency c.idempotency_key inv.receipts e)

  -- The coordinators that accepted commands reach.
  pub data CoordinatorReach : Commit.Coordinator → Type 0 where
    begun : CoordinatorReach (Commit.initial_coordinator checksum_of o)
    handled :
        {k : Commit.Coordinator} {next : Commit.Coordinator × Commit.Receipt}
        → CoordinatorReach k
        → (c : Commit.Command) → Commit.handle checksum_of o k c ≡ ok next
        → CoordinatorReach next.0

  handle-Inv :
      (k : Commit.Coordinator) (c : Commit.Command) {next : Commit.Coordinator × Commit.Receipt}
      → CoordinatorInv k
      → Commit.handle checksum_of o k c ≡ ok next
      → CoordinatorInv next.0 × IsReceipt next.0.journal.events next.1
  unfolding Commit.handle
  handle-Inv k c inv h =
      let (print, checks, h1) =
        >>=-eq-ok
          (Commit.command_gate o c
            >> Journal.check_journal checksum_of o k.journal
            >> o.replay_types k.journal.events
            >> Journal.sha256 checksum_of (Commit.fingerprint_value c))
          _ h in
      let (u, before, more) =
        >>=-eq-ok
          (Commit.command_gate o c
            >> Journal.check_journal checksum_of o k.journal
            >> o.replay_types k.journal.events)
          _ checks in
      let (w, chain, types) =
        >>=-eq-ok (Commit.command_gate o c >> Journal.check_journal checksum_of o k.journal) _
          before in
      let (x, gate, checked) = >>=-eq-ok (Commit.command_gate o c) _ chain in
      let (y, bound, policies) =
        >>=-eq-ok (Commit.binding_gate o c.case_id c.policy_version c.actor) _ gate in
      recall-Inv k c print (lookup c.idempotency_key k.idempotency) refl policies inv h1

  initial-Inv : CoordinatorInv (Commit.initial_coordinator checksum_of o)
  unfolding Commit.initial_coordinator Journal.check_chain
  initial-Inv = record { valid = refl; receipts = tt }

  reached-Inv : {k : Commit.Coordinator} → CoordinatorReach k → CoordinatorInv k
  reached-Inv begun = initial-Inv
  reached-Inv (handled {k = k} r c h) = (handle-Inv k c (reached-Inv r) h).0

  valid-passes :
      (s : Journal.JournalState)
      → IsValid checksum_of shaped o s
      → Journal.check_journal checksum_of o s ≡ ok tt
  unfolding Journal.check_journal
  valid-passes s v =
      >>=-ok
        (Journal.check_chain checksum_of o 0 (Journal.genesis_checksum checksum_of o.case_id)
          s.events)
        (λ prior. guard (s.head_checksum == prior) Journal.journal_chain_invalid) v
      ∙ guard_same s.head_checksum

  pub record IsSound (k : Commit.Coordinator) : Type 0 where
    pub passes : Journal.check_journal checksum_of o k.journal ≡ ok tt
    pub receipts : Entries (λ key r. IsReceipt k.journal.events r.receipt) k.idempotency

  -- In every state that accepted commands reach, the journal passes the checks of the replay up to
  -- the types of its events, and every receipt that is remembered has a version of the journal and
  -- the checksum of its events up to that version.
  pub coordinator-IsSound : {k : Commit.Coordinator} → CoordinatorReach k → IsSound k
  coordinator-IsSound {k = k} r =
      let h = reached-Inv r in
      record { passes = valid-passes k.journal h.valid; receipts = h.receipts }
