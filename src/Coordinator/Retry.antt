-- ===== src/Coordinator/Retry.antt =====
-- A command that was accepted can be sent again: it gives its receipt and changes nothing.
use stadtstack.Base.{String, true, some, List, ◌≡◌, ok, Result, lookup, insert}
use stadtstack.Value.{Value}
use stadtstack.Coordinator.Journal
use stadtstack.Coordinator.Commit

abbrev RemembersIn :
    List (String × Commit.Remembered) → Commit.Command → String → Commit.Receipt → Type 0
RemembersIn ledger c print r =
    lookup c.idempotency_key ledger ≡ some (record { fingerprint = print; receipt = r })

module _ (checksum_of : Value → String)
    (shaped : (v : Value) → Journal.is_sha256 (checksum_of v) ≡ true)
    (o : Journal.JournalOptions) where
  -- What an accepted command that is not seen before leaves.
  record Admitted (k : Commit.Coordinator) (c : Commit.Command) (print : String)
      (next : Commit.Coordinator × Commit.Receipt) : Type 0 where
    ledger_is :
        next.0.idempotency
        ≡ insert c.idempotency_key (record { fingerprint = print; receipt = next.1 }) k.idempotency

  abbrev pub fingerprint : Commit.Command → Result Journal.CoordinatorError String
  fingerprint c = Journal.sha256 checksum_of (Commit.fingerprint_value c)

  -- Commands that were accepted in between.
  pub data Later : Commit.Coordinator → Commit.Coordinator → Type 0 where
    at_once : {k : Commit.Coordinator} → Later k k
    after :
        {k l : Commit.Coordinator} {next : Commit.Coordinator × Commit.Receipt}
        → Later k l
        → (c : Commit.Command) → Commit.handle checksum_of o l c ≡ ok next
        → Later k next.0
