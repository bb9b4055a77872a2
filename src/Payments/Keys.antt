-- ===== src/Payments/Keys.antt =====
-- What a claim of an idempotency key finds, by the record that is in the table.
use payment_platform_quality.Prelude.{
  ℕ, true, false, some, ◌≡◌, ◌≢◌, inl, inr, refl, String, eq_iff, eq_refl, arith,
}
use payment_platform_quality.Failure.{idempotency_conflict, Result-cases}
use payment_platform_quality.Database.Types.{Payment, IdempotencyRecord}
use payment_platform_quality.Database.Tables.{is_some, find}
use payment_platform_quality.Database.Store.{Db, find_claim, insert_claim}
use payment_platform_quality.Database.Inversion.{insert_claim_inv}
use payment_platform_quality.Webhooks.Outbox.{from_payment}
use payment_platform_quality.Payments.Commands.{Outcome, PaymentView}
use payment_platform_quality.Payments.Claims.{
  Claim, claim_idempotency_key, new_claim, find_idempotent_snapshot,
}
use payment_platform_quality.Payments.Commit.{completed}
use mathlib.Core.Path.{subst}

-- A claim that is held is the new one, and is in the table.
pub held_claim :
    (key fingerprint operation : String) (created_at : ℕ) (others : Db → Db) (db : Db)
    (c : IdempotencyRecord) (d : Db)
    → claim_idempotency_key key fingerprint operation created_at others db ≡ Claim.held c d
    → (c ≡ new_claim key fingerprint operation created_at) × (is_some (find_claim c.key d) ≡ true)
unfolding claim_idempotency_key find
held_claim key fingerprint operation created_at others db c d h =
    elim (Result-cases
      (insert_claim (new_claim key fingerprint operation created_at) (others db))) [
        | inr (e, failed) ↦ absurd (ground arith)
        | inl (d', inserted) ↦ ground (
          arith,
          eq_refl key,
          insert_claim_inv (new_claim key fingerprint operation created_at) (others db) d' inserted,
        )
      ]

-- A completed record under the same fingerprint is replayed, and nothing is written.
pub claim_replays :
    (key fingerprint operation : String) (created_at : ℕ) (others : Db → Db) (db : Db)
    (c : IdempotencyRecord) (p : Payment)
    → find_claim key db ≡ some (completed c p)
    → c.request_fingerprint ≡ fingerprint
    → claim_idempotency_key key fingerprint operation created_at others db
      ≡ Claim.replays (from_payment p) db
unfolding claim_idempotency_key find_idempotent_snapshot
claim_replays key fingerprint operation created_at others db c p found same =
    ground (arith, eq_iff c.request_fingerprint fingerprint)

-- A completed record under another fingerprint is a conflict.
pub claim_conflicts :
    (key fingerprint operation : String) (created_at : ℕ) (others : Db → Db) (db : Db)
    (c : IdempotencyRecord) (p : Payment)
    → find_claim key db ≡ some (completed c p)
    → c.request_fingerprint ≢ fingerprint
    → claim_idempotency_key key fingerprint operation created_at others db
      ≡ Claim.raises idempotency_conflict db
unfolding claim_idempotency_key find_idempotent_snapshot
claim_conflicts key fingerprint operation created_at others db c p found differ =
    ground (arith, eq_iff c.request_fingerprint fingerprint)

-- The record that a committed call has left under its key.
abbrev pub Leaves : String → String → Payment → Db → Type 0
Leaves key fingerprint p db =
    (c : IdempotencyRecord) × (find_claim key db ≡ some (completed c p))
    × (c.request_fingerprint ≡ fingerprint)

abbrev pub first_answer : Payment → Outcome
first_answer p = record { payment = PaymentView.written p; replayed = false }

abbrev pub replayed_answer : Payment → Outcome
replayed_answer p = record { payment = PaymentView.copied (from_payment p); replayed = true }

-- The claim that a call holds, once completed, is such a record.
pub completed-Leaves :
    (key fingerprint operation : String) (created_at : ℕ) (others : Db → Db) (db : Db)
    (c : IdempotencyRecord) (d db' : Db) (p : Payment)
    → claim_idempotency_key key fingerprint operation created_at others db ≡ Claim.held c d
    → find_claim c.key db' ≡ some (completed c p)
    → Leaves key fingerprint p db'
completed-Leaves key fingerprint operation created_at others db c d db' p claimed found =
    let (new, there) = held_claim key fingerprint operation created_at others db c d claimed in
    (
      new_claim key fingerprint operation created_at,
      subst (λ r. find_claim r.key db' ≡ some (completed r p)) new found,
      refl,
    )
