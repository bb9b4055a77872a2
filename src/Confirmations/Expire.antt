-- ===== src/Confirmations/Expire.antt =====
-- `expire_due_payments` and `recover_pending_confirmations` of services/confirmations.py.
use payment_platform_quality.Prelude.{
  ℕ, Bool, false, not, ◌&&◌, ◌||◌, Option, none, some, List, [], ◌∷◌, String, map, ltb, leb, ◌==◌,
  str_leb, select, sort_by, take,
}
use payment_platform_quality.Domain.Types.{PaymentStatus, same_status}
use payment_platform_quality.Failure.{Result, ok, err, value_error, ◌>>=◌, ◌>>◌, raise_if}
use payment_platform_quality.Database.Types.{Payment}
use payment_platform_quality.Database.Rows.{ConfirmationReceipt}
use payment_platform_quality.Database.Store.{Db}
use payment_platform_quality.Coordination.{
  Writer, begin_coordinated_write, protecting_receipt_exists,
}
use payment_platform_quality.Payments.Commands.{Dictionary, Reading, Fresh}
use payment_platform_quality.Payments.Commit.{as_concurrent}
use payment_platform_quality.Confirmations.Commands.{require_aware_utc, max_expiry_batch_size}
use payment_platform_quality.Confirmations.Dispositions.{apply_expiry_transition}
use payment_platform_quality.Confirmations.Accept.{transact}
use payment_platform_quality.Confirmations.Complete.{complete_confirmation}

-- `expires_at IS NOT NULL AND expires_at <= now`
abbrev pub has_passed : ℕ → Option ℕ → Bool
has_passed now none = false
has_passed now (some t) = leb t now

-- The WHERE clause of the expiry query.
unfoldable pub is_due : List ConfirmationReceipt → ℕ → Payment → Bool
is_due receipts now p =
    same_status p.status PaymentStatus.awaiting_payment
    && has_passed now p.expires_at
    && not (protecting_receipt_exists p receipts)

abbrev pub expiry_of : Option ℕ → ℕ
expiry_of none = 0
expiry_of (some t) = t

-- `ORDER BY expires_at, id`, among payments that have an expiry
abbrev pub expires_before : Payment → Payment → Bool
expires_before p q =
    ltb (expiry_of p.expires_at) (expiry_of q.expires_at)
    || ((expiry_of p.expires_at == expiry_of q.expires_at) && str_leb p.id q.id)

unfoldable pub due_payments : ℕ → ℕ → Db → List Payment
due_payments now limit db =
    take limit (sort_by expires_before (select (is_due db.receipts now) db.payments))

-- The loop over the batch; `event_ids` is what `uuid4` gives for the event of each payment. The
-- error of a payment carries its identifier (`active_payment_id`).
unfoldable pub expire_each : (String → String) → ℕ → List Payment → Db → Result Db
expire_each event_ids now [] db = ok db
expire_each event_ids now (p ∷ rows) db = elim (apply_expiry_transition p now (event_ids p.id) db) [
  | err e ↦ err (as_concurrent p.id e)
  | ok db' ↦ expire_each event_ids now rows db'
]

-- `ExpiryRunResult` is the list of the expired payments' identifiers.
unfoldable pub expire_due_payments :
    (String → String) → Writer → Reading → ℕ → Db → Result (List String) × Db
expire_due_payments event_ids writer now limit db = transact db (do
  current ← require_aware_utc now "now must be a timezone-aware datetime"
  raise_if (not (leb 1 limit && leb limit max_expiry_batch_size))
      (value_error "limit must be between 1 and 1000")
  begin_coordinated_write writer
  let due = due_payments current limit db
  staged ← expire_each event_ids current due db
  ok (map (λ p. p.id) due, staged))

-- `ORDER BY received_at, confirmation_id`
abbrev pub received_before : ConfirmationReceipt → ConfirmationReceipt → Bool
received_before r s =
    ltb r.received_at s.received_at
    || ((r.received_at == s.received_at) && str_leb r.confirmation_id s.confirmation_id)

unfoldable pub pending_ids : ℕ → Db → List String
pending_ids limit db =
    map (λ r. r.confirmation_id)
      (take limit (sort_by received_before (select (λ r. not r.completed) db.receipts)))

-- The loop of the recovery: each completion commits on its own, and the first that fails ends it.
-- `writers` and `supply` are the reservation and the new identifiers of each transaction.
unfoldable pub complete_each :
    (Dictionary → String)
    → (String → Writer)
    → (String → Fresh)
    → List String
    → Db
    → Result (Unit {0}) × Db
complete_each digest writers supply [] db = (ok tt, db)
complete_each digest writers supply (k ∷ ids) db =
    let r = complete_confirmation digest (writers k) k (supply k) db in
    elim r.0 [ err e ↦ (err e, r.1) | ok o ↦ complete_each digest writers supply ids r.1 ]

-- The result of the recovery with the identifiers that it has read.
abbrev pub with_ids : List String → Result (Unit {0}) × Db → Result (List String) × Db
with_ids ids (ok _, db) = (ok ids, db)
with_ids ids (err e, db) = (err e, db)

unfoldable pub recover_pending_confirmations :
    (Dictionary → String)
    → Writer
    → (String → Writer)
    → (String → Fresh)
    → ℕ
    → Db
    → Result (List String) × Db
recover_pending_confirmations digest reading writers supply limit db =
    elim (raise_if (not (leb 1 limit && leb limit 1000))
        (value_error "limit must be an integer between 1 and 1000")
      >> begin_coordinated_write reading) [
        | err e ↦ (err e, db)
        | ok _ ↦
            with_ids (pending_ids limit db)
              (complete_each digest writers supply (pending_ids limit db) db)
      ]
