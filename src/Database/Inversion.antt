-- ===== src/Database/Inversion.antt =====
-- What a statement that the database accepted has found and done.
use payment_platform_quality.Prelude.{
  suc, true, false, none, some, List, ◌∷◌, ◌≡◌, String, Option-cases, inl, inr, arith,
}
use payment_platform_quality.Failure.{ok}
use payment_platform_quality.Database.Types.{Payment, LedgerEntry, IdempotencyRecord, WebhookEvent}
use payment_platform_quality.Database.Rows.{ConfirmationReceipt, PaymentConfirmation}
use payment_platform_quality.Database.Tables.{is_some, find, insert, replace}
use payment_platform_quality.Database.Checks.{payment_checks, ledger_checks, receipt_checks}
use payment_platform_quality.Database.Store.{
  Db, find_payment, find_claim, find_event, find_receipt, find_confirmation, insert_payment,
  insert_ledger, insert_claim, insert_event, update_payment, insert_receipt, insert_confirmation,
  version_taken, reference_taken,
}

pub insert_inv {ℓ} :
    {A : Type ℓ} (key : A → String) (a : A) (rows rows' : List A)
    → insert key a rows ≡ ok rows'
    → (rows' ≡ a ∷ rows) × (find key (key a) rows ≡ none)
unfolding insert
insert_inv key a rows rows' h = ground arith

pub insert_payment_inv :
    (p : Payment) (db db' : Db)
    → insert_payment p db ≡ ok db'
    → (db' ≡ record db { payments = p ∷ db.payments })
      × (find_payment p.id db ≡ none)
      × (payment_checks p ≡ true)
      × (reference_taken p.payment_reference db.payments ≡ false)
unfolding insert_payment insert
insert_payment_inv p db db' h = ground arith

pub insert_ledger_inv :
    (e : LedgerEntry) (db db' : Db)
    → insert_ledger e db ≡ ok db'
    → (db' ≡ record db { ledger_entries = e ∷ db.ledger_entries })
      × (is_some (find_payment e.payment_id db) ≡ true)
      × (ledger_checks e ≡ true)
unfolding insert_ledger insert
insert_ledger_inv e db db' h = ground arith

pub insert_claim_inv :
    (r : IdempotencyRecord) (db db' : Db)
    → insert_claim r db ≡ ok db'
    → (db' ≡ record db { idempotency_records = r ∷ db.idempotency_records })
      × (find_claim r.key db ≡ none)
unfolding insert_claim insert
insert_claim_inv r db db' h = ground arith

pub insert_event_inv :
    (e : WebhookEvent) (db db' : Db)
    → insert_event e db ≡ ok db'
    → (db' ≡ record db { webhook_events = e ∷ db.webhook_events })
      × (find_event e.id db ≡ none)
      × (version_taken e.payment_id e.aggregate_version db.webhook_events ≡ false)
unfolding insert_event insert
insert_event_inv e db db' h = ground arith

-- An UPDATE that went through has met the version that was loaded.
pub update_payment_inv :
    (loaded p next : Payment) (db db' : Db)
    → update_payment loaded p db ≡ ok (next, db')
    → (next ≡ record p { version = suc loaded.version })
      × (db' ≡ record db { payments = replace (λ q. q.id) next db.payments })
      × ((row : Payment) × (find_payment loaded.id db ≡ some row) × (row.version ≡ loaded.version))
      × (payment_checks next ≡ true)
unfolding update_payment
update_payment_inv loaded p next db db' h = elim (Option-cases (find_payment loaded.id db)) [
  | inl gone ↦ absurd (ground arith)
  | inr (row, found) ↦ (ground arith, ground arith, (row, found, ground arith), ground arith)
]

pub insert_receipt_inv :
    (r : ConfirmationReceipt) (db db' : Db)
    → insert_receipt r db ≡ ok db'
    → (db' ≡ record db { receipts = r ∷ db.receipts })
      × (find_receipt r.confirmation_id db ≡ none)
      × (receipt_checks r ≡ true)
unfolding insert_receipt insert
insert_receipt_inv r db db' h = ground arith

pub insert_confirmation_inv :
    (c : PaymentConfirmation) (db db' : Db)
    → insert_confirmation c db ≡ ok db'
    → (db' ≡ record db { confirmations = c ∷ db.confirmations })
      × (find_confirmation c.confirmation_id db ≡ none)
unfolding insert_confirmation insert
insert_confirmation_inv c db db' h = ground arith
