-- ===== src/Database/Store.antt =====
-- The database: one list of rows for each table, and the statements of the services. A statement
-- that the database refuses raises `integrity_error`; an UPDATE of a payment whose version is no
-- longer the loaded one raises `stale_data` (the mapper's `version_id_col`).
use payment_platform_quality.Prelude.{
  ℕ, suc, Bool, false, not, ◌&&◌, ◌||◌, Option, none, some, List, [], ◌∷◌, String, str_eq, ◌==◌,
  if◌then◌else◌,
}
use payment_platform_quality.Failure.{
  Result, ok, integrity_error, stale_data, ◌>>=◌, ◌>>◌, raise_if, or_raise,
}
use payment_platform_quality.Database.Types.{Payment, LedgerEntry, IdempotencyRecord, WebhookEvent}
use payment_platform_quality.Database.Rows.{
  DeliveryAttempt, ProcessedWebhook, ConfirmationReceipt, PaymentConfirmation, MerchantProjection,
  SettlementBatch, SettlementRow, ConfirmationReport,
}
use payment_platform_quality.Database.Tables.{is_some, find, insert, replace}
use payment_platform_quality.Database.Checks.{
  payment_checks, ledger_checks, event_checks, receipt_checks, confirmation_checks,
}

pub record Db : Type 0 where
  pub payments : List Payment
  pub ledger_entries : List LedgerEntry
  pub idempotency_records : List IdempotencyRecord
  pub webhook_events : List WebhookEvent
  pub delivery_attempts : List DeliveryAttempt
  pub processed_webhooks : List ProcessedWebhook
  pub projections : List MerchantProjection
  pub receipts : List ConfirmationReceipt
  pub confirmations : List PaymentConfirmation
  pub batches : List SettlementBatch
  pub settlements : List SettlementRow
  pub reports : List ConfirmationReport

abbrev pub empty_db : Db
empty_db = record {
  payments = [];
  ledger_entries = [];
  idempotency_records = [];
  webhook_events = [];
  delivery_attempts = [];
  processed_webhooks = [];
  projections = [];
  receipts = [];
  confirmations = [];
  batches = [];
  settlements = [];
  reports = [];
}

abbrev pub find_payment : String → Db → Option Payment
find_payment k db = find (λ p. p.id) k db.payments

abbrev pub find_claim : String → Db → Option IdempotencyRecord
find_claim k db = find (λ r. r.key) k db.idempotency_records

abbrev pub find_event : String → Db → Option WebhookEvent
find_event k db = find (λ e. e.id) k db.webhook_events

abbrev pub find_receipt : String → Db → Option ConfirmationReceipt
find_receipt k db = find (λ r. r.confirmation_id) k db.receipts

abbrev pub find_confirmation : String → Db → Option PaymentConfirmation
find_confirmation k db = find (λ c. c.confirmation_id) k db.confirmations

abbrev pub is_reference : String → Option String → Bool
is_reference k none = false
is_reference k (some r) = str_eq r k

-- `_payment_by_reference`: the reference column is unique.
unfoldable pub payment_by_reference : String → List Payment → Option Payment
payment_by_reference k [] = none
payment_by_reference k (p ∷ rows) =
    if is_reference k p.payment_reference then some p else payment_by_reference k rows

abbrev pub reference_taken : Option String → List Payment → Bool
reference_taken none rows = false
reference_taken (some r) rows = is_some (payment_by_reference r rows)

unfoldable pub insert_payment : Payment → Db → Result Db
insert_payment p db = do
  raise_if (not (payment_checks p) || reference_taken p.payment_reference db.payments)
      integrity_error
  rows ← insert (λ q. q.id) p db.payments
  ok (record db { payments = rows })

unfoldable pub insert_ledger : LedgerEntry → Db → Result Db
insert_ledger e db = do
  raise_if (not (ledger_checks e) || not (is_some (find_payment e.payment_id db))) integrity_error
  rows ← insert (λ q. q.id) e db.ledger_entries
  ok (record db { ledger_entries = rows })

unfoldable pub insert_claim : IdempotencyRecord → Db → Result Db
insert_claim r db = do
  rows ← insert (λ q. q.key) r db.idempotency_records
  ok (record db { idempotency_records = rows })

-- `uq_webhook_payment_version`
unfoldable pub version_taken : String → ℕ → List WebhookEvent → Bool
version_taken k n [] = false
version_taken k n (e ∷ rows) =
    (str_eq e.payment_id k && (e.aggregate_version == n)) || version_taken k n rows

unfoldable pub insert_event : WebhookEvent → Db → Result Db
insert_event e db = do
  raise_if
      (not (event_checks e)
        || not (is_some (find_payment e.payment_id db))
        || version_taken e.payment_id e.aggregate_version db.webhook_events)
      integrity_error
  rows ← insert (λ q. q.id) e db.webhook_events
  ok (record db { webhook_events = rows })

-- The UPDATE of a loaded payment: it is refused where the row has another version by now, and
-- counts the version up. The new row is returned.
unfoldable pub update_payment : Payment → Payment → Db → Result (Payment × Db)
update_payment loaded p db = do
  row ← or_raise (find_payment loaded.id db) stale_data
  raise_if (not (row.version == loaded.version)) stale_data
  let next = record p { version = suc loaded.version }
  raise_if (not (payment_checks next)) integrity_error
  ok (next, record db { payments = replace (λ q. q.id) next db.payments })

unfoldable pub insert_receipt : ConfirmationReceipt → Db → Result Db
insert_receipt r db = do
  raise_if (not (receipt_checks r)) integrity_error
  rows ← insert (λ q. q.confirmation_id) r db.receipts
  ok (record db { receipts = rows })

unfoldable pub insert_confirmation : PaymentConfirmation → Db → Result Db
insert_confirmation c db = do
  raise_if (not (confirmation_checks c)) integrity_error
  rows ← insert (λ q. q.confirmation_id) c db.confirmations
  ok (record db { confirmations = rows })
