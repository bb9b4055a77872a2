-- ===== src/Confirmations/Accept.antt =====
-- `accept_confirmation` of services/confirmations.py: the durable receipt.
use payment_platform_quality.Prelude.{ℕ, Bool, true, false, not, Option, none, some, String, str_eq}
use payment_platform_quality.Failure.{
  Result, ok, err, confirmation_id_conflict, ◌>>=◌, ◌>>◌, raise_if,
}
use payment_platform_quality.Database.Rows.{ConfirmationReceipt}
use payment_platform_quality.Database.Store.{Db, find_receipt, insert_receipt}
use payment_platform_quality.Coordination.{Writer, begin_coordinated_write}
use payment_platform_quality.Payments.Commands.{Dictionary, Reading}
use payment_platform_quality.Confirmations.Commands.{
  ConfirmationCommand, confirmation_payload, require_aware_utc,
}

abbrev pub new_receipt : String → ConfirmationCommand → ℕ → ConfirmationReceipt
new_receipt fingerprint c received_at = record {
  confirmation_id = c.confirmation_id;
  request_fingerprint = fingerprint;
  payment_reference = c.payment_reference;
  amount = c.amount;
  currency = c.currency;
  received_at = received_at;
  completed = false;
}

-- The `try` block: whether the identity was there, and the database to commit.
unfoldable pub stage_receipt :
    Option ConfirmationReceipt → String → ConfirmationCommand → Reading → Db → Result (Bool × Db)
stage_receipt (some r) fingerprint command clock db = do
  raise_if (not (str_eq r.request_fingerprint fingerprint)) confirmation_id_conflict
  ok (true, db)
stage_receipt none fingerprint command clock db = do
  received_at ← require_aware_utc clock "Confirmation clock must be a timezone-aware datetime"
  with_receipt ← insert_receipt (new_receipt fingerprint command received_at) db
  ok (false, with_receipt)

-- A transaction that commits what it has staged, or rolls back.
abbrev pub transact {ℓ} : {A : Type ℓ} → Db → Result (A × Db) → Result A × Db
transact db (ok (a, staged)) = (ok a, staged)
transact db (err e) = (err e, db)

unfoldable pub accept_confirmation :
    (Dictionary → String) → Writer → ConfirmationCommand → Reading → Db → Result Bool × Db
unfolding stage_receipt
accept_confirmation digest writer command clock db = transact db (do
  begin_coordinated_write writer
  stage_receipt (find_receipt command.confirmation_id db) (digest (confirmation_payload command))
      command clock db)
