-- ===== src/Confirmations/Dispositions.antt =====
-- `_classify`, `_apply_disposition` and the expiry transition of services/confirmations.py.
use payment_platform_quality.Prelude.{ℕ, not, Option, none, some, String, leb, eqb_ℤ, if◌then◌else◌}
use payment_platform_quality.Domain.Types.{PaymentStatus, same_status}
use payment_platform_quality.Domain.Operations.{capture_confirmation, expire}
use payment_platform_quality.Failure.{Result, ok, assertion_error, ◌>>=◌, or_raise}
use payment_platform_quality.Database.Types.{Payment, LedgerEntry, WebhookEventType}
use payment_platform_quality.Database.Rows.{ConfirmationDisposition}
use payment_platform_quality.Database.Store.{Db, update_payment, insert_ledger}
use payment_platform_quality.Coordination.{same_currency, has_protecting_receipt}
use payment_platform_quality.Webhooks.Outbox.{create_outbox_event}
use payment_platform_quality.Payments.Commands.{Fresh}
use payment_platform_quality.Payments.Lifecycle.{state_of, with_state}
use payment_platform_quality.Confirmations.Commands.{ConfirmationCommand}

-- The tests of an awaiting payment that has the expiry `expires_at`.
abbrev pub classify_awaiting : Payment → ConfirmationCommand → ℕ → ℕ → ConfirmationDisposition
classify_awaiting p command received_at expires_at =
    if leb expires_at received_at
    then ConfirmationDisposition.late
    else if not (eqb_ℤ command.amount p.amount)
    then ConfirmationDisposition.amount_mismatch
    else if not (same_currency command.currency p.currency)
    then ConfirmationDisposition.currency_mismatch
    else ConfirmationDisposition.applied

unfoldable pub classify : Option Payment → ConfirmationCommand → ℕ → Result ConfirmationDisposition
classify none command received_at = ok ConfirmationDisposition.unknown_reference
classify (some p) command received_at =
    if same_status p.status PaymentStatus.expired
    then ok ConfirmationDisposition.late
    else if not (same_status p.status PaymentStatus.awaiting_payment)
    then ok ConfirmationDisposition.already_resolved
    else do
      expires_at ← or_raise p.expires_at assertion_error
      ok (classify_awaiting p command received_at expires_at)

-- `_apply_expiry_transition`: UPDATE and event in the open transaction.
unfoldable pub apply_expiry_transition : Payment → ℕ → String → Db → Result Db
apply_expiry_transition p occurred_at event_id db = do
  current ← state_of p
  next ← expire current
  updated ← update_payment p (with_state p next occurred_at) db
  create_outbox_event event_id updated.0 WebhookEventType.expired updated.1

abbrev pub confirmation_entry : Payment → ConfirmationCommand → ℕ → Fresh → LedgerEntry
confirmation_entry p command received_at fresh = record {
  id = fresh.ledger_id;
  payment_id = p.id;
  operation = "CONFIRMATION_CAPTURE";
  amount = command.amount;
  currency = p.currency;
  created_at = received_at;
}

-- The branch for a confirmation that is applied.
unfoldable pub apply_capture : Payment → ConfirmationCommand → ℕ → Fresh → Db → Result Db
apply_capture p command received_at fresh db = do
  current ← state_of p
  next ← capture_confirmation current command.amount
  updated ← update_payment p (with_state p next received_at) db
  with_entry ← insert_ledger (confirmation_entry p command received_at fresh) updated.1
  create_outbox_event fresh.event_id updated.0 WebhookEventType.captured with_entry

-- The branch for a confirmation that is late.
unfoldable pub apply_late : Payment → ℕ → Fresh → Db → Result Db
apply_late p received_at fresh db =
    if not (same_status p.status PaymentStatus.awaiting_payment)
    then ok db
    else if has_protecting_receipt p.id db
    then ok db
    else apply_expiry_transition p received_at fresh.event_id db

unfoldable pub apply_disposition :
    Option Payment → ConfirmationCommand → ConfirmationDisposition → ℕ → Fresh → Db → Result Db
apply_disposition none command disposition received_at fresh db = ok db
apply_disposition (some p) command ConfirmationDisposition.applied received_at fresh db =
    apply_capture p command received_at fresh db
apply_disposition (some p) command ConfirmationDisposition.late received_at fresh db =
    apply_late p received_at fresh db
apply_disposition (some p) command _ received_at fresh db = ok db
