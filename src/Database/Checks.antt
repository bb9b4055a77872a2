-- ===== src/Database/Checks.antt =====
-- The CHECK constraints of persistence/models.py, as tests of a row. A constraint that lists the
-- members of an enumeration holds by the type of the column.
use payment_platform_quality.Prelude.{Bool, not, ◌&&◌, pos, ltb_ℤ, leb_ℤ, leb}
use payment_platform_quality.Domain.Types.{PaymentStatus, PaymentFlow}
use payment_platform_quality.Database.Types.{Payment, LedgerEntry, WebhookEvent}
use payment_platform_quality.Database.Rows.{ConfirmationReceipt, PaymentConfirmation, SettlementRow}
use payment_platform_quality.Database.Tables.{is_some}

-- `ck_payment_flow_metadata`
abbrev pub flow_metadata : PaymentFlow → Bool → Bool → Bool
flow_metadata PaymentFlow.synchronous has_reference has_expiry = not has_reference && not has_expiry
flow_metadata PaymentFlow.asynchronous_confirmation has_reference has_expiry =
    has_reference && has_expiry

-- `ck_payment_decline_reason_matches_status`
abbrev pub reason_matches : PaymentStatus → Bool → Bool
reason_matches PaymentStatus.declined has_reason = has_reason
reason_matches _ has_reason = not has_reason

-- The constraints on a row of `payments`.
unfoldable pub payment_checks : Payment → Bool
payment_checks p =
    ltb_ℤ (pos 0) p.amount
    && leb_ℤ (pos 0) p.authorized_amount
    && leb_ℤ p.authorized_amount p.amount
    && leb_ℤ (pos 0) p.captured_amount
    && leb_ℤ p.captured_amount p.authorized_amount
    && leb_ℤ (pos 0) p.refunded_amount
    && leb_ℤ p.refunded_amount p.captured_amount
    && flow_metadata p.payment_flow (is_some p.payment_reference) (is_some p.expires_at)
    && reason_matches p.status (is_some p.decline_reason)
    && leb 1 p.version

-- `ck_ledger_amount_positive`
abbrev pub ledger_checks : LedgerEntry → Bool
ledger_checks e = ltb_ℤ (pos 0) e.amount

-- `ck_webhook_version_positive`; the attempt count is a natural number.
abbrev pub event_checks : WebhookEvent → Bool
event_checks e = leb 1 e.aggregate_version

-- `ck_receipt_amount_positive`
abbrev pub receipt_checks : ConfirmationReceipt → Bool
receipt_checks r = ltb_ℤ (pos 0) r.amount

-- `ck_confirmation_amount_positive`
abbrev pub confirmation_checks : PaymentConfirmation → Bool
confirmation_checks c = ltb_ℤ (pos 0) c.amount

-- `ck_settlement_amount_positive` and `ck_settlement_line_positive`
abbrev pub settlement_checks : SettlementRow → Bool
settlement_checks s = ltb_ℤ (pos 0) s.amount && leb 1 s.line_number
