-- ===== src/Webhooks/Published.antt =====
-- The events that `create_outbox_event` of services/webhooks.py stages are events that its
-- consumer accepts.
use payment_platform_quality.Prelude.{pos, true, false, String, str_eq, ◌≡◌, refl, arith}
use payment_platform_quality.Domain.Types.{PaymentStatus, PaymentFlow}
use payment_platform_quality.Database.Types.{Payment, WebhookEventType}
use payment_platform_quality.Database.Checks.{payment_checks}
use payment_platform_quality.Webhooks.Outbox.{outbox_event}
use payment_platform_quality.Webhooks.Valid.{IsFilled, IsValidEvent}

-- The texts of a row that are never empty.
abbrev pub IsNamed : Payment → Type 0
IsNamed p =
    (str_eq p.id "" ≡ false)
    × (str_eq p.merchant_reference "" ≡ false)
    × IsFilled p.payment_reference

-- A payment that waits is a delayed one, and nothing of it is authorized yet.
abbrev pub WaitsForConfirmation : Payment → Type 0
WaitsForConfirmation p =
    p.status ≡ PaymentStatus.awaiting_payment
    → (p.payment_flow ≡ PaymentFlow.asynchronous_confirmation) × (p.authorized_amount ≡ pos 0)

-- A row that satisfies the constraints of its table makes a valid event.
pub outbox_event-IsValidEvent :
    (event_id : String) (p : Payment) (event_type : WebhookEventType)
    → str_eq event_id "" ≡ false
    → payment_checks p ≡ true
    → IsNamed p
    → WaitsForConfirmation p
    → (event_type ≡ WebhookEventType.confirmation_requested
        → p.status ≡ PaymentStatus.awaiting_payment)
    → IsValidEvent (outbox_event event_id p event_type).payload
unfolding payment_checks
outbox_event-IsValidEvent event_id p event_type named checks texts waits requested = record {
  named = named;
  same_version = refl;
  snapshot = record {
    named = (texts.0, texts.1);
    reference_filled = texts.2;
    amount_positive = ground (arith, checks);
    within = ground (arith, checks);
    balances = (ground (arith, checks), ground (arith, checks), ground (arith, checks));
    version_positive = ground (arith, checks);
    metadata = ground (arith, checks);
    reason = (λ e. ground (arith, checks, e), λ e. ground (arith, checks, e));
    awaiting = λ e. ground (arith, checks, waits e);
    requested = requested;
  };
}
