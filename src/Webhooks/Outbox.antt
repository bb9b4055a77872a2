-- ===== src/Webhooks/Outbox.antt =====
-- `create_outbox_event` of services/webhooks.py, and the payment copies of the two services.
use payment_platform_quality.Prelude.{none, String}
use payment_platform_quality.Failure.{Result}
use payment_platform_quality.Database.Types.{
  Payment, PaymentSnapshot, WebhookEvent, WebhookEventType, WebhookStatus,
}
use payment_platform_quality.Database.Store.{Db, insert_event}

-- `PaymentSnapshot.from_payment`; `_payment_payload` copies the same fields.
abbrev pub from_payment : Payment → PaymentSnapshot
from_payment p = record {
  id = p.id;
  merchant_reference = p.merchant_reference;
  amount = p.amount;
  currency = p.currency;
  status = p.status;
  payment_flow = p.payment_flow;
  payment_reference = p.payment_reference;
  expires_at = p.expires_at;
  decline_reason = p.decline_reason;
  authorized_amount = p.authorized_amount;
  captured_amount = p.captured_amount;
  refunded_amount = p.refunded_amount;
  version = p.version;
  created_at = p.created_at;
  updated_at = p.updated_at;
}

-- The event of one payment version, with the identifier that `uuid4` gave.
abbrev pub outbox_event : String → Payment → WebhookEventType → WebhookEvent
outbox_event event_id p event_type = record {
  id = event_id;
  payment_id = p.id;
  event_type = event_type;
  aggregate_version = p.version;
  payload = record {
    id = event_id;
    event_type = event_type;
    aggregate_version = p.version;
    created_at = p.updated_at;
    payment = from_payment p;
  };
  status = WebhookStatus.pending;
  attempt_count = 0;
  next_attempt_at = p.updated_at;
  lease_token = none;
  lease_expires_at = none;
  created_at = p.updated_at;
  delivered_at = none;
}

-- The event is staged in the transaction of the payment; the database may refuse it.
unfoldable pub create_outbox_event : String → Payment → WebhookEventType → Db → Result Db
create_outbox_event event_id p event_type db = insert_event (outbox_event event_id p event_type) db
