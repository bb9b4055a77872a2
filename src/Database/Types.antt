-- ===== src/Database/Types.antt =====
-- The rows of persistence/models.py that a payment transaction writes, with the records of
-- services/payments.py and services/webhooks.py that their JSON columns hold. Identifiers,
-- fingerprints and references are texts; a time is the number of microseconds of its UTC instant;
-- a column that holds the text of an enumeration's member holds the member, and one that holds
-- JSON text holds the record that the text encodes.
use payment_platform_quality.Prelude.{ℕ, ℤ, Option, String}
use payment_platform_quality.Domain.Types.{Currency, PaymentStatus, PaymentFlow, DeclineReason}

pub record Payment : Type 0 where
  pub id : String
  pub merchant_reference : String
  pub amount : ℤ
  pub currency : Currency
  pub status : PaymentStatus
  pub payment_flow : PaymentFlow
  pub payment_reference : Option String
  pub expires_at : Option ℕ
  pub decline_reason : Option DeclineReason
  pub authorized_amount : ℤ
  pub captured_amount : ℤ
  pub refunded_amount : ℤ
  pub version : ℕ
  pub created_at : ℕ
  pub updated_at : ℕ

pub record LedgerEntry : Type 0 where
  pub id : String
  pub payment_id : String
  pub operation : String
  pub amount : ℤ
  pub currency : Currency
  pub created_at : ℕ

-- `PaymentSnapshot`: an immutable copy of a payment.
pub record PaymentSnapshot : Type 0 where
  pub id : String
  pub merchant_reference : String
  pub amount : ℤ
  pub currency : Currency
  pub status : PaymentStatus
  pub payment_flow : PaymentFlow
  pub payment_reference : Option String
  pub expires_at : Option ℕ
  pub decline_reason : Option DeclineReason
  pub authorized_amount : ℤ
  pub captured_amount : ℤ
  pub refunded_amount : ℤ
  pub version : ℕ
  pub created_at : ℕ
  pub updated_at : ℕ

pub record IdempotencyRecord : Type 0 where
  pub key : String
  pub request_fingerprint : String
  pub operation : String
  pub payment_id : Option String
  pub response_snapshot : Option PaymentSnapshot
  pub created_at : ℕ

pub data WebhookEventType : Type 0 where
  authorized confirmation_requested declined captured cancelled refunded expired : WebhookEventType

pub data WebhookStatus : Type 0 where
  pending processing delivered exhausted : WebhookStatus

-- The dictionary that `create_outbox_event` serializes.
pub record EventPayload : Type 0 where
  pub id : String
  pub event_type : WebhookEventType
  pub aggregate_version : ℕ
  pub created_at : ℕ
  pub payment : PaymentSnapshot

pub record WebhookEvent : Type 0 where
  pub id : String
  pub payment_id : String
  pub event_type : WebhookEventType
  pub aggregate_version : ℕ
  pub payload : EventPayload
  pub status : WebhookStatus
  pub attempt_count : ℕ
  pub next_attempt_at : ℕ
  pub lease_token : Option String
  pub lease_expires_at : Option ℕ
  pub created_at : ℕ
  pub delivered_at : Option ℕ
