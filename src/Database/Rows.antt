-- ===== src/Database/Rows.antt =====
-- The other rows of persistence/models.py: webhook deliveries and the consumer's tables, the
-- confirmation tables, and the settlement tables.
use payment_platform_quality.Prelude.{ℕ, ℤ, Bool, Option, List, String}
use payment_platform_quality.Domain.Types.{Currency, PaymentStatus, PaymentFlow, DeclineReason}
use payment_platform_quality.Database.Types.{WebhookEventType}

-- The texts of the column `outcome`.
pub data DeliveryOutcome : Type 0 where
  success http_error timeout connection_error : DeliveryOutcome

-- The texts of the column `error_code`: `http n` is `http_` and the number, `connection_refused`
-- the text `connection_error`.
pub data ErrorCode : Type 0 where
  http : ℕ → ErrorCode
  delivery_timeout connection_refused : ErrorCode

pub record DeliveryAttempt : Type 0 where
  pub id : String
  pub event_id : String
  pub attempt_number : ℕ
  pub outcome : DeliveryOutcome
  pub response_status : Option ℕ
  pub error_code : Option ErrorCode
  pub attempted_at : ℕ

pub data ConsumerDisposition : Type 0 where
  applied stale redundant duplicate : ConsumerDisposition

pub record ProcessedWebhook : Type 0 where
  pub event_id : String
  pub payment_id : String
  pub event_type : WebhookEventType
  pub aggregate_version : ℕ
  pub payload_hash : String
  pub disposition : ConsumerDisposition
  pub version_gap : Bool
  pub processed_at : ℕ

pub record ConfirmationReceipt : Type 0 where
  pub confirmation_id : String
  pub request_fingerprint : String
  pub payment_reference : String
  pub amount : ℤ
  pub currency : Currency
  pub received_at : ℕ
  pub completed : Bool

pub data ConfirmationDisposition : Type 0 where
  applied late amount_mismatch currency_mismatch unknown_reference already_resolved :
      ConfirmationDisposition

-- The column `response_snapshot` holds the constant `SAFE_CONFIRMATION_RESPONSE`.
pub record PaymentConfirmation : Type 0 where
  pub confirmation_id : String
  pub request_fingerprint : String
  pub payment_reference : String
  pub amount : ℤ
  pub currency : Currency
  pub received_at : ℕ
  pub disposition : ConfirmationDisposition
  pub payment_id : Option String
  pub response_snapshot : String

pub record MerchantProjection : Type 0 where
  pub payment_id : String
  pub merchant_reference : String
  pub amount : ℤ
  pub currency : Currency
  pub status : PaymentStatus
  pub payment_flow : PaymentFlow
  pub payment_reference : Option String
  pub expires_at : Option ℕ
  pub decline_reason : Option DeclineReason
  pub authorized_amount : ℤ
  pub captured_amount : ℤ
  pub refunded_amount : ℤ
  pub aggregate_version : ℕ
  pub last_event_id : String
  pub updated_at : ℕ

pub record SettlementBatch : Type 0 where
  pub id : String
  pub cutoff : ℕ
  pub created_at : ℕ

pub record SettlementRow : Type 0 where
  pub id : String
  pub batch_id : String
  pub payment_id : String
  pub line_number : ℕ
  pub amount : ℤ
  pub currency : Currency
  pub created_at : ℕ

-- What a confirmation report holds: the counters of `confirmation_section` as records.
pub record PaymentOutcomes : Type 0 where
  pub pending : ℕ
  pub confirmed_on_time : ℕ
  pub expired_without_on_time_confirmation : ℕ
  pub cancelled_unconfirmed : ℕ

pub record DispositionCounts : Type 0 where
  pub applied : ℕ
  pub late : ℕ
  pub amount_mismatch : ℕ
  pub currency_mismatch : ℕ
  pub unknown_reference : ℕ
  pub already_resolved : ℕ

pub record ObservedAnomaly : Type 0 where
  pub currency : Currency
  pub disposition : ConfirmationDisposition
  pub count : ℕ
  pub observed_amount : ℤ

pub record Evidence : Type 0 where
  pub cutoff : ℕ
  pub generated_at : ℕ
  pub basis : String
  pub payment_count : ℕ
  pub payment_outcomes : PaymentOutcomes
  pub dispositions : DispositionCounts
  pub pending_receipt_count : ℕ
  pub observed_anomalies : List ObservedAnomaly
  pub amount_notice : String

-- The column `payload` holds the dictionary that its JSON text encodes.
pub record ConfirmationReport : Type 0 where
  pub batch_id : String
  pub payload : Evidence
