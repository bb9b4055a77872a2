-- ===== src/Domain/Types.antt =====
-- The enumerations and records of domain/payment.py. The string value of a member is written out
-- where the program stores or compares it as text.
use payment_platform_quality.Prelude.{ℕ, ℤ, Bool, Option, none, some, ◌==◌, String, ◌-ℤ◌}

pub data Currency : Type 0 where
  usd jpy : Currency

abbrev pub currency_value : Currency → String
currency_value Currency.usd = "USD"
currency_value Currency.jpy = "JPY"

pub data PaymentStatus : Type 0 where
  authorized awaiting_payment declined captured partially_refunded refunded cancelled expired :
      PaymentStatus

abbrev pub status_value : PaymentStatus → String
status_value PaymentStatus.authorized = "AUTHORIZED"
status_value PaymentStatus.awaiting_payment = "AWAITING_PAYMENT"
status_value PaymentStatus.declined = "DECLINED"
status_value PaymentStatus.captured = "CAPTURED"
status_value PaymentStatus.partially_refunded = "PARTIALLY_REFUNDED"
status_value PaymentStatus.refunded = "REFUNDED"
status_value PaymentStatus.cancelled = "CANCELLED"
status_value PaymentStatus.expired = "EXPIRED"

-- The place of a member, by which `is` is decided.
abbrev pub status_index : PaymentStatus → ℕ
status_index PaymentStatus.authorized = 0
status_index PaymentStatus.awaiting_payment = 1
status_index PaymentStatus.declined = 2
status_index PaymentStatus.captured = 3
status_index PaymentStatus.partially_refunded = 4
status_index PaymentStatus.refunded = 5
status_index PaymentStatus.cancelled = 6
status_index PaymentStatus.expired = 7

-- `a is b`
abbrev pub same_status : PaymentStatus → PaymentStatus → Bool
same_status a b = status_index a == status_index b

pub data AuthorizationDecision : Type 0 where
  approve decline decline_insufficient_funds decline_limit_exceeded decline_expired :
      AuthorizationDecision
  decline_verification decline_invalid decline_unknown : AuthorizationDecision

pub data DelayedPaymentDecision : Type 0 where
  await_confirmation : DelayedPaymentDecision

pub data PaymentFlow : Type 0 where
  synchronous asynchronous_confirmation : PaymentFlow

abbrev pub flow_value : PaymentFlow → String
flow_value PaymentFlow.synchronous = "SYNCHRONOUS"
flow_value PaymentFlow.asynchronous_confirmation = "ASYNCHRONOUS_CONFIRMATION"

-- The union `AuthorizationDecision | DelayedPaymentDecision`.
pub data PaymentMethodDecision : Type 0 where
  authorization : AuthorizationDecision → PaymentMethodDecision
  delayed : DelayedPaymentDecision → PaymentMethodDecision

pub data DeclineReason : Type 0 where
  insufficient_funds limit_exceeded expired_payment_method verification_failed : DeclineReason
  invalid_payment_method unknown : DeclineReason

abbrev pub reason_value : DeclineReason → String
reason_value DeclineReason.insufficient_funds = "insufficient_funds"
reason_value DeclineReason.limit_exceeded = "limit_exceeded"
reason_value DeclineReason.expired_payment_method = "expired_payment_method"
reason_value DeclineReason.verification_failed = "verification_failed"
reason_value DeclineReason.invalid_payment_method = "invalid_payment_method"
reason_value DeclineReason.unknown = "unknown"

-- The dictionary `DECLINE_REASON_BY_DECISION`; it has no key for an approval.
abbrev pub decline_reason_by_decision : AuthorizationDecision → Option DeclineReason
decline_reason_by_decision AuthorizationDecision.approve = none
decline_reason_by_decision AuthorizationDecision.decline = some DeclineReason.unknown
decline_reason_by_decision AuthorizationDecision.decline_insufficient_funds =
    some DeclineReason.insufficient_funds
decline_reason_by_decision AuthorizationDecision.decline_limit_exceeded =
    some DeclineReason.limit_exceeded
decline_reason_by_decision AuthorizationDecision.decline_expired =
    some DeclineReason.expired_payment_method
decline_reason_by_decision AuthorizationDecision.decline_verification =
    some DeclineReason.verification_failed
decline_reason_by_decision AuthorizationDecision.decline_invalid =
    some DeclineReason.invalid_payment_method
decline_reason_by_decision AuthorizationDecision.decline_unknown = some DeclineReason.unknown

pub data PaymentOperation : Type 0 where
  authorize capture cancel refund confirmation_capture expire : PaymentOperation

pub record AuthorizationResult : Type 0 where
  pub status : PaymentStatus
  pub authorized_amount : ℤ
  pub decline_reason : Option DeclineReason

-- The fields of `PaymentState`; `payment_state` of Domain/Operations is its checked constructor.
pub record PaymentState : Type 0 where
  pub status : PaymentStatus
  pub authorized_amount : ℤ
  pub captured_amount : ℤ
  pub refunded_amount : ℤ

abbrev pub refundable_amount : PaymentState → ℤ
refundable_amount s = s.captured_amount -ℤ s.refunded_amount
