-- ===== src/Payments/Commands.antt =====
-- The commands of services/payments.py and their fingerprints. A fingerprint is the digest of a
-- dictionary; `digest` stands for SHA-256 over its canonical JSON text.
use payment_platform_quality.Prelude.{ℕ, ℤ, Option, none, some, List, [], ◌∷◌, String, Bool}
use payment_platform_quality.Domain.Types.{
  Currency, currency_value, AuthorizationDecision, DelayedPaymentDecision, PaymentMethodDecision,
  PaymentOperation,
}
use payment_platform_quality.Failure.{Result, ok, err, value_error}
use payment_platform_quality.Database.Types.{Payment, PaymentSnapshot}

-- A value in a dictionary that is fingerprinted.
pub data Scalar : Type 0 where
  null : Scalar
  int : ℤ → Scalar
  str : String → Scalar

abbrev pub Dictionary : Type 0
Dictionary = List (String × Scalar)

abbrev pub decision_value : PaymentMethodDecision → String
decision_value (PaymentMethodDecision.delayed DelayedPaymentDecision.await_confirmation) =
    "tok_awaiting_confirmation"
decision_value (PaymentMethodDecision.authorization AuthorizationDecision.approve) = "tok_approved"
decision_value (PaymentMethodDecision.authorization AuthorizationDecision.decline) = "tok_declined"
decision_value
      (PaymentMethodDecision.authorization AuthorizationDecision.decline_insufficient_funds) =
    "tok_declined_insufficient_funds"
decision_value (PaymentMethodDecision.authorization AuthorizationDecision.decline_limit_exceeded) =
    "tok_declined_limit_exceeded"
decision_value (PaymentMethodDecision.authorization AuthorizationDecision.decline_expired) =
    "tok_declined_expired"
decision_value (PaymentMethodDecision.authorization AuthorizationDecision.decline_verification) =
    "tok_declined_verification"
decision_value (PaymentMethodDecision.authorization AuthorizationDecision.decline_invalid) =
    "tok_declined_invalid"
decision_value (PaymentMethodDecision.authorization AuthorizationDecision.decline_unknown) =
    "tok_declined_unknown"

abbrev pub operation_value : PaymentOperation → String
operation_value PaymentOperation.authorize = "AUTHORIZE"
operation_value PaymentOperation.capture = "CAPTURE"
operation_value PaymentOperation.cancel = "CANCEL"
operation_value PaymentOperation.refund = "REFUND"
operation_value PaymentOperation.confirmation_capture = "CONFIRMATION_CAPTURE"
operation_value PaymentOperation.expire = "EXPIRE"

pub record AuthorizationCommand : Type 0 where
  pub merchant_reference : String
  pub amount : ℤ
  pub currency : Currency
  pub payment_method_token : PaymentMethodDecision

pub record LifecycleCommand : Type 0 where
  pub payment_id : String
  pub operation : PaymentOperation
  pub amount : Option ℤ

abbrev pub authorization_payload : AuthorizationCommand → Dictionary
authorization_payload c =
    ("amount", Scalar.int c.amount)
    ∷ ("currency", Scalar.str (currency_value c.currency))
    ∷ ("merchant_reference", Scalar.str c.merchant_reference)
    ∷ ("payment_method_token", Scalar.str (decision_value c.payment_method_token))
    ∷ []

abbrev pub optional_int : Option ℤ → Scalar
optional_int none = Scalar.null
optional_int (some x) = Scalar.int x

abbrev pub lifecycle_payload : LifecycleCommand → Dictionary
lifecycle_payload c =
    ("amount", optional_int c.amount)
    ∷ ("operation", Scalar.str (operation_value c.operation))
    ∷ ("payment_id", Scalar.str c.payment_id)
    ∷ []

-- `payment` of an outcome: the row that was written, or the copy kept for replays.
pub data PaymentView : Type 0 where
  written : Payment → PaymentView
  copied : PaymentSnapshot → PaymentView

-- `AuthorizationOutcome` and `LifecycleOutcome`
pub record Outcome : Type 0 where
  pub payment : PaymentView
  pub replayed : Bool

-- A clock's datetime: naive, or aware of its zone with the instant that it stands for.
pub data Reading : Type 0 where
  naive aware : ℕ → Reading

-- `_read_clock`
unfoldable pub read_clock : Reading → Result ℕ
read_clock (Reading.naive t) =
    err (value_error "Payment clock must return a timezone-aware datetime")
read_clock (Reading.aware t) = ok t

-- What one call takes from `uuid4` and, where it reads it, from `datetime.now`.
pub record Fresh : Type 0 where
  pub now : ℕ
  pub payment_id : String
  pub payment_reference : String
  pub ledger_id : String
  pub event_id : String
