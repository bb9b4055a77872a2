-- ===== src/Api/Payments.antt =====
-- The payment endpoints of api/routes.py: `create_payment`, `capture_authorization`,
-- `cancel_authorization` and `refund_capture`, with the requests that api/schemas.py accepts. A
-- request is given as its fields have been read; the answer to a refused one is FastAPI's.
use payment_platform_quality.Prelude.{
  ℕ, ℤ, pos, leb_ℤ, ltb_ℤ, leb, Bool, true, false, ◌&&◌, Option, none, some, [], String,
  if◌then◌else◌,
}
use payment_platform_quality.Texts.{text_length}
use payment_platform_quality.Failure.{
  FailurePoint, Failure, Result, ok, err, failure_injection_disabled,
}
use payment_platform_quality.Coordination.{Writer}
use payment_platform_quality.Database.Types.{PaymentSnapshot}
use payment_platform_quality.Database.Store.{Db}
use payment_platform_quality.Webhooks.Outbox.{from_payment}
use payment_platform_quality.Payments.Commands.{
  AuthorizationCommand, Dictionary, PaymentView, Outcome, Reading, Fresh,
}
use payment_platform_quality.Payments.Authorize.{authorize_payment}
use payment_platform_quality.Payments.Lifecycle.{
  apply_lifecycle_operation, capture_command, refund_command, cancel_payment,
}

-- How a request ends: refused by its schema, an exception for the handlers, or an answer.
pub data Answer : Type 0 where
  unprocessable : Answer
  raised : Failure → Answer
  answered : ℕ → Bool → PaymentSnapshot → Answer

-- `PaymentResponse.from_record`: the fields of a snapshot, in the types of the model.
abbrev pub payment_response : PaymentView → PaymentSnapshot
payment_response (PaymentView.written p) = from_payment p
payment_response (PaymentView.copied s) = s

-- `Header(min_length=8, max_length=128)`
abbrev pub key_fits : String → Bool
key_fits key = leb 8 (text_length key) && leb (text_length key) 128

-- `Field(gt=0, le=999_999_999)`
abbrev pub amount_fits : ℤ → Bool
amount_fits amount = ltb_ℤ (pos 0) amount && leb_ℤ amount (pos 999_999_999)

-- `AuthorizePaymentRequest`; the members of the two enumerations hold by their types.
abbrev pub request_fits : AuthorizationCommand → Bool
request_fits c =
    leb 1 (text_length c.merchant_reference)
    && leb (text_length c.merchant_reference) 64
    && amount_fits c.amount

-- Injected failures are for an app that allows them.
unfoldable pub resolve_failure_point : Bool → Option FailurePoint → Result (Option FailurePoint)
resolve_failure_point enabled none = ok none
resolve_failure_point true (some point) = ok (some point)
resolve_failure_point false (some point) = err failure_injection_disabled

-- The status 201, or 200 with the header `Idempotent-Replayed`.
abbrev pub creation_answer : Result Outcome × Db → Answer × Db
creation_answer (err e, db) = (Answer.raised e, db)
creation_answer (ok o, db) =
    (Answer.answered (if o.replayed then 200 else 201) o.replayed (payment_response o.payment), db)

-- `_lifecycle_response`
abbrev pub lifecycle_answer : Result Outcome × Db → Answer × Db
lifecycle_answer (err e, db) = (Answer.raised e, db)
lifecycle_answer (ok o, db) = (Answer.answered 200 o.replayed (payment_response o.payment), db)

-- The dependency is resolved before the checks of the body and the key are reported.
abbrev pub guarded :
    Bool
    → Result (Option FailurePoint)
    → (Option FailurePoint → Db → Answer × Db)
    → Db
    → Answer × Db
guarded fits (err e) run db = (Answer.raised e, db)
guarded false (ok point) run db = (Answer.unprocessable, db)
guarded true (ok point) run db = run point db

module _ (digest : Dictionary → String) (enabled : Bool) where
  unfoldable pub create_payment :
      (Db → Db)
      → AuthorizationCommand
      → String
      → Option FailurePoint
      → Reading
      → Fresh
      → Db
      → Answer × Db
  create_payment others command key failure_point clock fresh db =
      guarded (request_fits command && key_fits key) (resolve_failure_point enabled failure_point)
        (λ point d.
          creation_answer (authorize_payment digest others command key point clock fresh d))
        db

  unfoldable pub capture_authorization :
      (Db → Db) → String → String → Option FailurePoint → Fresh → Db → Answer × Db
  capture_authorization others payment_id key failure_point fresh db =
      guarded (key_fits key) (resolve_failure_point enabled failure_point)
        (λ point d. lifecycle_answer (
          apply_lifecycle_operation digest others [] (capture_command payment_id) key point fresh
            d))
        db

  unfoldable pub cancel_authorization :
      Writer → String → String → Option FailurePoint → Fresh → Db → Answer × Db
  cancel_authorization writer payment_id key failure_point fresh db =
      guarded (key_fits key) (resolve_failure_point enabled failure_point)
        (λ point d. lifecycle_answer (cancel_payment digest writer payment_id key point fresh d)) db

  unfoldable pub refund_capture :
      (Db → Db) → String → ℤ → String → Option FailurePoint → Fresh → Db → Answer × Db
  refund_capture others payment_id amount key failure_point fresh db =
      guarded (key_fits key && amount_fits amount) (resolve_failure_point enabled failure_point)
        (λ point d. lifecycle_answer (
          apply_lifecycle_operation digest others [] (refund_command payment_id amount) key point
            fresh d))
        db
