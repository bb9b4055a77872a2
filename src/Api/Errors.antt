-- ===== src/Api/Errors.antt =====
-- The exception handlers of main.py: the status and the content of the answer to an exception. One
-- that has no handler is left to the server. The message of an invalid webhook body is the name of
-- its field, as the model keeps it.
use payment_platform_quality.Prelude.{ℕ, ℤ, Option, none, some, String}
use payment_platform_quality.Domain.Types.{PaymentOperation, PaymentStatus, status_value}
use payment_platform_quality.Failure.{Failure}
use payment_platform_quality.Texts.{append}
use payment_platform_quality.Json.{Json, Dict, Builtins}
use payment_platform_quality.Payments.Commands.{operation_value}

-- `JSONResponse`
pub record JsonResponse : Type 0 where
  pub status_code : ℕ
  pub content : Dict

abbrev pub coded : ℕ → String → String → JsonResponse
coded status_code code message = record {
  status_code = status_code;
  content = Dict.entry "code" (Json.text code) (Dict.entry "message" (Json.text message) Dict.end);
}

-- The message of `InvalidPaymentTransitionError`.
abbrev pub transition_message : PaymentOperation → PaymentStatus → String
transition_message operation status = append "Cannot " (
    append (operation_value operation)
      (append " payment in " (append (status_value status) " state")))

abbrev pub not_found : String → String → String
not_found what k = append what (append " " (append k " was not found"))

module _ (py : Builtins) where
  -- The message of `RefundAmountExceededError`.
  abbrev pub refund_message : ℤ → ℤ → String
  refund_message requested available = append "Refund amount " (
      append (py.str_of (Json.int requested))
        (append " exceeds refundable amount " (py.str_of (Json.int available))))

  abbrev pub refund_response : ℤ → ℤ → JsonResponse
  refund_response requested available = record {
    status_code = 409;
    content = Dict.entry "code" (Json.text "refund_amount_exceeded") (
        Dict.entry "message" (Json.text (refund_message requested available)) (
          Dict.entry "requested_amount" (Json.int requested)
            (Dict.entry "refundable_amount" (Json.int available) Dict.end)));
  }

  -- The handlers of the settlement and domain exceptions.
  unfoldable pub settlement_response : Failure → Option JsonResponse
  settlement_response (Failure.settlement_batch_not_found k) =
      some (coded 404 "settlement_batch_not_found" (not_found "Settlement batch" k))
  settlement_response (Failure.settlement_payment_not_found k) =
      some (coded 422 "settlement_payment_not_found" (not_found "Settlement payment" k))
  settlement_response (Failure.settlement_payment_outside_cutoff k) = some (
      coded 422 "settlement_payment_outside_cutoff"
        (append "Settlement payment " (append k " was created after the cutoff")))
  settlement_response (Failure.invalid_transition operation status) =
      some (coded 409 "invalid_payment_transition" (transition_message operation status))
  settlement_response (Failure.refund_amount_exceeded requested available) =
      some (refund_response requested available)
  settlement_response _ = none

  -- The handlers of the webhook exceptions.
  unfoldable pub webhook_response : Failure → Option JsonResponse
  webhook_response (Failure.invalid_webhook_signature m) =
      some (coded 401 "invalid_webhook_signature" m)
  webhook_response (Failure.invalid_webhook_payload m) =
      some (coded 422 "invalid_webhook_payload" m)
  webhook_response (Failure.webhook_event_collision k) =
      some
        (coded 409 "webhook_event_collision" "Webhook event ID was reused with different content")
  webhook_response (Failure.webhook_version_conflict k) = some (
      coded 409 "webhook_version_conflict" "Payment version conflicts with the merchant projection")
  webhook_response (Failure.concurrent_webhook_consumer k) = some (
      coded 409 "concurrent_webhook_consumer"
        "Merchant projection changed concurrently; retry the event")
  webhook_response (Failure.webhook_delivery_not_ready k) =
      some
        (coded 409 "webhook_delivery_not_ready" "Webhook event is not ready for a delivery attempt")
  webhook_response (Failure.webhook_event_not_found k) =
      some (coded 404 "webhook_event_not_found" (not_found "Webhook event" k))
  webhook_response (Failure.merchant_projection_not_found k) =
      some (coded 404 "merchant_projection_not_found" (not_found "Merchant projection" k))
  webhook_response Failure.simulated_consumer_persistence =
      some (coded 503 "simulated_consumer_failure" "Consumer transaction failed before commit")
  webhook_response failure = settlement_response failure

  -- All the handlers of `create_app`: those of the payment and confirmation exceptions first.
  unfoldable pub failure_response : Failure → Option JsonResponse
  failure_response (Failure.payment_not_found k) =
      some (coded 404 "payment_not_found" (not_found "Payment" k))
  failure_response Failure.idempotency_conflict =
      some (coded 409 "idempotency_conflict" "Idempotency key was already used for another request")
  failure_response Failure.confirmation_processing_unavailable = some (
      coded 503 "confirmation_processing_unavailable"
        "Retry with the same confirmation ID and payload")
  failure_response Failure.confirmation_pending = some (
      coded 409 "confirmation_pending"
        "A payment confirmation is pending. Check the payment status before cancelling.")
  failure_response Failure.cancellation_unavailable =
      some (coded 503 "cancellation_unavailable" "Retry cancellation with the same idempotency key")
  failure_response Failure.confirmation_id_conflict =
      some (
        coded 409 "confirmation_id_conflict" "Confirmation ID was already used for another payload")
  failure_response (Failure.invalid_confirmation_signature m) =
      some (coded 401 "invalid_confirmation_signature" m)
  failure_response (Failure.invalid_confirmation_payload m) =
      some (coded 422 "invalid_confirmation_payload" m)
  failure_response (Failure.confirmation_not_found k) =
      some (coded 404 "confirmation_not_found" (not_found "Confirmation" k))
  failure_response (Failure.concurrent_payment_update k) = some (
      coded 409 "concurrent_payment_update"
        "Payment changed concurrently; retrieve it before retrying")
  failure_response Failure.failure_injection_disabled =
      some (coded 403 "failure_injection_disabled" "Test failure controls are disabled")
  failure_response (Failure.simulated_timeout point) = some (
      coded 504 "payment_timeout"
        "Payment outcome is uncertain; retry with the same idempotency key")
  failure_response failure = webhook_response failure
