-- ===== src/Domain/Operations.antt =====
-- The pure operations of domain/payment.py, with every guard in the source's order.
use payment_platform_quality.Prelude.{
  ℤ, pos, Option, none, ltb_ℤ, leb_ℤ, eqb_ℤ, ◌+ℤ◌, if◌then◌else◌, ◌||◌, not,
}
use payment_platform_quality.Domain.Types.{
  PaymentStatus, same_status, AuthorizationDecision, decline_reason_by_decision, PaymentOperation,
  AuthorizationResult, PaymentState, refundable_amount,
}
use payment_platform_quality.Failure.{
  Result, ok, value_error, key_error, invalid_transition, refund_amount_exceeded, ◌>>=◌, ◌>>◌,
  raise_if, or_raise,
}

-- `PaymentState(...)`: the constructor with the checks of `__post_init__`.
unfoldable pub payment_state : PaymentStatus → ℤ → ℤ → ℤ → Result PaymentState
payment_state status authorized captured refunded = do
  raise_if (ltb_ℤ authorized (pos 0) || ltb_ℤ captured (pos 0) || ltb_ℤ refunded (pos 0))
      (value_error "Payment balances cannot be negative")
  raise_if (ltb_ℤ authorized captured)
      (value_error "Captured amount cannot exceed authorized amount")
  raise_if (ltb_ℤ captured refunded) (value_error "Refunded amount cannot exceed captured amount")
  ok (record {
    status = status;
    authorized_amount = authorized;
    captured_amount = captured;
    refunded_amount = refunded;
  })

declined_result : AuthorizationDecision → Result AuthorizationResult
declined_result decision = do
  reason ← or_raise (decline_reason_by_decision decision) key_error
  ok (record {
    status = PaymentStatus.declined;
    authorized_amount = pos 0;
    decline_reason = Option.some reason;
  })

approved_result : ℤ → AuthorizationResult
approved_result amount = record {
  status = PaymentStatus.authorized;
  authorized_amount = amount;
  decline_reason = none;
}

decide : ℤ → AuthorizationDecision → Result AuthorizationResult
unfolding declined_result approved_result
decide amount AuthorizationDecision.approve = ok (approved_result amount)
decide amount decision = declined_result decision

unfoldable pub authorize : ℤ → AuthorizationDecision → Result AuthorizationResult
unfolding decide
authorize amount decision = do
  raise_if (leb_ℤ amount (pos 0)) (value_error "Payment amount must be positive")
  decide amount decision

unfoldable pub capture : PaymentState → Result PaymentState
unfolding payment_state
capture state = do
  raise_if (not (same_status state.status PaymentStatus.authorized))
      (invalid_transition PaymentOperation.capture state.status)
  payment_state PaymentStatus.captured state.authorized_amount state.authorized_amount (pos 0)

unfoldable pub capture_confirmation : PaymentState → ℤ → Result PaymentState
unfolding payment_state
capture_confirmation state amount = do
  raise_if (not (same_status state.status PaymentStatus.awaiting_payment))
      (invalid_transition PaymentOperation.confirmation_capture state.status)
  raise_if (leb_ℤ amount (pos 0)) (value_error "Confirmed amount must be positive")
  payment_state PaymentStatus.captured amount amount (pos 0)

unfoldable pub expire : PaymentState → Result PaymentState
unfolding payment_state
expire state = do
  raise_if (not (same_status state.status PaymentStatus.awaiting_payment))
      (invalid_transition PaymentOperation.expire state.status)
  payment_state PaymentStatus.expired state.authorized_amount state.captured_amount
      state.refunded_amount

unfoldable pub cancel : PaymentState → Result PaymentState
unfolding payment_state
cancel state = do
  raise_if
      (not (
        same_status state.status PaymentStatus.authorized
        || same_status state.status PaymentStatus.awaiting_payment))
      (invalid_transition PaymentOperation.cancel state.status)
  payment_state PaymentStatus.cancelled state.authorized_amount (pos 0) (pos 0)

unfoldable pub refund : PaymentState → ℤ → Result PaymentState
unfolding payment_state
refund state amount = do
  raise_if
      (not (
        same_status state.status PaymentStatus.captured
        || same_status state.status PaymentStatus.partially_refunded))
      (invalid_transition PaymentOperation.refund state.status)
  raise_if (leb_ℤ amount (pos 0)) (value_error "Refund amount must be positive")
  raise_if (ltb_ℤ (refundable_amount state) amount)
      (refund_amount_exceeded amount (refundable_amount state))
  let refunded = state.refunded_amount +ℤ amount
  payment_state
      (if eqb_ℤ refunded state.captured_amount
        then PaymentStatus.refunded
        else PaymentStatus.partially_refunded)
      state.authorized_amount state.captured_amount refunded
