-- ===== src/Payments/Lifecycle.antt =====
-- Capture, cancellation and refund of services/payments.py.
use payment_platform_quality.Prelude.{
  ℕ, ℤ, ◌-ℤ◌, Bool, true, false, ◌&&◌, Option, none, some, List, [], String, if◌then◌else◌,
}
use payment_platform_quality.Domain.Types.{
  PaymentStatus, same_status, PaymentOperation, PaymentState,
}
use payment_platform_quality.Domain.Operations.{payment_state, capture, cancel, refund}
use payment_platform_quality.Failure.{
  FailurePoint, Failure, Result, ok, err, value_error, payment_not_found, confirmation_pending,
  cancellation_unavailable, key_error, ◌>>=◌, ◌>>◌, raise_if, or_raise,
}
use payment_platform_quality.Database.Types.{
  Payment, LedgerEntry, IdempotencyRecord, WebhookEventType,
}
use payment_platform_quality.Database.Tables.{find}
use payment_platform_quality.Database.Store.{Db, find_payment, update_payment, insert_ledger}
use payment_platform_quality.Coordination.{Writer, begin_coordinated_write, has_protecting_receipt}
use payment_platform_quality.Payments.Commands.{
  LifecycleCommand, Dictionary, lifecycle_payload, operation_value, PaymentView, Outcome, Fresh,
}
use payment_platform_quality.Payments.Claims.{Claim, claim_idempotency_key}
use payment_platform_quality.Payments.Commit.{stage_outcome, conclude}
use payment_platform_quality.Payments.Authorize.{as_written}

abbrev pub or_else {ℓ} : {A : Type ℓ} → Option A → Option A → Option A
or_else none b = b
or_else (some a) b = some a

-- `get_payment`: `session.get` returns the object that the session has loaded before, and reads
-- the row only where it has not. `loaded` is the session's identity map.
unfoldable pub get_payment : List Payment → String → Db → Result Payment
get_payment loaded payment_id db =
    or_raise (or_else (find (λ p. p.id) payment_id loaded) (find_payment payment_id db))
      (payment_not_found payment_id)

-- `_payment_state`
abbrev pub state_of : Payment → Result PaymentState
state_of p = payment_state p.status p.authorized_amount p.captured_amount p.refunded_amount

-- The next state and the amount for the ledger, by the operation and its amount.
unfoldable pub next_of :
    PaymentOperation → Option ℤ → String → PaymentState → Db → Result (PaymentState × ℤ)
next_of PaymentOperation.capture x payment_id current db = do
  next ← capture current
  ok (next, next.captured_amount -ℤ current.captured_amount)
next_of PaymentOperation.cancel x payment_id current db = do
  raise_if
      (same_status current.status PaymentStatus.awaiting_payment
        && has_protecting_receipt payment_id db)
      confirmation_pending
  next ← cancel current
  ok (next, current.authorized_amount)
next_of PaymentOperation.refund (some amount) payment_id current db = do
  next ← refund current amount
  ok (next, amount)
next_of _ _ payment_id current db = err (value_error "Unsupported lifecycle operation")

-- The payment with the fields that the service assigns.
abbrev pub with_state : Payment → PaymentState → ℕ → Payment
with_state p s now = record p {
  status = s.status;
  authorized_amount = s.authorized_amount;
  captured_amount = s.captured_amount;
  refunded_amount = s.refunded_amount;
  updated_at = now;
}

abbrev pub lifecycle_entry : PaymentOperation → ℤ → Payment → Fresh → LedgerEntry
lifecycle_entry operation amount p fresh = record {
  id = fresh.ledger_id;
  payment_id = p.id;
  operation = operation_value operation;
  amount = amount;
  currency = p.currency;
  created_at = fresh.now;
}

-- Cancelling a request that was never paid leaves no trace in the ledger.
abbrev pub is_unpaid_cancel : PaymentOperation → PaymentStatus → Bool
is_unpaid_cancel PaymentOperation.cancel status = same_status status PaymentStatus.awaiting_payment
is_unpaid_cancel _ status = false

-- The UPDATE of the payment and the INSERT of the ledger entry.
unfoldable pub flush_lifecycle :
    PaymentOperation → Payment → PaymentState → ℤ → Fresh → Db → Result (Payment × Db)
flush_lifecycle operation p next amount fresh db = do
  updated ← update_payment p (with_state p next fresh.now) db
  if is_unpaid_cancel operation p.status then ok updated else do
    with_entry ← insert_ledger (lifecycle_entry operation amount p fresh) updated.1
    ok (updated.0, with_entry)

abbrev pub event_of : PaymentOperation → Result WebhookEventType
event_of PaymentOperation.capture = ok WebhookEventType.captured
event_of PaymentOperation.cancel = ok WebhookEventType.cancelled
event_of PaymentOperation.refund = ok WebhookEventType.refunded
event_of _ = err key_error

-- `_execute_claimed_lifecycle_operation`, up to the commit
unfoldable pub stage_lifecycle :
    List Payment
    → LifecycleCommand
    → IdempotencyRecord
    → Option FailurePoint
    → Fresh
    → Db
    → Result (Payment × Db)
stage_lifecycle loaded command claim point fresh db = do
  p ← get_payment loaded command.payment_id db
  current ← state_of p
  next ← next_of command.operation command.amount p.id current db
  event_type ← event_of command.operation
  stage_outcome (flush_lifecycle command.operation p next.0 next.1 fresh) claim event_type
      fresh.event_id point db

pub finish_lifecycle :
    List Payment → LifecycleCommand → Option FailurePoint → Fresh → Db → Claim → Result Outcome × Db
finish_lifecycle loaded command point fresh committed (Claim.raises e db) = (err e, db)
finish_lifecycle loaded command point fresh committed (Claim.replays s db) =
    (ok (record { payment = PaymentView.copied s; replayed = true }), db)
finish_lifecycle loaded command point fresh committed (Claim.held claim db) = as_written (
    conclude command.payment_id point committed
      (stage_lifecycle loaded command claim point fresh db))

-- `_apply_lifecycle_operation` in a session that has loaded `loaded`, while other sessions do
-- `others` before the claim takes the write lock.
unfoldable pub apply_lifecycle_operation :
    (Dictionary → String)
    → (Db → Db)
    → List Payment
    → LifecycleCommand
    → String
    → Option FailurePoint
    → Fresh
    → Db
    → Result Outcome × Db
unfolding finish_lifecycle
apply_lifecycle_operation digest others loaded command key point fresh db =
    finish_lifecycle loaded command point fresh (others db) (
      claim_idempotency_key key (digest (lifecycle_payload command))
        (operation_value command.operation) fresh.now others db)

abbrev pub capture_command : String → LifecycleCommand
capture_command payment_id = record {
  payment_id = payment_id;
  operation = PaymentOperation.capture;
  amount = none;
}

abbrev pub cancel_command : String → LifecycleCommand
cancel_command payment_id = record {
  payment_id = payment_id;
  operation = PaymentOperation.cancel;
  amount = none;
}

abbrev pub refund_command : String → ℤ → LifecycleCommand
refund_command payment_id amount = record {
  payment_id = payment_id;
  operation = PaymentOperation.refund;
  amount = some amount;
}

-- `SQLAlchemyError`: what the database and the mapper raise.
abbrev pub is_database_error : Failure → Bool
is_database_error Failure.integrity_error = true
is_database_error Failure.stale_data = true
is_database_error Failure.operational_error = true
is_database_error _ = false

abbrev pub as_unavailable : Result Outcome × Db → Result Outcome × Db
as_unavailable (ok o, db) = (ok o, db)
as_unavailable (err e, db) = (err (if is_database_error e then cancellation_unavailable else e), db)

-- `cancel_payment`: the write lock is taken first, in a session with nothing loaded, so that no
-- other session comes between.
unfoldable pub cancel_payment :
    (Dictionary → String)
    → Writer
    → String
    → String
    → Option FailurePoint
    → Fresh
    → Db
    → Result Outcome × Db
cancel_payment digest writer payment_id key point fresh db =
    as_unavailable (elim (begin_coordinated_write writer) [
      | err e ↦ (err e, db)
      | ok _ ↦
          apply_lifecycle_operation digest (λ d. d) [] (cancel_command payment_id) key point fresh
            db
    ])
