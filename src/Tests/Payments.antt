-- ===== src/Tests/Payments.antt =====
-- Examples for the theorems on authorizations and lifecycle calls.
use payment_platform_quality.Prelude.{
  String, Bool, pos, none, some, [], ◌≡◌, refl, ◌⊎◌, eq_iff, ◌-ℤ◌, ◌+ℤ◌, arith,
}
use payment_platform_quality.Domain.Operations.{payment_state, authorize, capture, refund}
use payment_platform_quality.Failure.{
  FailurePoint, ok, err, idempotency_conflict, simulated_timeout, payment_not_found,
}
use payment_platform_quality.Domain.Types.{Currency}
use payment_platform_quality.Database.Types.{Payment, IdempotencyRecord}
use payment_platform_quality.Database.Tables.{find, insert, replace}
use payment_platform_quality.Database.Checks.{payment_checks}
use payment_platform_quality.Database.Store.{
  Db, find_payment, find_claim, empty_db, insert_payment, insert_ledger, insert_claim, insert_event,
  update_payment, version_taken, payment_by_reference,
}
use payment_platform_quality.Webhooks.Outbox.{from_payment, create_outbox_event}
use payment_platform_quality.Payments.Commands.{PaymentView, read_clock, authorization_payload}
use payment_platform_quality.Payments.Progress.{Unhindered, authorize_succeeds}
use payment_platform_quality.Payments.Claims.{
  replay_of, find_idempotent_snapshot, claim_idempotency_key,
}
use payment_platform_quality.Payments.Commit.{stage_outcome, conclude}
use payment_platform_quality.Payments.Authorize.{
  terms_of, flush_authorization, stage_authorization, authorize_at, authorize_payment,
}
use payment_platform_quality.Payments.Lifecycle.{
  get_payment, next_of, flush_lifecycle, stage_lifecycle, apply_lifecycle_operation,
  capture_command, refund_command,
}
use payment_platform_quality.Payments.Keys.{first_answer, replayed_answer}
use payment_platform_quality.Payments.Replay.{
  authorize_replays, authorize_faults, authorize_conflicts,
}
use payment_platform_quality.Payments.ReplayLifecycle.{lifecycle_replays}
use payment_platform_quality.Payments.Atomicity.{authorize_atomic, lifecycle_atomic}
use payment_platform_quality.Tests.Data.{
  third_text, alone, order, fresh, authorized_db, captured_db, authorized_row, captured_row,
}

-- The first runs.
pub authorized_run :
    authorize_at third_text alone (order "order-1") "key-1" none (fresh 10 "pay-1" "e1") empty_db
    ≡ (ok (first_answer authorized_row), authorized_db)
unfolding authorize_payment authorize_at read_clock replay_of find_idempotent_snapshot
    claim_idempotency_key stage_outcome conclude terms_of flush_authorization stage_authorization
    create_outbox_event insert_payment insert_ledger insert_claim insert_event version_taken
    payment_by_reference find insert replace payment_checks authorize
authorized_run = refl

pub captured_run :
    apply_lifecycle_operation third_text alone []
      (capture_command "pay-1")
      "key-2"
      none
      (fresh 20 "" "e2")
      authorized_db
    ≡ (ok (first_answer captured_row), captured_db)
unfolding authorize_payment authorize_at read_clock replay_of find_idempotent_snapshot
    claim_idempotency_key stage_outcome conclude terms_of flush_authorization stage_authorization
    create_outbox_event insert_payment insert_ledger insert_claim insert_event version_taken
    payment_by_reference find insert replace payment_checks authorize apply_lifecycle_operation
    get_payment next_of flush_lifecycle stage_lifecycle update_payment capture payment_state ◌-ℤ◌
captured_run = refl

-- The capture keeps the record of the authorization.
authorization_kept : find_claim "key-1" captured_db ≡ find_claim "key-1" authorized_db
unfolding authorize_payment authorize_at read_clock replay_of find_idempotent_snapshot
    claim_idempotency_key stage_outcome conclude terms_of flush_authorization stage_authorization
    create_outbox_event insert_payment insert_ledger insert_claim insert_event version_taken
    payment_by_reference find insert replace payment_checks authorize apply_lifecycle_operation
    get_payment next_of flush_lifecycle stage_lifecycle update_payment capture payment_state ◌-ℤ◌
authorization_kept = refl

authorize_replays_example :
    authorize_at third_text alone
      (order "order-1")
      "key-1"
      (some FailurePoint.before_commit)
      (fresh 90 "pay-9" "e9")
      captured_db
    ≡ (ok (replayed_answer authorized_row), captured_db)
authorize_replays_example =
    authorize_replays third_text alone "key-1" (fresh 10 "pay-1" "e1") empty_db (order "order-1")
      authorized_db captured_db authorized_row authorized_run authorization_kept alone
      (some FailurePoint.before_commit) (fresh 90 "pay-9" "e9")

authorize_faults_example :
    (authorize_at third_text alone
        (order "order-1")
        "key-1"
        (some FailurePoint.after_commit)
        (fresh 10 "pay-1" "e1")
        empty_db
      ≡ (err (simulated_timeout FailurePoint.after_commit), authorized_db))
    × (authorize_at third_text alone
          (order "order-1")
          "key-1"
          (some FailurePoint.before_commit)
          (fresh 10 "pay-1" "e1")
          empty_db
        ≡ (err (simulated_timeout FailurePoint.before_commit), empty_db))
authorize_faults_example =
    authorize_faults third_text alone "key-1" (fresh 10 "pay-1" "e1") empty_db (order "order-1")
      authorized_db authorized_row authorized_run

differ : ¬ (
    third_text (authorization_payload (order "order-1"))
    ≡ third_text (authorization_payload (order "order-7")))
differ e = ground (arith, (eq_iff "order-1" "order-7").1 e)

authorize_conflicts_example :
    authorize_at third_text alone
      (order "order-7")
      "key-1"
      none
      (fresh 90 "pay-9" "e9")
      authorized_db
    ≡ (err idempotency_conflict, authorized_db)
authorize_conflicts_example =
    authorize_conflicts third_text alone "key-1" (fresh 10 "pay-1" "e1") empty_db (order "order-1")
      authorized_db authorized_row authorized_run (order "order-7") differ alone none
      (fresh 90 "pay-9" "e9")

abbrev refunded_db : Db
refunded_db =
    (apply_lifecycle_operation third_text alone [] (refund_command "pay-1" (pos 100)) "key-3" none
      (fresh 30 "" "e3") captured_db).1

-- The refund keeps the record of the capture.
capture_kept : find_claim "key-2" refunded_db ≡ find_claim "key-2" captured_db
unfolding authorize_payment authorize_at read_clock replay_of find_idempotent_snapshot
    claim_idempotency_key stage_outcome conclude terms_of flush_authorization stage_authorization
    create_outbox_event insert_payment insert_ledger insert_claim insert_event version_taken
    payment_by_reference find insert replace payment_checks authorize apply_lifecycle_operation
    get_payment next_of flush_lifecycle stage_lifecycle update_payment capture refund payment_state
    ◌-ℤ◌ ◌+ℤ◌
capture_kept = refl

lifecycle_replays_example :
    apply_lifecycle_operation third_text alone []
      (capture_command "pay-1")
      "key-2"
      none
      (fresh 90 "" "e9")
      refunded_db
    ≡ (ok (replayed_answer captured_row), refunded_db)
lifecycle_replays_example =
    lifecycle_replays third_text alone [] (capture_command "pay-1") "key-2" (fresh 20 "" "e2")
      authorized_db captured_db refunded_db captured_row captured_run capture_kept alone [] none
      (fresh 90 "" "e9")

refused_run :
    apply_lifecycle_operation third_text alone []
      (capture_command "pay-9")
      "key-2"
      none
      (fresh 20 "" "e2")
      authorized_db
    ≡ (err (payment_not_found "pay-9"), authorized_db)
unfolding authorize_payment authorize_at read_clock replay_of find_idempotent_snapshot
    claim_idempotency_key stage_outcome conclude terms_of flush_authorization stage_authorization
    create_outbox_event insert_payment insert_ledger insert_claim insert_event version_taken
    payment_by_reference find insert replace payment_checks authorize apply_lifecycle_operation
    get_payment next_of flush_lifecycle stage_lifecycle update_payment capture payment_state ◌-ℤ◌
refused_run = refl

lifecycle_atomic_example : (authorized_db ≡ authorized_db) ⊎ (authorized_db ≡ alone authorized_db)
lifecycle_atomic_example =
    lifecycle_atomic third_text alone [] (capture_command "pay-9") "key-2" none (fresh 20 "" "e2")
      authorized_db refused_run (λ e. cc)

refused_authorization :
    authorize_at third_text alone
      (order "order-7")
      "key-1"
      none
      (fresh 90 "pay-9" "e9")
      authorized_db
    ≡ (err idempotency_conflict, authorized_db)
unfolding authorize_payment authorize_at read_clock replay_of find_idempotent_snapshot
    claim_idempotency_key stage_outcome conclude terms_of flush_authorization stage_authorization
    create_outbox_event insert_payment insert_ledger insert_claim insert_event version_taken
    payment_by_reference find insert replace payment_checks authorize
refused_authorization = refl

authorize_atomic_example : (authorized_db ≡ authorized_db) ⊎ (authorized_db ≡ alone authorized_db)
authorize_atomic_example =
    authorize_atomic third_text alone (order "order-7") "key-1" none (fresh 90 "pay-9" "e9")
      authorized_db refused_authorization (λ e. cc)

abbrev order_text : String
order_text = "order-9"

-- The second order of a merchant, by another key.
second_order-Unhindered :
    Unhindered "key-9" (order "order-9") (fresh 90 "pay-9" "e9") authorized_db authorized_db
unfolding authorize_payment authorize_at read_clock replay_of find_idempotent_snapshot
    claim_idempotency_key stage_outcome conclude terms_of flush_authorization stage_authorization
    create_outbox_event insert_payment insert_ledger insert_claim insert_event version_taken
    payment_by_reference find insert replace payment_checks authorize
second_order-Unhindered = record {
  positive = ground arith;
  unclaimed = refl;
  still_unclaimed = refl;
  new_id = refl;
  new_reference = refl;
  new_entry = refl;
  new_event = refl;
  new_version = refl;
}

authorize_succeeds_example :
    (p : Payment) × (db' : Db) × (authorize_at third_text alone
        (order "order-9")
        "key-9"
        none
        (fresh 90 "pay-9" "e9")
        authorized_db
      ≡ (ok (record { payment = PaymentView.written p; replayed = Bool.false }), db'))
    × (find_payment "pay-9" db' ≡ some p)
    × ((p.amount ≡ pos 500) × (p.currency ≡ Currency.usd) × (p.merchant_reference ≡ order_text))
    × ((r : IdempotencyRecord) × (find_claim "key-9" db' ≡ some r)
        × (r.response_snapshot ≡ some (from_payment p)))
authorize_succeeds_example =
    authorize_succeeds third_text alone (order "order-9") "key-9" (fresh 90 "pay-9" "e9")
      authorized_db second_order-Unhindered
