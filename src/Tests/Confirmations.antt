-- ===== src/Tests/Confirmations.antt =====
-- Examples for the theorems on confirmations.
use payment_platform_quality.Prelude.{Bool, some, ◌≡◌, ◌↔◌, refl}
use payment_platform_quality.Domain.Operations.{payment_state, authorize, capture_confirmation}
use payment_platform_quality.Failure.{ok}
use payment_platform_quality.Database.Rows.{
  ConfirmationReceipt, PaymentConfirmation, ConfirmationDisposition,
}
use payment_platform_quality.Database.Tables.{find, insert, replace}
use payment_platform_quality.Database.Checks.{payment_checks}
use payment_platform_quality.Database.Store.{
  find_receipt, insert_payment, insert_ledger, insert_claim, insert_event, update_payment,
  version_taken, payment_by_reference, insert_receipt, insert_confirmation,
}
use payment_platform_quality.Coordination.{
  begin_coordinated_write, protects, protecting_receipt_exists,
}
use payment_platform_quality.Webhooks.Outbox.{create_outbox_event}
use payment_platform_quality.Payments.Commands.{read_clock}
use payment_platform_quality.Payments.Claims.{
  replay_of, find_idempotent_snapshot, claim_idempotency_key,
}
use payment_platform_quality.Payments.Commit.{stage_outcome, conclude}
use payment_platform_quality.Payments.Authorize.{
  terms_of, flush_authorization, stage_authorization, authorize_at, authorize_payment,
}
use payment_platform_quality.Confirmations.Commands.{
  command_of, ConfirmationOutcome, require_aware_utc,
}
use payment_platform_quality.Confirmations.Dispositions.{classify, apply_capture, apply_disposition}
use payment_platform_quality.Confirmations.Accept.{new_receipt, stage_receipt, accept_confirmation}
use payment_platform_quality.Confirmations.Complete.{
  existing_outcome, new_confirmation, stage_completion, conclude_completion, complete_unless_done,
  complete_receipt, complete_confirmation,
}
use payment_platform_quality.Confirmations.Classify.{Matches, classify-applied, protects-applied}
use payment_platform_quality.Tests.Data.{
  fresh, received_db, confirmed_db, confirmation, awaiting_row,
}

abbrev receipt : ConfirmationReceipt
receipt = new_receipt "USD" confirmation 30

abbrev evidence : PaymentConfirmation
evidence = new_confirmation "USD" receipt (some awaiting_row) ConfirmationDisposition.applied

abbrev answer : ConfirmationOutcome
answer = record { confirmation = evidence; replayed = Bool.false }

receipt_found : find_receipt "conf-1" received_db ≡ some receipt
unfolding authorize_payment authorize_at read_clock replay_of find_idempotent_snapshot
    claim_idempotency_key stage_outcome conclude terms_of flush_authorization stage_authorization
    create_outbox_event insert_payment insert_ledger insert_claim insert_event version_taken
    payment_by_reference find insert replace payment_checks authorize accept_confirmation
    stage_receipt begin_coordinated_write insert_receipt require_aware_utc
receipt_found = refl

staged_run :
    stage_completion "USD" receipt (fresh 40 "" "e4") received_db ≡ ok (answer, confirmed_db)
unfolding authorize_payment authorize_at read_clock replay_of find_idempotent_snapshot
    claim_idempotency_key stage_outcome conclude terms_of flush_authorization stage_authorization
    create_outbox_event insert_payment insert_ledger insert_claim insert_event version_taken
    payment_by_reference find insert replace payment_checks authorize accept_confirmation
    stage_receipt begin_coordinated_write insert_receipt require_aware_utc complete_confirmation
    complete_receipt complete_unless_done conclude_completion stage_completion existing_outcome
    insert_confirmation classify apply_disposition apply_capture update_payment payment_state
    capture_confirmation protects protecting_receipt_exists
staged_run = refl

classify-applied_example :
    (classify (some awaiting_row) confirmation 30 ≡ ok ConfirmationDisposition.applied)
    ↔ Matches awaiting_row confirmation 30
classify-applied_example = classify-applied awaiting_row confirmation 30

protects-applied_example :
    (protects awaiting_row receipt ≡ Bool.true)
    ↔ (classify (some awaiting_row) (command_of receipt) 30 ≡ ok ConfirmationDisposition.applied)
protects-applied_example = protects-applied awaiting_row receipt refl refl refl
