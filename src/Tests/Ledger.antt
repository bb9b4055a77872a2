-- ===== src/Tests/Ledger.antt =====
-- Examples for the theorems on payments and ledger, and for the reconciliation.
use payment_platform_quality.Prelude.{
  List, pos, String, ◌⊎◌, All, ℕ, suc, none, some, [], ◌∷◌, ◌≡◌, refl, sort_by, ◌-ℤ◌,
}
use payment_platform_quality.Domain.Operations.{payment_state, authorize, capture, expire}
use payment_platform_quality.Failure.{Failure, ok, err}
use payment_platform_quality.Database.Types.{Payment, IdempotencyRecord}
use payment_platform_quality.Database.Tables.{find, insert, replace}
use payment_platform_quality.Database.Checks.{payment_checks}
use payment_platform_quality.Database.Store.{
  Db, empty_db, find_payment, insert_payment, insert_ledger, insert_claim, insert_event,
  update_payment, version_taken, payment_by_reference, insert_receipt,
}
use payment_platform_quality.Coordination.{begin_coordinated_write, protecting_receipt_exists}
use payment_platform_quality.Webhooks.Outbox.{create_outbox_event}
use payment_platform_quality.Payments.Commands.{Reading, read_clock}
use payment_platform_quality.Payments.Claims.{
  replay_of, find_idempotent_snapshot, claim_idempotency_key, new_claim,
}
use payment_platform_quality.Payments.Commit.{stage_outcome, conclude}
use payment_platform_quality.Payments.Authorize.{
  terms_of, flush_authorization, stage_authorization, authorize_at, authorize_payment,
}
use payment_platform_quality.Payments.Lifecycle.{
  get_payment, next_of, flush_lifecycle, stage_lifecycle, apply_lifecycle_operation,
  capture_command,
}
use payment_platform_quality.Confirmations.Commands.{require_aware_utc}
use payment_platform_quality.Confirmations.Dispositions.{apply_expiry_transition}
use payment_platform_quality.Confirmations.Accept.{stage_receipt, accept_confirmation}
use payment_platform_quality.Confirmations.Complete.{process_confirmation}
use payment_platform_quality.Confirmations.Expire.{
  is_due, due_payments, expire_each, expire_due_payments,
}
use payment_platform_quality.Ledger.Sums.{sum_of}
use payment_platform_quality.Ledger.Sound.{IsSound}
use payment_platform_quality.Ledger.Authorization.{authorize-IsSound}
use payment_platform_quality.Ledger.Operations.{lifecycle-IsSound, lifecycle_version, IsCurrent}
use payment_platform_quality.Ledger.Confirmations.{process-IsSound}
use payment_platform_quality.Ledger.Expiry.{Expired, expire_due_effect}
use payment_platform_quality.Reconciliation.Totals.{calculate_ledger_totals}
use payment_platform_quality.Reconciliation.Sources.{SourceCheckStatus, ledger_status, entries_of}
use payment_platform_quality.Reconciliation.Matching.{sound_ledger_matches}
use payment_platform_quality.Tests.Data.{
  third_text, alone, order, delayed_order, fresh, authorized_db, captured_db, awaiting_db,
  received_db, writer, confirmation, captured_row,
}
use payment_platform_quality.Reconciliation.Batches.{SettlementInput, create_settlement_batch}
use payment_platform_quality.Reconciliation.Import.{IsCovered, import_atomic}
use payment_platform_quality.Domain.Types.{Currency}

empty-IsSound : IsSound empty_db
unfolding find sum_of
empty-IsSound = record {
  keyed = tt;
  coherent = λ k p e. cc;
  authorized = λ k. refl;
  captured = λ k. refl;
  refunded = λ k. refl;
}

authorize-IsSound_example : IsSound authorized_db
authorize-IsSound_example =
    authorize-IsSound third_text alone (order "order-1") "key-1" none (Reading.aware 10)
      (fresh 10 "pay-1" "e1") empty_db (λ d s. s) empty-IsSound

authorized-IsSound : IsSound authorized_db
authorized-IsSound =
    authorize-IsSound third_text alone (order "order-1") "key-1" none (Reading.aware 10)
      (fresh 10 "pay-1" "e1") empty_db (λ d s. s) empty-IsSound

awaiting-IsSound : IsSound awaiting_db
awaiting-IsSound =
    authorize-IsSound third_text alone delayed_order "key-3" none (Reading.aware 10)
      (fresh 10 "pay-2" "e3") empty_db (λ d s. s) empty-IsSound

nothing_loaded : IsCurrent [] authorized_db
unfolding find
nothing_loaded k p row found stored same = cc

lifecycle-IsSound_example : IsSound captured_db
lifecycle-IsSound_example =
    lifecycle-IsSound third_text alone [] (capture_command "pay-1") "key-2" none (fresh 20 "" "e2")
      authorized_db nothing_loaded (λ d s. s) authorized-IsSound

process-IsSound_example :
    IsSound
      (process_confirmation third_text alone writer writer confirmation
        (Reading.aware 30)
        (fresh 40 "" "e4")
        awaiting_db).1
process-IsSound_example =
    process-IsSound third_text alone writer writer confirmation (Reading.aware 30)
      (fresh 40 "" "e4") awaiting_db (λ d s. s) awaiting-IsSound

received-IsSound : IsSound received_db
unfolding authorize_payment authorize_at read_clock replay_of find_idempotent_snapshot
    claim_idempotency_key stage_outcome conclude terms_of flush_authorization stage_authorization
    create_outbox_event insert_payment insert_ledger insert_claim insert_event version_taken
    payment_by_reference find insert replace payment_checks authorize accept_confirmation
    stage_receipt begin_coordinated_write insert_receipt require_aware_utc
received-IsSound = record {
  keyed = awaiting-IsSound.keyed;
  coherent = awaiting-IsSound.coherent;
  authorized = awaiting-IsSound.authorized;
  captured = awaiting-IsSound.captured;
  refunded = awaiting-IsSound.refunded;
}

captured-IsSound : IsSound captured_db
captured-IsSound =
    lifecycle-IsSound third_text alone [] (capture_command "pay-1") "key-2" none (fresh 20 "" "e2")
      authorized_db nothing_loaded (λ d s. s) authorized-IsSound

captured_found : find_payment "pay-1" captured_db ≡ some captured_row
unfolding authorize_payment authorize_at read_clock replay_of find_idempotent_snapshot
    claim_idempotency_key stage_outcome conclude terms_of flush_authorization stage_authorization
    create_outbox_event insert_payment insert_ledger insert_claim insert_event version_taken
    payment_by_reference find insert replace payment_checks authorize apply_lifecycle_operation
    get_payment next_of flush_lifecycle stage_lifecycle update_payment capture payment_state ◌-ℤ◌
captured_found = refl

sound_ledger_matches_example :
    ledger_status captured_row (calculate_ledger_totals none (entries_of "pay-1" captured_db))
    ≡ SourceCheckStatus.matched
sound_ledger_matches_example =
    sound_ledger_matches captured_db "pay-1" captured_row captured-IsSound captured_found

abbrev capture_claim : IdempotencyRecord
capture_claim = new_claim "key-2" "pay-1" "CAPTURE" 20

abbrev claimed_db : Db
claimed_db = record authorized_db {
  idempotency_records = capture_claim ∷ authorized_db.idempotency_records;
}

staged_capture :
    stage_lifecycle [] (capture_command "pay-1") capture_claim none (fresh 20 "" "e2") claimed_db
    ≡ ok (captured_row, captured_db)
unfolding authorize_payment authorize_at read_clock replay_of find_idempotent_snapshot
    claim_idempotency_key stage_outcome conclude terms_of flush_authorization stage_authorization
    create_outbox_event insert_payment insert_ledger insert_claim insert_event version_taken
    payment_by_reference find insert replace payment_checks authorize apply_lifecycle_operation
    get_payment next_of flush_lifecycle stage_lifecycle update_payment capture payment_state ◌-ℤ◌
staged_capture = refl

lifecycle_version_example :
    (read : Payment) × (row : Payment) × (get_payment [] "pay-1" claimed_db ≡ ok read)
    × (find_payment "pay-1" claimed_db ≡ some row)
    × (row.version ≡ read.version)
    × (2 ≡ suc read.version)
    × (find_payment "pay-1" captured_db ≡ some captured_row)
lifecycle_version_example =
    lifecycle_version [] (capture_command "pay-1") capture_claim none (fresh 20 "" "e2") claimed_db
      captured_row captured_db staged_capture

abbrev late : ℕ
late = 300_000_000_000

abbrev expired_db : Db
expired_db = (expire_due_payments (λ k. "e8") writer (Reading.aware late) 100 awaiting_db).1

expiry_run :
    expire_due_payments (λ k. "e8") writer (Reading.aware late) 100 awaiting_db
    ≡ (ok ("pay-2" ∷ []), expired_db)
unfolding authorize_payment authorize_at read_clock replay_of find_idempotent_snapshot
    claim_idempotency_key stage_outcome conclude terms_of flush_authorization stage_authorization
    create_outbox_event insert_payment insert_ledger insert_claim insert_event version_taken
    payment_by_reference find insert replace payment_checks authorize expire_due_payments
    due_payments expire_each apply_expiry_transition is_due protecting_receipt_exists update_payment
    payment_state expire begin_coordinated_write require_aware_utc sort_by
expiry_run = refl

expire_due_effect_example : Expired late 100 awaiting_db ("pay-2" ∷ []) expired_db
expire_due_effect_example =
    expire_due_effect (λ k. "e8") writer late 100 awaiting_db expired_db ("pay-2" ∷ [])
      awaiting-IsSound expiry_run

abbrev settlement_lines : List SettlementInput
settlement_lines = record { payment_id = "pay-1"; amount = pos 500; currency = Currency.usd } ∷ []

abbrev settlement_id : ℕ → String
settlement_id n = "set_1"

import_atomic_example :
    ((e : Failure) × (create_settlement_batch settlement_id "setb_1" 70 60 settlement_lines
          captured_db
        ≡ (err e, captured_db)))
    ⊎ All (IsCovered captured_db 60) ("pay-1" ∷ [])
import_atomic_example = import_atomic settlement_id "setb_1" 70 60 settlement_lines captured_db
