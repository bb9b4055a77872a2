-- ===== src/Tests/Reporting.antt =====
-- Examples for the theorems on the confirmation section.
use payment_platform_quality.Prelude.{some, none, [], ◌∷◌, ◌≡◌, refl, sort_by}
use payment_platform_quality.Failure.{ok}
use payment_platform_quality.Coordination.{begin_coordinated_write}
use payment_platform_quality.Database.Rows.{Evidence}
use payment_platform_quality.Database.Store.{Db, empty_db}
use payment_platform_quality.Database.Tables.{find, insert}
use payment_platform_quality.Domain.Operations.{authorize, capture_confirmation, payment_state}
use payment_platform_quality.Database.Tables.{replace}
use payment_platform_quality.Database.Checks.{payment_checks}
use payment_platform_quality.Database.Store.{
  insert_claim, insert_confirmation, insert_event, insert_ledger, insert_payment, insert_receipt,
  payment_by_reference, update_payment, version_taken,
}
use payment_platform_quality.Coordination.{protecting_receipt_exists, protects}
use payment_platform_quality.Webhooks.Outbox.{create_outbox_event}
use payment_platform_quality.Payments.Commands.{read_clock}
use payment_platform_quality.Payments.Claims.{
  claim_idempotency_key, find_idempotent_snapshot, replay_of,
}
use payment_platform_quality.Payments.Commit.{conclude, stage_outcome}
use payment_platform_quality.Payments.Authorize.{
  authorize_at, authorize_payment, flush_authorization, stage_authorization, terms_of,
}
use payment_platform_quality.Confirmations.Commands.{require_aware_utc}
use payment_platform_quality.Confirmations.Accept.{accept_confirmation, stage_receipt}
use payment_platform_quality.Confirmations.Dispositions.{apply_capture, apply_disposition, classify}
use payment_platform_quality.Confirmations.Complete.{
  complete_confirmation, complete_receipt, complete_unless_done, conclude_completion,
  existing_outcome, stage_completion,
}
use payment_platform_quality.Reporting.Counters.{count_outcomes, outcome_of, statuses_until}
use payment_platform_quality.Reporting.Section.{
  find_report, gather_evidence, insert_report, generate, section_of, confirmation_section,
}
use payment_platform_quality.Reporting.Frozen.{
  IsFirstReport, confirmation_section_frozen, confirmation_section_accounts,
}
use payment_platform_quality.Tests.Data.{writer, confirmed_db}

-- A batch whose cutoff is after the confirmation.
abbrev batch_db : Db
batch_db = record confirmed_db {
  batches = record { id = "b1"; cutoff = 100; created_at = 50 } ∷ [];
}

abbrev evidence : Evidence
evidence = gather_evidence 100 200 batch_db

abbrev reported_db : Db
reported_db = record batch_db { reports = record { batch_id = "b1"; payload = evidence } ∷ [] }

section_run : confirmation_section writer "b1" (some 200) batch_db ≡ (ok evidence, reported_db)
unfolding authorize_payment authorize_at read_clock replay_of find_idempotent_snapshot
    claim_idempotency_key stage_outcome conclude terms_of flush_authorization stage_authorization
    create_outbox_event insert_payment insert_ledger insert_claim insert_event version_taken
    payment_by_reference find insert replace payment_checks authorize accept_confirmation
    stage_receipt begin_coordinated_write insert_receipt require_aware_utc complete_confirmation
    complete_receipt complete_unless_done conclude_completion stage_completion existing_outcome
    insert_confirmation classify apply_disposition apply_capture update_payment payment_state
    capture_confirmation protects protecting_receipt_exists confirmation_section section_of generate
    insert_report
section_run = refl

not_reported : find_report "b1" batch_db ≡ none
unfolding authorize_payment authorize_at read_clock replay_of find_idempotent_snapshot
    claim_idempotency_key stage_outcome conclude terms_of flush_authorization stage_authorization
    create_outbox_event insert_payment insert_ledger insert_claim insert_event version_taken
    payment_by_reference find insert replace payment_checks authorize accept_confirmation
    stage_receipt begin_coordinated_write insert_receipt require_aware_utc complete_confirmation
    complete_receipt complete_unless_done conclude_completion stage_completion existing_outcome
    insert_confirmation classify apply_disposition apply_capture update_payment payment_state
    capture_confirmation protects protecting_receipt_exists
not_reported = refl

-- A later database without payments, which has kept the report.
abbrev later_db : Db
later_db = record empty_db { reports = reported_db.reports }

confirmation_section_frozen_example :
    confirmation_section writer "b1" none later_db ≡ (ok evidence, later_db)
confirmation_section_frozen_example =
    confirmation_section_frozen writer writer "b1" (some 200) none batch_db evidence reported_db
      later_db section_run (unfold begin_coordinated_write in refl) refl

confirmation_section_accounts_example : IsFirstReport "b1" batch_db evidence
confirmation_section_accounts_example =
    confirmation_section_accounts writer "b1" (some 200) batch_db evidence reported_db not_reported
      section_run

-- The delayed payment is confirmed on time.
evidence_run : (evidence.payment_count ≡ 1) × (evidence.payment_outcomes.confirmed_on_time ≡ 1)
unfolding authorize_payment authorize_at read_clock replay_of find_idempotent_snapshot
    claim_idempotency_key stage_outcome conclude terms_of flush_authorization stage_authorization
    create_outbox_event insert_payment insert_ledger insert_claim insert_event version_taken
    payment_by_reference find insert replace payment_checks authorize accept_confirmation
    stage_receipt begin_coordinated_write insert_receipt require_aware_utc complete_confirmation
    complete_receipt complete_unless_done conclude_completion stage_completion existing_outcome
    insert_confirmation classify apply_disposition apply_capture update_payment payment_state
    capture_confirmation protects protecting_receipt_exists gather_evidence count_outcomes
    outcome_of statuses_until sort_by
evidence_run = (refl, refl)
