-- ===== src/Tests/Webhooks.antt =====
-- Examples for the theorems on leases and on the consumer of the events.
use payment_platform_quality.Prelude.{ℕ, Bool, none, some, ◌∷◌, ◌≡◌, refl, arith, String}
use payment_platform_quality.Domain.Operations.{authorize}
use payment_platform_quality.Failure.{ok, err, integrity_error}
use payment_platform_quality.Database.Types.{
  WebhookEvent, WebhookStatus, WebhookEventType, EventPayload,
}
use payment_platform_quality.Database.Rows.{DeliveryOutcome, ConsumerDisposition}
use payment_platform_quality.Database.Tables.{find, insert, replace}
use payment_platform_quality.Database.Checks.{payment_checks}
use payment_platform_quality.Database.Store.{
  Db, empty_db, find_event, insert_payment, insert_ledger, insert_claim, insert_event,
  version_taken, payment_by_reference,
}
use payment_platform_quality.Webhooks.Outbox.{outbox_event, create_outbox_event}
use payment_platform_quality.Webhooks.Delivery.{
  Report, leased, update_event, attempt_row, attempt_taken, claim_delivery, finalize_delivery,
  stage_delivery, settle_event, flush_event, merged_event, insert_attempt, DeliveryResult,
}
use payment_platform_quality.Webhooks.Leases.{ConsistentEvent, Settled, retry_at, finalize_settles}
use payment_platform_quality.Webhooks.Superseded.{attempt_recorded_once}
use payment_platform_quality.Webhooks.Consumer.{
  merged, find_projection, ConsumerOutcome, weigh, flush_change, insert_processed,
  conclude_consumption, apply_event, consume_unseen, consume_webhook,
}
use payment_platform_quality.Webhooks.Inbox.{version_of}
use payment_platform_quality.Payments.Commands.{read_clock}
use payment_platform_quality.Payments.Claims.{
  replay_of, find_idempotent_snapshot, claim_idempotency_key,
}
use payment_platform_quality.Payments.Commit.{stage_outcome, conclude}
use payment_platform_quality.Payments.Authorize.{
  terms_of, flush_authorization, stage_authorization, authorize_at, authorize_payment,
}
use payment_platform_quality.Tests.Data.{alone, authorized_db, authorized_row}

abbrev event : WebhookEvent
event = outbox_event "e1" authorized_row WebhookEventType.authorized

abbrev leased_db : Db
leased_db = (claim_delivery "e1" "lease_1" 20 authorized_db).1

abbrev released_db : Db
released_db = (claim_delivery "e1" "lease_2" 31_000_000 leased_db).1

lease_taken : claim_delivery "e1" "lease_2" 31_000_000 leased_db ≡ (ok "lease_2", released_db)
unfolding authorize_payment authorize_at read_clock replay_of find_idempotent_snapshot
    claim_idempotency_key stage_outcome conclude terms_of flush_authorization stage_authorization
    create_outbox_event insert_payment insert_ledger insert_claim insert_event version_taken
    payment_by_reference find insert replace payment_checks authorize claim_delivery
lease_taken = refl

abbrev refusal : Report
refusal = record { outcome = DeliveryOutcome.timeout; response_status = none; error_code = none }

-- The first worker reports while the second one holds the lease.
abbrev reported_db : Db
reported_db =
    (finalize_delivery (some (leased event "lease_1" 20)) "e1" "lease_1" "att_1" 32_000_000 refusal
      released_db).1

abbrev first_report : DeliveryResult
first_report = record {
  event_id = "e1";
  attempt_number = 1;
  outcome = DeliveryOutcome.timeout;
  status = WebhookStatus.pending;
  response_status = none;
  next_attempt_at = some 33_000_000;
}

reported :
    finalize_delivery
      (some (leased event "lease_1" 20))
      "e1"
      "lease_1"
      "att_1"
      32_000_000
      refusal
      released_db
    ≡ (ok first_report, reported_db)
unfolding authorize_payment authorize_at read_clock replay_of find_idempotent_snapshot
    claim_idempotency_key stage_outcome conclude terms_of flush_authorization stage_authorization
    create_outbox_event insert_payment insert_ledger insert_claim insert_event version_taken
    payment_by_reference find insert replace payment_checks authorize claim_delivery
    finalize_delivery stage_delivery settle_event flush_event merged_event insert_attempt
    attempt_taken
reported = refl

attempt_recorded_once_example :
    finalize_delivery
      (some (leased event "lease_2" 31_000_000))
      "e1"
      "lease_2"
      "att_2"
      33_000_000
      refusal
      reported_db
    ≡ (err integrity_error, reported_db)
attempt_recorded_once_example =
    attempt_recorded_once (leased event "lease_1" 20) (leased event "lease_2" 31_000_000) "e1"
      "lease_1" "lease_2" "att_1" "att_2" 32_000_000 33_000_000 refusal refusal first_report
      released_db reported_db refl refl (ground arith) refl reported

leased_found : find_event "e1" leased_db ≡ some (leased event "lease_1" 20)
unfolding authorize_payment authorize_at read_clock replay_of find_idempotent_snapshot
    claim_idempotency_key stage_outcome conclude terms_of flush_authorization stage_authorization
    create_outbox_event insert_payment insert_ledger insert_claim insert_event version_taken
    payment_by_reference find insert replace payment_checks authorize claim_delivery
leased_found = refl

leased_consistent : ConsistentEvent (leased event "lease_1" 20)
leased_consistent = (ground arith, refl, refl)

no_attempt : attempt_taken "e1" 1 leased_db.delivery_attempts ≡ Bool.false
unfolding authorize_payment authorize_at read_clock replay_of find_idempotent_snapshot
    claim_idempotency_key stage_outcome conclude terms_of flush_authorization stage_authorization
    create_outbox_event insert_payment insert_ledger insert_claim insert_event version_taken
    payment_by_reference find insert replace payment_checks authorize claim_delivery attempt_taken
no_attempt = refl

no_row : find (λ a. a.id) "att_1" leased_db.delivery_attempts ≡ none
unfolding authorize_payment authorize_at read_clock replay_of find_idempotent_snapshot
    claim_idempotency_key stage_outcome conclude terms_of flush_authorization stage_authorization
    create_outbox_event insert_payment insert_ledger insert_claim insert_event version_taken
    payment_by_reference find insert replace payment_checks authorize claim_delivery
no_row = refl

finalize_settles_example :
    (e' : WebhookEvent) × Settled (leased event "lease_1" 20) e' none 30
    × (finalize_delivery
          (some (leased event "lease_1" 20))
          "e1"
          "lease_1"
          "att_1"
          30
          refusal
          leased_db
        ≡ (
          ok (record {
            event_id = "e1";
            attempt_number = 1;
            outcome = DeliveryOutcome.timeout;
            status = e'.status;
            response_status = none;
            next_attempt_at = retry_at e' none;
          }),
          record (update_event e' leased_db) {
            delivery_attempts = attempt_row "att_1" e' refusal 30 ∷ leased_db.delivery_attempts;
          },
        ))
finalize_settles_example =
    finalize_settles "e1" "lease_1" "att_1" 30 refusal leased_db (leased event "lease_1" 20)
      leased_found leased_consistent refl no_attempt no_row

abbrev applied : ConsumerOutcome
applied = record {
  event_id = "e1";
  disposition = ConsumerDisposition.applied;
  duplicate = Bool.false;
  version_gap = Bool.false;
}

abbrev consumed_db : Db
consumed_db = (consume_webhook alone "h1" event.payload 40 Bool.false empty_db).1

-- Another consumer commits the third version between the reads and the flush of the second.
abbrev version : String → ℕ → EventPayload
version event_id n =
    (outbox_event event_id (record authorized_row { version = n })
      WebhookEventType.captured).payload

abbrev third_commits : Db → Db
third_commits db = (consume_webhook alone "h3" (version "e3" 3) 60 Bool.false db).1

projection_regresses :
    (version_of (find_projection "pay-1" (third_commits consumed_db)) ≡ 3)
    × (version_of (
          find_projection "pay-1"
            (consume_webhook third_commits "h2" (version "e2" 2) 70 Bool.false consumed_db).1)
        ≡ 2)
unfolding consume_webhook consume_unseen apply_event conclude_consumption weigh flush_change
    insert_processed find insert replace merged
projection_regresses = (refl, refl)
