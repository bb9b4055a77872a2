-- ===== src/Payments/Commit.antt =====
-- `_commit_payment_outcome`: payment, replay copy and outbox event in one commit.
use payment_platform_quality.Prelude.{Bool, true, false, Option, none, some, String, if◌then◌else◌}
use payment_platform_quality.Failure.{
  FailurePoint, Failure, Result, ok, err, concurrent_payment_update, simulated_timeout, ◌>>=◌, ◌>>◌,
  raise_if,
}
use payment_platform_quality.Database.Types.{Payment, IdempotencyRecord, WebhookEventType}
use payment_platform_quality.Database.Tables.{replace}
use payment_platform_quality.Database.Store.{Db}
use payment_platform_quality.Webhooks.Outbox.{from_payment, create_outbox_event}

abbrev pub is_before : Option FailurePoint → Bool
is_before (some FailurePoint.before_commit) = true
is_before (some FailurePoint.after_commit) = false
is_before none = false

abbrev pub is_after : Option FailurePoint → Bool
is_after (some FailurePoint.before_commit) = false
is_after (some FailurePoint.after_commit) = true
is_after none = false

-- The claim with its payment and the copy for replays, and its UPDATE.
abbrev pub completed : IdempotencyRecord → Payment → IdempotencyRecord
completed c p = record c { payment_id = some p.id; response_snapshot = some (from_payment p) }

abbrev pub complete_claim : IdempotencyRecord → Payment → Db → Db
complete_claim c p db = record db {
  idempotency_records = replace (λ r. r.key) (completed c p) db.idempotency_records;
}

-- The `try` block up to the commit: `flush` is what the caller has staged.
unfoldable pub stage_outcome :
    (Db → Result (Payment × Db))
    → IdempotencyRecord
    → WebhookEventType
    → String
    → Option FailurePoint
    → Db
    → Result (Payment × Db)
stage_outcome flush claim event_type event_id point db = do
  flushed ← flush db
  with_event ← create_outbox_event event_id flushed.0 event_type flushed.1
  raise_if (is_before point) (simulated_timeout FailurePoint.before_commit)
  ok (flushed.0, complete_claim claim flushed.0 with_event)

-- The `except` clauses: a lost race for the version becomes its own error.
abbrev pub as_concurrent : String → Failure → Failure
as_concurrent payment_id Failure.stale_data = concurrent_payment_update payment_id
as_concurrent payment_id e = e

-- A commit installs the staged database; an exception rolls back to the committed one. The
-- timeout after the commit is raised with the result in place.
unfoldable pub conclude :
    String → Option FailurePoint → Db → Result (Payment × Db) → Result Payment × Db
conclude payment_id point committed (err e) = (err (as_concurrent payment_id e), committed)
conclude payment_id point committed (ok (p, staged)) =
    if is_after point
    then (err (simulated_timeout FailurePoint.after_commit), staged)
    else (ok p, staged)
