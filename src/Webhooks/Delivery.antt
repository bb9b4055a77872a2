-- ===== src/Webhooks/Delivery.antt =====
-- The delivery of outbox events in services/webhooks.py: lease, call of the receiver, record.
-- Times are in microseconds.
use payment_platform_quality.Prelude.{
  ℕ, zero, suc, ◌+◌, ◌/◌, Bool, true, false, not, ◌&&◌, ◌||◌, Option, none, some, List, [], ◌∷◌,
  String, str_eq, ltb, leb, ◌==◌, if◌then◌else◌,
}
use payment_platform_quality.Failure.{
  Failure, Result, ok, err, integrity_error, stale_data, webhook_event_not_found,
  webhook_delivery_not_ready, ◌>>=◌, ◌>>◌, raise_if, or_raise,
}
use payment_platform_quality.Database.Types.{WebhookEvent, WebhookStatus, EventPayload}
use payment_platform_quality.Database.Rows.{DeliveryAttempt, DeliveryOutcome, ErrorCode}
use payment_platform_quality.Database.Tables.{is_some, insert, replace}
use payment_platform_quality.Database.Store.{Db, find_event}
use payment_platform_quality.Webhooks.Columns.{column, same_option}

abbrev pub second : ℕ
second = 1_000_000

abbrev pub max_delivery_attempts : ℕ
max_delivery_attempts = 3

-- `RETRY_DELAYS_SECONDS[i]`; an index out of range raises.
abbrev pub retry_delay : ℕ → Result ℕ
retry_delay zero = ok second
retry_delay (suc zero) = ok 5_000_000
retry_delay (suc (suc n)) = err Failure.index_error

-- `DELIVERY_LEASE_SECONDS`
abbrev pub lease_window : ℕ
lease_window = 30_000_000

-- `column <= now` in SQL, where the column may be NULL
abbrev pub not_after : Option ℕ → ℕ → Bool
not_after none now = false
not_after (some t) now = leb t now

-- The WHERE clause of the lease.
abbrev pub may_claim : WebhookStatus → ℕ → Option ℕ → ℕ → Bool
may_claim WebhookStatus.pending next_attempt_at lease_expires_at now = leb next_attempt_at now
may_claim WebhookStatus.processing next_attempt_at lease_expires_at now =
    not_after lease_expires_at now
may_claim WebhookStatus.delivered next_attempt_at lease_expires_at now = false
may_claim WebhookStatus.exhausted next_attempt_at lease_expires_at now = false

abbrev pub leased : WebhookEvent → String → ℕ → WebhookEvent
leased e lease_token now = record e {
  status = WebhookStatus.processing;
  lease_token = some lease_token;
  lease_expires_at = some (now + lease_window);
}

abbrev pub update_event : WebhookEvent → Db → Db
update_event e db = record db { webhook_events = replace (λ q. q.id) e db.webhook_events }

claim_event : String → Option WebhookEvent → String → ℕ → Db → Result String × Db
claim_event event_id none lease_token now db = (err (webhook_event_not_found event_id), db)
claim_event event_id (some e) lease_token now db =
    if may_claim e.status e.next_attempt_at e.lease_expires_at now
    then (ok lease_token, update_event (leased e lease_token now) db)
    else (err (webhook_delivery_not_ready event_id), db)

-- `_claim_delivery`, with the token that `uuid4` gave: one conditional UPDATE and its commit.
unfoldable pub claim_delivery : String → String → ℕ → Db → Result String × Db
unfolding claim_event
claim_delivery event_id lease_token now db =
    claim_event event_id (find_event event_id db) lease_token now db

-- `DeliveryResult`
pub record DeliveryResult : Type 0 where
  pub event_id : String
  pub attempt_number : ℕ
  pub outcome : DeliveryOutcome
  pub status : WebhookStatus
  pub response_status : Option ℕ
  pub next_attempt_at : Option ℕ

-- What an attempt has come to: its outcome, the answer's status and the error code.
pub record Report : Type 0 where
  pub outcome : DeliveryOutcome
  pub response_status : Option ℕ
  pub error_code : Option ErrorCode

-- `response_status is not None and 200 <= response_status < 300`
abbrev pub is_success : Option ℕ → Bool
is_success none = false
is_success (some n) = leb 200 n && ltb n 300

-- The event with its lease given back and the attempt counted.
abbrev pub attempted : WebhookEvent → WebhookEvent
attempted e = record e {
  attempt_count = e.attempt_count + 1;
  lease_token = none;
  lease_expires_at = none;
}

-- The three branches on the answer and the attempts, with the time of the next attempt.
unfoldable pub settle_event : WebhookEvent → Option ℕ → ℕ → Result (WebhookEvent × Option ℕ)
settle_event e response_status now =
    let a = attempted e in
    if is_success response_status
    then ok (
      record a { status = WebhookStatus.delivered; delivered_at = some now; next_attempt_at = now },
      none,
    )
    else if leb max_delivery_attempts a.attempt_count
    then ok (record a { status = WebhookStatus.exhausted; next_attempt_at = now }, none)
    else do
      delay ← retry_delay e.attempt_count
      ok (
        record a { status = WebhookStatus.pending; next_attempt_at = now + delay },
        some (now + delay),
      )

-- `uq_delivery_event_attempt`
unfoldable pub attempt_taken : String → ℕ → List DeliveryAttempt → Bool
attempt_taken k n [] = false
attempt_taken k n (a ∷ rows) =
    (str_eq a.event_id k && (a.attempt_number == n)) || attempt_taken k n rows

unfoldable pub insert_attempt : DeliveryAttempt → Db → Result Db
insert_attempt a db = do
  raise_if
      (not (leb 1 a.attempt_number)
        || not (is_some (find_event a.event_id db))
        || attempt_taken a.event_id a.attempt_number db.delivery_attempts)
      integrity_error
  rows ← insert (λ q. q.id) a db.delivery_attempts
  ok (record db { delivery_attempts = rows })

abbrev pub attempt_row : String → WebhookEvent → Report → ℕ → DeliveryAttempt
attempt_row attempt_id e report now = record {
  id = attempt_id;
  event_id = e.id;
  attempt_number = e.attempt_count;
  outcome = report.outcome;
  response_status = report.response_status;
  error_code = report.error_code;
  attempted_at = now;
}

abbrev pub holds_lease : Option String → String → Bool
holds_lease none lease_token = false
holds_lease (some t) lease_token = str_eq t lease_token

abbrev pub same_event_status : WebhookStatus → WebhookStatus → Bool
same_event_status WebhookStatus.pending WebhookStatus.pending = true
same_event_status WebhookStatus.processing WebhookStatus.processing = true
same_event_status WebhookStatus.delivered WebhookStatus.delivered = true
same_event_status WebhookStatus.exhausted WebhookStatus.exhausted = true
same_event_status _ _ = false

-- The stored row after the UPDATE of an event that was loaded as `e` and assigned as `n`: the
-- columns whose assigned value is not the loaded one.
unfoldable pub merged_event : WebhookEvent → WebhookEvent → WebhookEvent → WebhookEvent
merged_event e n r = record r {
  status = column same_event_status e.status n.status r.status;
  attempt_count = column (λ a b. a == b) e.attempt_count n.attempt_count r.attempt_count;
  next_attempt_at = column (λ a b. a == b) e.next_attempt_at n.next_attempt_at r.next_attempt_at;
  lease_token = column (same_option str_eq) e.lease_token n.lease_token r.lease_token;
  lease_expires_at =
      column (same_option (λ a b. a == b)) e.lease_expires_at n.lease_expires_at r.lease_expires_at;
  delivered_at = column (same_option (λ a b. a == b)) e.delivered_at n.delivered_at r.delivered_at;
}

-- An UPDATE that finds no row raises StaleDataError.
unfoldable pub flush_event : WebhookEvent → WebhookEvent → Db → Result Db
flush_event e n db = do
  r ← or_raise (find_event e.id db) stale_data
  ok (update_event (merged_event e n r) db)

-- `session.get`: the object that the session has loaded before, else the row.
abbrev pub get_event : Option WebhookEvent → String → Db → Result WebhookEvent
get_event (some e) event_id db = ok e
get_event none event_id db = or_raise (find_event event_id db) (webhook_event_not_found event_id)

-- `_finalize_delivery` up to its commit, in a session that has loaded `loaded` for the event.
unfoldable pub stage_delivery :
    Option WebhookEvent → String → String → String → ℕ → Report → Db → Result (DeliveryResult × Db)
stage_delivery loaded event_id lease_token attempt_id now report db = do
  e ← get_event loaded event_id db
  raise_if (not (holds_lease e.lease_token lease_token)) (webhook_delivery_not_ready event_id)
  settled ← settle_event e report.response_status now
  updated ← flush_event e settled.0 db
  with_attempt ← insert_attempt (attempt_row attempt_id settled.0 report now) updated
  ok (
    record {
      event_id = settled.0.id;
      attempt_number = settled.0.attempt_count;
      outcome = report.outcome;
      status = settled.0.status;
      response_status = report.response_status;
      next_attempt_at = settled.1;
    },
    with_attempt,
  )

abbrev pub committed : Db → Result (DeliveryResult × Db) → Result DeliveryResult × Db
committed db (ok (r, staged)) = (ok r, staged)
committed db (err e) = (err e, db)

unfoldable pub finalize_delivery :
    Option WebhookEvent → String → String → String → ℕ → Report → Db → Result DeliveryResult × Db
finalize_delivery loaded event_id lease_token attempt_id now report db =
    committed db (stage_delivery loaded event_id lease_token attempt_id now report db)

pub data DeliveryFault : Type 0 where
  before_delivery ack_lost_after_consumer : DeliveryFault

-- How a call of the receiver ends: a status, a TimeoutError, a ConnectionError, or another
-- exception.
pub data Reply : Type 0 where
  status : ℕ → Reply
  timed_out refused : Reply
  raises : Failure → Reply

abbrev pub lost_report : Report
lost_report = record {
  outcome = DeliveryOutcome.timeout;
  response_status = none;
  error_code = some ErrorCode.delivery_timeout;
}

abbrev pub status_report : ℕ → Report
status_report n =
    if is_success (some n)
    then record { outcome = DeliveryOutcome.success; response_status = some n; error_code = none }
    else record {
      outcome = DeliveryOutcome.http_error;
      response_status = some n;
      error_code = some (ErrorCode.http n);
    }

-- The rest of the `try` block of `dispatch_webhook` and its handlers, on the receiver's reply: an
-- exception of another class is not handled.
unfoldable pub report_of : Bool → Reply → Result Report
report_of ack_lost Reply.timed_out = ok lost_report
report_of ack_lost Reply.refused = ok (record {
  outcome = DeliveryOutcome.connection_error;
  response_status = none;
  error_code = some ErrorCode.connection_refused;
})
report_of ack_lost (Reply.raises e) = err e
report_of true (Reply.status n) = ok lost_report
report_of false (Reply.status n) = ok (status_report n)

-- A receiver is given the body, the signature and the time, and may write the consumer's tables.
abbrev pub Receiver : Type 0
Receiver = String → String → ℕ → Db → Reply × Db

-- The `try` block, with the simulated timeout before the call.
unfoldable pub call_receiver :
    Receiver → Option DeliveryFault → String → String → ℕ → Db → Result Report × Db
call_receiver receiver (some DeliveryFault.before_delivery) payload signature now db =
    (ok lost_report, db)
call_receiver receiver none payload signature now db =
    let answer = receiver payload signature now db in (report_of false answer.0, answer.1)
call_receiver receiver (some DeliveryFault.ack_lost_after_consumer) payload signature now db =
    let answer = receiver payload signature now db in (report_of true answer.0, answer.1)

-- An exception leaves the lease as it is; a report is recorded. The session still has the event
-- that it loaded after the lease: a commit does not expire it, and the receiver uses a session of
-- its own.
unfoldable pub record_report :
    WebhookEvent → String → String → String → ℕ → Result Report × Db → Result DeliveryResult × Db
record_report loaded event_id lease_token attempt_id now (err e, db) = (err e, db)
record_report loaded event_id lease_token attempt_id now (ok report, db) =
    finalize_delivery (some loaded) event_id lease_token attempt_id now report db

-- `sign` is `sign_webhook`, and `encode` gives the bytes of a stored payload.
module _ (encode : EventPayload → String) (sign : String → String → ℕ → Result String)
    (receiver : Receiver) where
  unfoldable pub deliver_signed :
      String
      → String
      → String
      → ℕ
      → Option DeliveryFault
      → WebhookEvent
      → Db
      → Result String
      → Result DeliveryResult × Db
  deliver_signed event_id lease_token attempt_id now fault event db (err e) = (err e, db)
  deliver_signed event_id lease_token attempt_id now fault event db (ok signature) =
      record_report event event_id lease_token attempt_id now
        (call_receiver receiver fault (encode event.payload) signature now db)

  unfoldable pub deliver_leased :
      String
      → String
      → String
      → String
      → ℕ
      → Option DeliveryFault
      → Option WebhookEvent
      → Db
      → Result DeliveryResult × Db
  deliver_leased event_id secret lease_token attempt_id now fault none db =
      (err (webhook_event_not_found event_id), db)
  deliver_leased event_id secret lease_token attempt_id now fault (some e) db =
      deliver_signed event_id lease_token attempt_id now fault e db
        (sign (encode e.payload) secret (now / second))

  unfoldable pub after_lease :
      String
      → String
      → String
      → ℕ
      → Option DeliveryFault
      → Result String × Db
      → Result DeliveryResult × Db
  after_lease event_id secret attempt_id now fault (err e, db) = (err e, db)
  after_lease event_id secret attempt_id now fault (ok lease_token, db) =
      deliver_leased event_id secret lease_token attempt_id now fault (find_event event_id db) db

  -- `dispatch_webhook`: lease, sign, call the receiver, record.
  unfoldable pub dispatch_webhook :
      String → String → String → String → ℕ → Option DeliveryFault → Db → Result DeliveryResult × Db
  dispatch_webhook event_id secret lease_token attempt_id now fault db =
      after_lease event_id secret attempt_id now fault (claim_delivery event_id lease_token now db)
