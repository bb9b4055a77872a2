-- ===== src/Webhooks/Consumer.antt =====
-- `consume_webhook` of services/webhooks.py, from the verified and parsed envelope on: the inbox
-- and the merchant's projection.
use payment_platform_quality.Prelude.{
  ℕ, ◌+◌, Bool, true, false, ◌&&◌, not, ℤ, pos, negsuc, leb_ℤ, ltb_ℤ, Option, none, some, String,
  str_eq, ltb, ◌==◌, eqb_ℤ, if◌then◌else◌,
}
use payment_platform_quality.Domain.Types.{
  PaymentFlow, DeclineReason, same_status, flow_value, reason_value,
}
use payment_platform_quality.Coordination.{same_currency}
use payment_platform_quality.Failure.{
  Failure, Result, ok, err, stale_data, overflow_error, webhook_event_collision,
  webhook_version_conflict, concurrent_webhook_consumer, simulated_consumer_persistence, ◌>>=◌,
  ◌>>◌, raise_if, or_raise,
}
use payment_platform_quality.Database.Types.{EventPayload, PaymentSnapshot}
use payment_platform_quality.Database.Rows.{
  ProcessedWebhook, MerchantProjection, ConsumerDisposition,
}
use payment_platform_quality.Database.Tables.{find, insert, replace}
use payment_platform_quality.Database.Store.{Db}
use payment_platform_quality.Webhooks.Columns.{column, same_option}

abbrev pub find_processed : String → Db → Option ProcessedWebhook
find_processed k db = find (λ r. r.event_id) k db.processed_webhooks

abbrev pub find_projection : String → Db → Option MerchantProjection
find_projection k db = find (λ m. m.payment_id) k db.projections

abbrev pub same_flow : PaymentFlow → PaymentFlow → Bool
same_flow a b = str_eq (flow_value a) (flow_value b)

abbrev pub same_reason : DeclineReason → DeclineReason → Bool
same_reason a b = str_eq (reason_value a) (reason_value b)

-- `_projection_matches`
unfoldable pub projection_matches : MerchantProjection → PaymentSnapshot → Bool
projection_matches m p =
    str_eq m.merchant_reference p.merchant_reference
    && eqb_ℤ m.amount p.amount
    && same_currency m.currency p.currency
    && same_status m.status p.status
    && same_flow m.payment_flow p.payment_flow
    && same_option str_eq m.payment_reference p.payment_reference
    && same_option (λ a b. a == b) m.expires_at p.expires_at
    && same_option same_reason m.decline_reason p.decline_reason
    && eqb_ℤ m.authorized_amount p.authorized_amount
    && eqb_ℤ m.captured_amount p.captured_amount
    && eqb_ℤ m.refunded_amount p.refunded_amount
    && (m.aggregate_version == p.version)

-- The projection that is built from a payment of an event, or overwritten with it by
-- `_apply_projection`, whose `payment_id` is the same.
abbrev pub projection_of : String → PaymentSnapshot → MerchantProjection
projection_of event_id p = record {
  payment_id = p.id;
  merchant_reference = p.merchant_reference;
  amount = p.amount;
  currency = p.currency;
  status = p.status;
  payment_flow = p.payment_flow;
  payment_reference = p.payment_reference;
  expires_at = p.expires_at;
  decline_reason = p.decline_reason;
  authorized_amount = p.authorized_amount;
  captured_amount = p.captured_amount;
  refunded_amount = p.refunded_amount;
  aggregate_version = p.version;
  last_event_id = event_id;
  updated_at = p.updated_at;
}

-- The stored row after the UPDATE of a row that was read as `m` and assigned `n`.
unfoldable pub merged :
    MerchantProjection → MerchantProjection → MerchantProjection → MerchantProjection
merged m n r = record r {
  merchant_reference = column str_eq m.merchant_reference n.merchant_reference r.merchant_reference;
  amount = column eqb_ℤ m.amount n.amount r.amount;
  currency = column same_currency m.currency n.currency r.currency;
  status = column same_status m.status n.status r.status;
  payment_flow = column same_flow m.payment_flow n.payment_flow r.payment_flow;
  payment_reference =
      column (same_option str_eq) m.payment_reference n.payment_reference r.payment_reference;
  expires_at = column (same_option (λ a b. a == b)) m.expires_at n.expires_at r.expires_at;
  decline_reason =
      column (same_option same_reason) m.decline_reason n.decline_reason r.decline_reason;
  authorized_amount = column eqb_ℤ m.authorized_amount n.authorized_amount r.authorized_amount;
  captured_amount = column eqb_ℤ m.captured_amount n.captured_amount r.captured_amount;
  refunded_amount = column eqb_ℤ m.refunded_amount n.refunded_amount r.refunded_amount;
  aggregate_version =
      column (λ a b. a == b) m.aggregate_version n.aggregate_version r.aggregate_version;
  last_event_id = column str_eq m.last_event_id n.last_event_id r.last_event_id;
  updated_at = column (λ a b. a == b) m.updated_at n.updated_at r.updated_at;
}

-- What the transaction has staged for the projection.
pub data Change : Type 0 where
  added : MerchantProjection → Change
  assigned : MerchantProjection → MerchantProjection → Change
  untouched : Change

-- The branches on the projection: its change, the disposition and whether versions were skipped.
unfoldable pub weigh :
    EventPayload → Option MerchantProjection → Result (Change × ConsumerDisposition × Bool)
weigh e none = ok (
  Change.added (projection_of e.id e.payment),
  ConsumerDisposition.applied,
  ltb 1 e.aggregate_version,
)
weigh e (some m) =
    if ltb m.aggregate_version e.aggregate_version
    then ok (
      Change.assigned m (record (projection_of e.id e.payment) { payment_id = m.payment_id }),
      ConsumerDisposition.applied,
      ltb (m.aggregate_version + 1) e.aggregate_version,
    )
    else if ltb e.aggregate_version m.aggregate_version
    then ok (Change.untouched, ConsumerDisposition.stale, false)
    else if projection_matches m e.payment
    then ok (Change.untouched, ConsumerDisposition.redundant, false)
    else err (webhook_version_conflict e.payment.id)

-- The values that a column of SQLite holds as INTEGER: a parameter that is out of range raises
-- OverflowError before its statement runs.
abbrev pub fits_integer : ℤ → Bool
fits_integer x =
    leb_ℤ (negsuc 9_223_372_036_854_775_807) x && ltb_ℤ x (pos 9_223_372_036_854_775_808)

abbrev pub fits_projection : MerchantProjection → Bool
fits_projection m =
    fits_integer m.amount
    && fits_integer m.authorized_amount
    && fits_integer m.captured_amount
    && fits_integer m.refunded_amount
    && fits_integer (pos m.aggregate_version)

-- An UPDATE passes the assigned columns alone; the others have stored values, which fit.
unfoldable pub flush_change : Change → Db → Result Db
flush_change (Change.added n) db = do
  raise_if (not (fits_projection n)) overflow_error
  rows ← insert (λ m. m.payment_id) n db.projections
  ok (record db { projections = rows })
flush_change (Change.assigned m n) db = do
  raise_if (not (fits_projection n)) overflow_error
  r ← or_raise (find_projection m.payment_id db) stale_data
  ok (record db { projections = replace (λ q. q.payment_id) (merged m n r) db.projections })
flush_change Change.untouched db = ok db

unfoldable pub insert_processed : ProcessedWebhook → Db → Result Db
insert_processed r db = do
  raise_if (not (fits_integer (pos r.aggregate_version))) overflow_error
  rows ← insert (λ q. q.event_id) r db.processed_webhooks
  ok (record db { processed_webhooks = rows })

-- `ConsumerOutcome`
pub record ConsumerOutcome : Type 0 where
  pub event_id : String
  pub disposition : ConsumerDisposition
  pub duplicate : Bool
  pub version_gap : Bool

abbrev pub inbox_row : String → EventPayload → ConsumerDisposition → Bool → ℕ → ProcessedWebhook
inbox_row payload_hash e disposition version_gap now = record {
  event_id = e.id;
  payment_id = e.payment.id;
  event_type = e.event_type;
  aggregate_version = e.aggregate_version;
  payload_hash = payload_hash;
  disposition = disposition;
  version_gap = version_gap;
  processed_at = now;
}

-- The answer to an event whose inbox row is there.
unfoldable pub seen_before : String → EventPayload → ProcessedWebhook → Result ConsumerOutcome
seen_before payload_hash e r =
    if str_eq r.payload_hash payload_hash
    then ok (record {
      event_id = e.id;
      disposition = ConsumerDisposition.duplicate;
      duplicate = true;
      version_gap = r.version_gap;
    })
    else err (webhook_event_collision e.id)

-- The handler of the flush: a refused row is the work of another consumer.
unfoldable pub after_consumer_race :
    String → EventPayload → Option ProcessedWebhook → Result ConsumerOutcome
after_consumer_race payload_hash e none = err (concurrent_webhook_consumer e.payment.id)
after_consumer_race payload_hash e (some r) = seen_before payload_hash e r

-- `except IntegrityError`
abbrev pub is_integrity_error : Failure → Bool
is_integrity_error Failure.integrity_error = true
is_integrity_error _ = false

unfoldable pub conclude_consumption :
    String
    → EventPayload
    → Bool
    → ConsumerDisposition
    → Bool
    → Db
    → Result Db
    → Result ConsumerOutcome × Db
conclude_consumption payload_hash e fail_after_inbox disposition version_gap db (ok staged) =
    if fail_after_inbox then (err simulated_consumer_persistence, db) else (
      ok (record {
        event_id = e.id;
        disposition = disposition;
        duplicate = false;
        version_gap = version_gap;
      }),
      staged,
    )
conclude_consumption payload_hash e fail_after_inbox disposition version_gap db (err f) =
    if is_integrity_error f
    then (after_consumer_race payload_hash e (find_processed e.id db), db)
    else (err f, db)

-- The flush and its end, on the tables that the other sessions have left.
unfoldable pub apply_event :
    String
    → EventPayload
    → ℕ
    → Bool
    → Db
    → Result (Change × ConsumerDisposition × Bool)
    → Result ConsumerOutcome × Db
apply_event payload_hash e now fail_after_inbox db (err f) = (err f, db)
apply_event payload_hash e now fail_after_inbox db (ok (change, disposition, version_gap)) =
    conclude_consumption payload_hash e fail_after_inbox disposition version_gap db (
      flush_change change db
      >>= insert_processed (inbox_row payload_hash e disposition version_gap now))

unfoldable pub consume_unseen :
    (Db → Db)
    → String
    → EventPayload
    → ℕ
    → Bool
    → Option ProcessedWebhook
    → Db
    → Result ConsumerOutcome × Db
consume_unseen others payload_hash e now fail_after_inbox (some r) db =
    (seen_before payload_hash e r, db)
consume_unseen others payload_hash e now fail_after_inbox none db =
    apply_event payload_hash e now fail_after_inbox (others db)
      (weigh e (find_projection e.payment.id db))

-- `consume_webhook` of a verified payload. `others` is what other consumers commit between the
-- reads and the flush.
unfoldable pub consume_webhook :
    (Db → Db) → String → EventPayload → ℕ → Bool → Db → Result ConsumerOutcome × Db
consume_webhook others payload_hash e now fail_after_inbox db =
    consume_unseen others payload_hash e now fail_after_inbox (find_processed e.id db) db
