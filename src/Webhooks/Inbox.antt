-- ===== src/Webhooks/Inbox.antt =====
-- What `consume_webhook` of services/webhooks.py promises: each event is applied once, and the
-- projection never goes back to an older version.
use payment_platform_quality.Prelude.{
  ℕ, ◌≤◌, ◌<◌, Bool, true, false, not, Option, none, some, String, eq_iff, ◌≡◌, inl, inr, refl,
  arith, ap, Option-cases, ◌∙◌,
}
use payment_platform_quality.Failure.{
  Result, ok, err, overflow_error, raise_if, ◌>>=◌, Result-cases, >>=-eq-ok,
}
use payment_platform_quality.Database.Types.{EventPayload}
use payment_platform_quality.Database.Rows.{
  ProcessedWebhook, MerchantProjection, ConsumerDisposition,
}
use payment_platform_quality.Database.Tables.{
  is_some, find, insert, find-replace, find-insert, find_key,
}
use payment_platform_quality.Database.Store.{Db}
use payment_platform_quality.Database.Inversion.{insert_inv}
use payment_platform_quality.Webhooks.Consumer.{
  find_processed, find_projection, fits_projection, Change, weigh, flush_change, insert_processed,
  ConsumerOutcome, inbox_row, conclude_consumption, apply_event, consume_unseen, consume_webhook,
  merged,
}

-- What the inbox keeps of a consumption that returned.
record Remembered (payload_hash : String) (e : EventPayload) (db : Db) (r : ConsumerOutcome)
    : Type 0 where
  row : ProcessedWebhook
  found : find_processed e.id db ≡ some row
  same_payload : row.payload_hash ≡ payload_hash
  same_gap : row.version_gap ≡ r.version_gap
  same_event : r.event_id ≡ e.id

abbrev pub version_of : Option MerchantProjection → ℕ
version_of none = 0
version_of (some m) = m.aggregate_version

version_added :
    (n : MerchantProjection) (k : String) (db db' : Db)
    → flush_change (Change.added n) db ≡ ok db'
    → version_of (find_projection k db) ≤ version_of (find_projection k db')
unfolding flush_change
version_added n k db db' h =
    let key = (λ (m : MerchantProjection). m.payment_id) in
    let (_, _, stored) = >>=-eq-ok (raise_if (not (fits_projection n)) overflow_error) _ h in
    let parts =
      >>=-eq-ok (insert key n db.projections) (λ rows. ok (record db { projections = rows }))
        stored in
    let placed = find-insert key n k db.projections parts.0 parts.1 in
    let absent = insert_inv key n db.projections parts.0 parts.1 in
    ground (arith, placed, absent, h, eq_iff n.payment_id k)

version_assigned :
    (m n : MerchantProjection) (k : String) (db db' : Db)
    → find_projection m.payment_id db ≡ some m
    → m.aggregate_version < n.aggregate_version
    → flush_change (Change.assigned m n) db ≡ ok db'
    → version_of (find_projection k db) ≤ version_of (find_projection k db')
unfolding flush_change merged
version_assigned m n k db db' found newer h =
    let key = (λ (q : MerchantProjection). q.payment_id) in
    let there : is_some (find key m.payment_id db.projections) ≡ true = rw found refl in
    let placed = find-replace key (merged m n m) k db.projections there in
    ground (arith, placed, found, h, newer, eq_iff m.payment_id k, there)

flush_change_version :
    (e : EventPayload) (change : Change) (disposition : ConsumerDisposition) (version_gap : Bool)
    (k : String) (db db' : Db)
    → e.payment.version ≡ e.aggregate_version
    → weigh e (find_projection e.payment.id db) ≡ ok (change, disposition, version_gap)
    → flush_change change db ≡ ok db'
    → version_of (find_projection k db) ≤ version_of (find_projection k db')
unfolding weigh flush_change
flush_change_version e (Change.added n) disposition version_gap k db db' same weighed flushed =
    version_added n k db db' flushed
flush_change_version e (Change.assigned m n) disposition version_gap k db db' same weighed flushed =
    elim (Option-cases (find_projection e.payment.id db)) [
      | inl none_yet ↦ absurd (ground (arith, weighed, none_yet))
      | inr (r, found) ↦
          let k' : r.payment_id ≡ e.payment.id =
            find_key (λ q. q.payment_id) e.payment.id r db.projections found in
          let old : m ≡ r = ground (arith, weighed, found) in
          let newer : r.aggregate_version < n.aggregate_version =
            ground (arith, weighed, found, same) in
          version_assigned m n k db db' (rw old (ap (λ j. find_projection j db) k' ∙ found))
            (rw old newer) flushed
    ]
flush_change_version e Change.untouched disposition version_gap k db db' same weighed flushed =
    ground (arith, flushed)

conclude_consumption_version :
    (k payload_hash : String) (e : EventPayload) (fails : Bool) (disposition : ConsumerDisposition)
    (version_gap : Bool) (db : Db) (m : Result Db)
    → ((staged : Db)
        → m ≡ ok staged
        → version_of (find_projection k db) ≤ version_of (find_projection k staged))
    → version_of (find_projection k db)
      ≤ version_of (
          find_projection k
            (conclude_consumption payload_hash e fails disposition version_gap db m).1)
unfolding conclude_consumption
conclude_consumption_version k payload_hash e true disposition version_gap db (ok staged) h =
    omega arith
conclude_consumption_version k payload_hash e false disposition version_gap db (ok staged) h =
    h staged refl
conclude_consumption_version k payload_hash e fails disposition version_gap db (err f) h =
    ground arith

insert_processed_projections :
    (row : ProcessedWebhook) (db db' : Db)
    → insert_processed row db ≡ ok db'
    → db'.projections ≡ db.projections
unfolding insert_processed insert
insert_processed_projections row db db' h = ground arith

-- Where no other consumer commits between the reads and the flush, no call of `consume_webhook`
-- with a payload whose payment version is the event's version takes any projection back to an
-- older version, in whatever order the events arrive and however the call ends.
pub consume_monotone :
    (payload_hash : String) (e : EventPayload) (now : ℕ) (fails : Bool) (k : String) (db : Db)
    → e.payment.version ≡ e.aggregate_version
    → version_of (find_projection k db)
      ≤ version_of (find_projection k (consume_webhook (λ d. d) payload_hash e now fails db).1)
unfolding consume_webhook consume_unseen apply_event
consume_monotone payload_hash e now fails k db same = elim (Option-cases (find_processed e.id db)) [
  | inr (row, found) ↦ rw found (omega arith)
  | inl unseen ↦ elim (Result-cases (weigh e (find_projection e.payment.id db))) [
    | inr (f, raised) ↦ rw (unseen, raised) (omega arith)
    | inl ((change, disposition, version_gap), weighed) ↦
        let inbox = inbox_row payload_hash e disposition version_gap now in
        rw (unseen, weighed)
          (conclude_consumption_version k payload_hash e fails disposition version_gap db
            (flush_change change db >>= insert_processed inbox)
            (λ staged q.
              let parts = >>=-eq-ok (flush_change change db) (insert_processed inbox) q in
              rw (insert_processed_projections inbox parts.0 staged parts.2) (
                flush_change_version e change disposition version_gap k db parts.0 same weighed
                  parts.1)))
  ]
]
