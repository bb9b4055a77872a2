-- ===== src/Webhooks/Superseded.antt =====
-- Two workers of `dispatch_webhook` in services/webhooks.py that have leased the same event one after
-- the other. Each works from the event that its session loaded after its own lease.
use payment_platform_quality.Prelude.{
  ℕ, suc, ◌<◌, true, Option, some, not, String, eq_refl, ◌≡◌, inl, inr, refl, ap, arith,
  Option-cases,
}
use payment_platform_quality.Failure.{
  Result, ok, err, integrity_error, raise_if, >>=-eq-ok, ok-injective, webhook_delivery_not_ready,
  Result-cases,
}
use payment_platform_quality.Database.Types.{WebhookEvent}
use payment_platform_quality.Database.Rows.{DeliveryAttempt}
use payment_platform_quality.Database.Tables.{is_some, insert}
use payment_platform_quality.Database.Store.{Db, find_event}
use payment_platform_quality.Webhooks.Leases.{settle_event_ok}
use payment_platform_quality.Webhooks.Delivery.{
  Report, update_event, settle_event, merged_event, flush_event, insert_attempt, attempt_taken,
  attempt_row, holds_lease, stage_delivery, finalize_delivery, committed, DeliveryResult,
}

insert_attempt_taken :
    (a : DeliveryAttempt) (db db' : Db)
    → insert_attempt a db ≡ ok db'
    → (attempt_taken a.event_id a.attempt_number db'.delivery_attempts ≡ true)
      × (db'.webhook_events ≡ db.webhook_events)
      × (is_some (find_event a.event_id db) ≡ true)
unfolding insert_attempt insert attempt_taken
insert_attempt_taken a db db' h =
    (ground (arith, h, eq_refl a.event_id), ground (arith, h), ground (arith, h))

-- A row with the number of another attempt is refused.
insert_attempt_refused :
    (a : DeliveryAttempt) (db : Db)
    → attempt_taken a.event_id a.attempt_number db.delivery_attempts ≡ true
    → insert_attempt a db ≡ err integrity_error
unfolding insert_attempt
insert_attempt_refused a db taken = ground (arith, taken)

settle_event_counts :
    (e n : WebhookEvent) (next response_status : Option ℕ) (now : ℕ)
    → settle_event e response_status now ≡ ok (n, next)
    → (n.attempt_count ≡ suc e.attempt_count) × (n.id ≡ e.id)
unfolding settle_event
settle_event_counts e n next response_status now h = (ground arith, ground arith)

committed_ok :
    (db db' : Db) (m : Result (DeliveryResult × Db)) (r : DeliveryResult)
    → committed db m ≡ (ok r, db')
    → m ≡ ok (r, db')
committed_ok db db' (ok (q, d)) r h = ground (arith, h)
committed_ok db db' (err f) r h = absurd (ground (arith, h))

recorded_at :
    (a : DeliveryAttempt) (k : String) (n : ℕ) (d d' db' : Db)
    → insert_attempt a d ≡ ok d'
    → d' ≡ db'
    → a.event_id ≡ k
    → a.attempt_number ≡ n
    → (attempt_taken k n db'.delivery_attempts ≡ true) × (is_some (find_event k db') ≡ true)
recorded_at a k n d d' db' inserted end id number =
    let (taken, events, there) = insert_attempt_taken a d d' inserted in
    let there' : is_some (find_event a.event_id d') ≡ true = rw events there in
    (cc (taken, end, id, number), cc (there', end, id))

-- A report that was recorded has left its attempt, and the event.
finalize_recorded :
    (e : WebhookEvent) (event_id token attempt_id : String) (now : ℕ) (report : Report)
    (r : DeliveryResult) (db db' : Db)
    → finalize_delivery (some e) event_id token attempt_id now report db ≡ (ok r, db')
    → (attempt_taken e.id (suc e.attempt_count) db'.delivery_attempts ≡ true)
      × (is_some (find_event e.id db') ≡ true)
unfolding finalize_delivery stage_delivery
finalize_recorded e event_id token attempt_id now report r db db' h =
    let staged =
      committed_ok db db' (stage_delivery (some e) event_id token attempt_id now report db) r h in
    let (_, _, h₁) =
      >>=-eq-ok
        (raise_if (not (holds_lease e.lease_token token)) (webhook_delivery_not_ready event_id)) _
        staged in
    let ((n, next), settled, h₂) = >>=-eq-ok (settle_event e report.response_status now) _ h₁ in
    let (d, flushed, h₃) = >>=-eq-ok (flush_event e n db) _ h₂ in
    let row = attempt_row attempt_id n report now in
    let (d', inserted, same) = >>=-eq-ok (insert_attempt row d) _ h₃ in
    let counts = settle_event_counts e n next report.response_status now settled in
    recorded_at row e.id (suc e.attempt_count) d d' db' inserted (ap (λ x. x.1) (ok-injective same))
      counts.1 counts.0

-- Two workers have loaded the same event under leases of their own, with the same number of
-- attempts: once the report of one is recorded, the report of the other, whichever lease is the
-- later one, ends in IntegrityError and changes nothing. So an attempt is recorded once.
pub attempt_recorded_once :
    (e f : WebhookEvent) (event_id token other attempt_id other_id : String) (now later : ℕ)
    (report report' : Report) (r : DeliveryResult) (db db' : Db)
    → f.id ≡ e.id
    → f.attempt_count ≡ e.attempt_count
    → f.attempt_count < 3
    → holds_lease f.lease_token other ≡ true
    → finalize_delivery (some e) event_id token attempt_id now report db ≡ (ok r, db')
    → finalize_delivery (some f) event_id other other_id later report' db'
      ≡ (err integrity_error, db')
unfolding finalize_delivery stage_delivery flush_event
attempt_recorded_once e f event_id token other attempt_id other_id now later report report' r db db'
      same_id same_count few held h =
    let (taken, there) = finalize_recorded e event_id token attempt_id now report r db db' h in
    elim (Option-cases (find_event f.id db')) [
      | inl gone ↦ absurd (ground (arith, there, gone, same_id))
      | inr (stored, found) ↦ elim (Result-cases (settle_event f report'.response_status later)) [
        | inr (x, raised) ↦ absurd (settle_event_ok f x report'.response_status later few raised)
        | inl ((n, next), settled) ↦
            let counts = settle_event_counts f n next report'.response_status later settled in
            let refused =
              insert_attempt_refused (attempt_row other_id n report' later)
                (update_event (merged_event f n stored) db')
                (rw (counts.0, counts.1, same_id, same_count) taken) in
            rw (held, settled, found, refused) refl
      ]
    ]
