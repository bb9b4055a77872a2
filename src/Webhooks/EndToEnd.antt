-- ===== src/Webhooks/EndToEnd.antt =====
-- The delivery of an event of services/webhooks.py through the in-process endpoint of
-- api/routes.py, from the outbox to the merchant's projection.
use payment_platform_quality.Prelude.{
  ℕ, suc, ◌/◌, ◌-ℤ◌, ◌≤◌, ◌<◌, ℤ, pos, Bool, true, false, none, some, List, ◌∷◌, String, str_eq,
  eq_refl, ◌≡◌, inl, inr, refl, ◌∙◌, arith,
}
use payment_platform_quality.Failure.{ok, >>=-eq-ok, Result-cases}
use payment_platform_quality.Database.Types.{WebhookEvent, WebhookStatus, EventPayload}
use payment_platform_quality.Database.Rows.{
  DeliveryOutcome, MerchantProjection, ConsumerDisposition,
}
use payment_platform_quality.Database.Tables.{is_some, find, find_key, find-replace}
use payment_platform_quality.Database.Store.{Db, find_event}
use payment_platform_quality.Json.{Builtins, Documented}
use payment_platform_quality.Webhooks.Delivery.{
  second, may_claim, leased, update_event, claim_delivery, attempt_row, attempt_taken,
  DeliveryResult, Reply, status_report, report_of, call_receiver, record_report, deliver_signed,
  deliver_leased, after_lease, dispatch_webhook,
}
use payment_platform_quality.Webhooks.Leases.{
  ConsistentEvent, retry_at, leased_lem, leased_found, claim_delivery-ok, finalize_settles,
}
use payment_platform_quality.Webhooks.Signature.{
  Hmac, DocumentedHmac, abs_ℤ, header_of, str_of_int, digest_of, sign_webhook,
  verify_webhook_signature, tolerance_seconds,
}
use payment_platform_quality.Webhooks.Signed.{verify-sign_webhook}
use payment_platform_quality.Webhooks.Body.{event_body}
use payment_platform_quality.Webhooks.Valid.{IsValidEvent}
use payment_platform_quality.Webhooks.Emitted.{parse-event_body}
use payment_platform_quality.Webhooks.Accepted.{parse_webhook_payload-IsValidEvent}
use payment_platform_quality.Webhooks.Consumer.{
  inbox_row, find_processed, find_projection, projection_of,
}
use payment_platform_quality.Webhooks.Inbox.{version_of, consume_monotone}
use payment_platform_quality.Webhooks.Applied.{FitsColumns, consume_applies}
use payment_platform_quality.Webhooks.Endpoint.{
  Wire, ReadsBack, accept_body, consume_parsed, receive_webhook, in_process_receiver,
  deliver_webhook_event,
}

-- No request takes any projection back to an older version, whatever its body and its header are
-- and however it ends, where no other consumer commits between its reads and its flush.
pub receive_monotone :
    (py : Builtins) (hmac : Hmac) (wire : Wire) (payload header secret : String) (now : ℕ)
    (fails : Bool) (k : String) (db : Db)
    → version_of (find_projection k db)
      ≤ version_of (
          find_projection k
            (receive_webhook py hmac wire (λ d. d) payload header secret now fails db).1)
unfolding receive_webhook consume_parsed accept_body
receive_monotone py hmac wire payload header secret now fails k db =
    elim (Result-cases (accept_body py hmac wire payload header secret now)) [
      | inr (e, raised) ↦ rw raised (omega arith)
      | inl (e, accepted) ↦
          let parsed =
            >>=-eq-ok (verify_webhook_signature py hmac payload header secret now tolerance_seconds)
              _ accepted in
          let valid = parse_webhook_payload-IsValidEvent py (wire.loads payload) e parsed.2 in
          rw accepted (consume_monotone (wire.sha256 payload) e now fails k db valid.same_version)
    ]

replaced_found :
    (event_id : String) (e e' : WebhookEvent) (db : Db)
    → find_event event_id db ≡ some e
    → e'.id ≡ e.id
    → find_event event_id (update_event e' db) ≡ some e'
replaced_found event_id e e' db found same =
    let k : e'.id ≡ event_id = same ∙ find_key (λ q. q.id) event_id e db.webhook_events found in
    let there : is_some (find (λ q. q.id) e'.id db.webhook_events) ≡ true = rw (k, found) refl in
    find-replace (λ q. q.id) e' event_id db.webhook_events there ∙ rw (k, eq_refl event_id) refl

abs_self : (x : ℤ) → abs_ℤ (x -ℤ x) ≡ 0
unfolding ◌-ℤ◌
abs_self x = ground arith

module _ (py : Builtins) (hmac : Hmac) (wire : Wire) (doc : Documented py)
    (signs : DocumentedHmac py hmac) where
  -- What the producer signs, its consumer accepts at the same time.
  accept_body-emitted :
      (e : EventPayload) (secret header : String) (now : ℕ)
      → ReadsBack py wire e
      → IsValidEvent e
      → sign_webhook py hmac (wire.dumps (event_body py e)) secret (pos (now / second)) ≡ ok header
      → accept_body py hmac wire (wire.dumps (event_body py e)) header secret now ≡ ok e
  unfolding accept_body
  accept_body-emitted e secret header now reads valid signed =
      let near : abs_ℤ (pos (now / second) -ℤ pos (now / second)) ≤ tolerance_seconds =
        rw (abs_self (pos (now / second))) (omega arith) in
      rw
        (
          verify-sign_webhook py hmac signs (wire.dumps (event_body py e)) secret
              (pos (now / second)) header now tolerance_seconds signed near,
          reads,
          parse-event_body py doc e valid,
        )
        refl

  sign_webhook-ok :
      (payload secret : String) (timestamp : ℤ)
      → str_eq secret "" ≡ false
      → (header : String) × (sign_webhook py hmac payload secret timestamp ≡ ok header)
  unfolding sign_webhook
  sign_webhook-ok payload secret timestamp h =
      (header_of (str_of_int py timestamp) (digest_of py hmac payload secret timestamp), rw h refl)

  abbrev consumed_db : WebhookEvent → String → ℕ → Bool → List MerchantProjection → Db → Db
  consumed_db e payload now gap rows db = record db {
    projections = rows;
    processed_webhooks =
        inbox_row (wire.sha256 payload) e.payload ConsumerDisposition.applied gap now
        ∷ db.processed_webhooks;
  }

  -- An event that is due, with a signing secret: one call of the endpoint delivers it. The call
  -- returns, the event is recorded as delivered, and the merchant's projection is its payment. The
  -- event is valid, its integers fit their columns, it is not in the inbox, it is newer than the projection, and the next number
  -- and the identifier of the attempt are not used yet.
  pub deliver_projects :
      (event_id secret lease_token attempt_id : String) (now : ℕ) (db : Db) (e : WebhookEvent)
      → str_eq secret "" ≡ false
      → find_event event_id db ≡ some e
      → ConsistentEvent e
      → may_claim e.status e.next_attempt_at e.lease_expires_at now ≡ true
      → ReadsBack py wire e.payload
      → IsValidEvent e.payload
      → FitsColumns e.payload
      → find_processed e.payload.id db ≡ none
      → version_of (find_projection e.payload.payment.id db) < e.payload.aggregate_version
      → attempt_taken event_id (suc e.attempt_count) db.delivery_attempts ≡ false
      → find (λ a. a.id) attempt_id db.delivery_attempts ≡ none
      → (r : DeliveryResult) × (db' : Db) × (deliver_webhook_event py hmac wire event_id secret
            lease_token attempt_id now none db
          ≡ (ok r, db'))
        × (r.status ≡ WebhookStatus.delivered)
        × (r.outcome ≡ DeliveryOutcome.success)
        × ((x : WebhookEvent) × (find_event event_id db' ≡ some x)
            × (x.status ≡ WebhookStatus.delivered))
        × (find_projection e.payload.payment.id db'
            ≡ some (projection_of e.payload.id e.payload.payment))
  unfolding deliver_webhook_event dispatch_webhook after_lease deliver_leased deliver_signed
      call_receiver record_report report_of in_process_receiver receive_webhook consume_parsed
  deliver_projects event_id secret lease_token attempt_id now db e keyed found consistent due reads
        valid fits unseen newer untaken fresh =
      let leased_db = update_event (leased e lease_token now) db in
      let claimed : claim_delivery event_id lease_token now db ≡ (ok lease_token, leased_db) =
        claim_delivery-ok event_id lease_token now db e found due in
      let payload = wire.dumps (event_body py e.payload) in
      let (header, signed) = sign_webhook-ok payload secret (pos (now / second)) keyed in
      let accepted = accept_body-emitted e.payload secret header now reads valid signed in
      let (gap, rows, placed, consumed) =
        consume_applies (wire.sha256 payload) e.payload now leased_db unseen fits newer in
      let received : in_process_receiver py hmac wire secret payload header now leased_db
          ≡ (Reply.status 200, consumed_db e payload now gap rows leased_db) =
        rw (accepted, consumed) refl in
      let (settled_event, settled, finalized) =
        finalize_settles event_id lease_token attempt_id now (status_report 200)
          (consumed_db e payload now gap rows leased_db) (leased e lease_token now)
          (leased_found event_id lease_token now db e found)
          (leased_lem e lease_token now consistent due) (eq_refl lease_token) untaken fresh in
      let recorded = consumed_db e payload now gap rows leased_db in
      (
        record {
          event_id = event_id;
          attempt_number = suc e.attempt_count;
          outcome = DeliveryOutcome.success;
          status = settled_event.status;
          response_status = some 200;
          next_attempt_at = retry_at settled_event (some 200);
        },
        record (update_event settled_event recorded) {
          delivery_attempts =
              attempt_row attempt_id settled_event (status_report 200) now ∷ db.delivery_attempts;
        },
        rw (claimed, leased_found event_id lease_token now db e found, signed, received, finalized)
            refl,
        settled.ended,
        refl,
        (
          settled_event,
          replaced_found event_id (leased e lease_token now) settled_event recorded
              (leased_found event_id lease_token now db e found) settled.same_event.0,
          settled.ended,
        ),
        placed,
      )
