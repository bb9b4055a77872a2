-- ===== src/Webhooks/Leases.antt =====
-- The lease of `_claim_delivery` and `_finalize_delivery` in services/webhooks.py: one worker at a
-- time, a bounded number of attempts.
use payment_platform_quality.Prelude.{
  ℕ, suc, ◌+◌, ◌≤◌, ◌<◌, true, false, ◌||◌, Option, none, some, ◌∷◌, String, str_eq, eq_iff,
  eq_refl, ◌==◌, if◌then◌else◌, ◌≡◌, inl, inr, refl, arith, ◌∙◌, sym, ap, Option-cases,
}
use payment_platform_quality.Failure.{Failure, ok, err, Result-cases}
use payment_platform_quality.Database.Types.{WebhookEvent, WebhookStatus}
use payment_platform_quality.Database.Rows.{DeliveryAttempt}
use payment_platform_quality.Database.Tables.{is_some, find, insert, find-replace, find_key}
use payment_platform_quality.Database.Store.{Db, find_event}
use payment_platform_quality.Webhooks.Columns.{
  IsSound, column-loaded, same_option, same_option-IsSound, str_eq-IsSound, time-IsSound,
}
use payment_platform_quality.Webhooks.Delivery.{
  Report, may_claim, leased, update_event, claim_delivery, settle_event, same_event_status,
  merged_event, flush_event, insert_attempt, attempt_taken, attempt_row, holds_lease,
  stage_delivery, finalize_delivery, max_delivery_attempts, is_success,
}

pub leased_found :
    (event_id lease_token : String) (now : ℕ) (db : Db) (e : WebhookEvent)
    → find_event event_id db ≡ some e
    → find_event event_id (update_event (leased e lease_token now) db)
      ≡ some (leased e lease_token now)
leased_found event_id lease_token now db e found =
    let k : e.id ≡ event_id = find_key (λ q. q.id) event_id e db.webhook_events found in
    let same : str_eq e.id event_id ≡ true = (eq_iff e.id event_id).1 k in
    let there : is_some (find (λ q. q.id) e.id db.webhook_events) ≡ true = rw (k, found) refl in
    ground (
      arith,
      find-replace (λ q. q.id) (leased e lease_token now) event_id db.webhook_events there,
      same,
    )

-- What a claim that succeeded has found and done.
pub claim_delivery_inv :
    (event_id lease_token token : String) (now : ℕ) (db db' : Db)
    → claim_delivery event_id lease_token now db ≡ (ok token, db')
    → (e : WebhookEvent) × (find_event event_id db ≡ some e)
      × (may_claim e.status e.next_attempt_at e.lease_expires_at now ≡ true)
      × (db' ≡ update_event (leased e lease_token now) db)
      × (find_event event_id db' ≡ some (leased e lease_token now))
unfolding claim_delivery
claim_delivery_inv event_id lease_token token now db db' h =
    elim (Option-cases (find_event event_id db)) [
      | inl gone ↦ absurd (ground arith)
      | inr (e, found) ↦
          let next : db' ≡ update_event (leased e lease_token now) db = ground arith in
          (e, found, ground arith, next, rw next (leased_found event_id lease_token now db e found))
    ]

pub claim_delivery-ok :
    (event_id lease_token : String) (now : ℕ) (db : Db) (e : WebhookEvent)
    → find_event event_id db ≡ some e
    → may_claim e.status e.next_attempt_at e.lease_expires_at now ≡ true
    → claim_delivery event_id lease_token now db
      ≡ (ok lease_token, update_event (leased e lease_token now) db)
unfolding claim_delivery
claim_delivery-ok event_id lease_token now db e found due = rw (found, due) refl

-- The columns of an event that fit together: a lease exactly while it is processed, fewer than
-- three attempts while it can be tried again, three when it is exhausted.
abbrev pub IsConsistent : WebhookStatus → ℕ → Option String → Option ℕ → Type 0
IsConsistent WebhookStatus.pending attempt_count lease_token delivered_at =
    (attempt_count < max_delivery_attempts) × (lease_token ≡ none) × (delivered_at ≡ none)
IsConsistent WebhookStatus.processing attempt_count lease_token delivered_at =
    (attempt_count < max_delivery_attempts) × (is_some lease_token ≡ true) × (delivered_at ≡ none)
IsConsistent WebhookStatus.delivered attempt_count lease_token delivered_at =
    (1 ≤ attempt_count)
    × (attempt_count ≤ max_delivery_attempts)
    × (lease_token ≡ none)
    × (is_some delivered_at ≡ true)
IsConsistent WebhookStatus.exhausted attempt_count lease_token delivered_at =
    (attempt_count ≡ max_delivery_attempts) × (lease_token ≡ none) × (delivered_at ≡ none)

abbrev pub ConsistentEvent : WebhookEvent → Type 0
ConsistentEvent e = IsConsistent e.status e.attempt_count e.lease_token e.delivered_at

pub leased_lem :
    (e : WebhookEvent) (lease_token : String) (now : ℕ)
    → ConsistentEvent e
    → may_claim e.status e.next_attempt_at e.lease_expires_at now ≡ true
    → ConsistentEvent (leased e lease_token now)
leased_lem e lease_token now c m = ground (arith, c, m)

-- What the attempt has made of the event: one attempt more and the lease given back; delivered
-- exactly on a 2xx status, else exhausted at the third attempt, and before that pending, to be
-- tried again after 1 and then 5 seconds.
pub record Settled (e e' : WebhookEvent) (response_status : Option ℕ) (now : ℕ) : Type 0 where
  pub consistent : ConsistentEvent e'
  pub counted : e'.attempt_count ≡ suc e.attempt_count
  pub ended : e'.status ≡ (
      if is_success response_status
      then WebhookStatus.delivered
      else if e'.attempt_count == 3
      then WebhookStatus.exhausted
      else WebhookStatus.pending)
  pub due : e'.next_attempt_at ≡ (
      if is_success response_status || (e'.attempt_count == 3)
      then now
      else if e'.attempt_count == 1
      then now + 1_000_000
      else now + 5_000_000)
  pub same_event : (e'.id ≡ e.id) × (e'.payload ≡ e.payload)

holder_processes :
    (e : WebhookEvent) (lease_token : String)
    → ConsistentEvent e
    → holds_lease e.lease_token lease_token ≡ true
    → (e.status ≡ WebhookStatus.processing) × (e.attempt_count < 3) × (e.delivered_at ≡ none)
holder_processes e lease_token c held = ground (arith, c, held)

pub settle_event_ok :
    (e : WebhookEvent) (f : Failure) (response_status : Option ℕ) (now : ℕ)
    → e.attempt_count < 3
    → settle_event e response_status now ≡ err f
    → ⊥
unfolding settle_event
settle_event_ok e f response_status now c h = ground (arith, c, h)

settle_event_result :
    (e e' : WebhookEvent) (next response_status : Option ℕ) (now : ℕ)
    → e.attempt_count < 3
    → e.delivered_at ≡ none
    → settle_event e response_status now ≡ ok (e', next)
    → Settled e e' response_status now
unfolding settle_event
settle_event_result e e' next response_status now c d h = record {
  consistent = ground arith;
  counted = ground arith;
  ended = ground arith;
  due = ground arith;
  same_event = ground arith;
}

-- When the event is to be tried again, if it is.
abbrev pub retry_at : WebhookEvent → Option ℕ → Option ℕ
retry_at e response_status =
    if is_success response_status || (e.attempt_count == 3) then none else some e.next_attempt_at

settle_event_next :
    (e e' : WebhookEvent) (next response_status : Option ℕ) (now : ℕ)
    → e.attempt_count < 3
    → settle_event e response_status now ≡ ok (e', next)
    → next ≡ retry_at e' response_status
unfolding settle_event
settle_event_next e e' next response_status now c h = ground arith

insert_attempt_fresh :
    (a : DeliveryAttempt) (db : Db)
    → 1 ≤ a.attempt_number
    → is_some (find_event a.event_id db) ≡ true
    → attempt_taken a.event_id a.attempt_number db.delivery_attempts ≡ false
    → find (λ q. q.id) a.id db.delivery_attempts ≡ none
    → insert_attempt a db ≡ ok (record db { delivery_attempts = a ∷ db.delivery_attempts })
unfolding insert_attempt insert
insert_attempt_fresh a db h1 h2 h3 h4 = ground arith

status-IsSound : IsSound same_event_status
status-IsSound WebhookStatus.pending WebhookStatus.pending h = refl
status-IsSound WebhookStatus.processing WebhookStatus.processing h = refl
status-IsSound WebhookStatus.delivered WebhookStatus.delivered h = refl
status-IsSound WebhookStatus.exhausted WebhookStatus.exhausted h = refl
status-IsSound _ _ h = cc

-- The columns that an attempt does not assign.
abbrev Reassigned : WebhookEvent → WebhookEvent → Type 0
Reassigned e n = n ≡ record e {
  status = n.status;
  attempt_count = n.attempt_count;
  next_attempt_at = n.next_attempt_at;
  lease_token = n.lease_token;
  lease_expires_at = n.lease_expires_at;
  delivered_at = n.delivered_at;
}

settle_event-Reassigned :
    (e n : WebhookEvent) (next response_status : Option ℕ) (now : ℕ)
    → settle_event e response_status now ≡ ok (n, next)
    → Reassigned e n
unfolding settle_event
settle_event-Reassigned e n next response_status now h = ground arith

-- Over a row that is still as it was loaded, the UPDATE stores the assigned event.
merged_event_loaded : (e n : WebhookEvent) → Reassigned e n → merged_event e n e ≡ n
unfolding merged_event
merged_event_loaded e n same =
    let times = same_option-IsSound (λ a b. a == b) time-IsSound in
    rw
      (
        column-loaded same_event_status e.status n.status status-IsSound,
        column-loaded (λ a b. a == b) e.attempt_count n.attempt_count time-IsSound,
        column-loaded (λ a b. a == b) e.next_attempt_at n.next_attempt_at time-IsSound,
        column-loaded (same_option str_eq) e.lease_token n.lease_token
            (same_option-IsSound str_eq str_eq-IsSound),
        column-loaded (same_option (λ a b. a == b)) e.lease_expires_at n.lease_expires_at times,
        column-loaded (same_option (λ a b. a == b)) e.delivered_at n.delivered_at times,
      )
      (sym same)

flush_event_loaded :
    (event_id : String) (e n : WebhookEvent) (db : Db)
    → find_event event_id db ≡ some e
    → Reassigned e n
    → flush_event e n db ≡ ok (update_event n db)
unfolding flush_event
flush_event_loaded event_id e n db found same =
    let k : e.id ≡ event_id = find_key (λ q. q.id) event_id e db.webhook_events found in
    let stored : find_event e.id db ≡ some e = ap (λ j. find_event j db) k ∙ found in
    rw (stored, merged_event_loaded e n same) refl

-- The worker that has loaded a consistent event with its lease, which is still stored as it was
-- loaded, and whose next attempt has no row yet,
-- records its attempt whatever the answer was: the call returns, the event is settled (`Settled`),
-- one row is added to the attempts and nothing else of the attempts changes, and the result
-- tells the status of the event and the number of the attempt.
pub finalize_settles :
    (event_id lease_token attempt_id : String) (now : ℕ) (report : Report) (db : Db)
    (e : WebhookEvent)
    → find_event event_id db ≡ some e
    → ConsistentEvent e
    → holds_lease e.lease_token lease_token ≡ true
    → attempt_taken event_id (suc e.attempt_count) db.delivery_attempts ≡ false
    → find (λ a. a.id) attempt_id db.delivery_attempts ≡ none
    → (e' : WebhookEvent) × Settled e e' report.response_status now
      × (finalize_delivery (some e) event_id lease_token attempt_id now report db ≡ (
        ok (record {
          event_id = event_id;
          attempt_number = suc e.attempt_count;
          outcome = report.outcome;
          status = e'.status;
          response_status = report.response_status;
          next_attempt_at = retry_at e' report.response_status;
        }),
        record (update_event e' db) {
          delivery_attempts = attempt_row attempt_id e' report now ∷ db.delivery_attempts;
        },
      ))
unfolding finalize_delivery stage_delivery
finalize_settles event_id lease_token attempt_id now report db e found c held untaken fresh =
    let facts = holder_processes e lease_token c held in
    elim (Result-cases (settle_event e report.response_status now)) [
      | inl ((e', next), settled) ↦
          let s : Settled e e' report.response_status now =
            settle_event_result e e' next report.response_status now facts.1 facts.2 settled in
          let told : next ≡ retry_at e' report.response_status =
            settle_event_next e e' next report.response_status now facts.1 settled in
          let k : e.id ≡ event_id = find_key (λ q. q.id) event_id e db.webhook_events found in
          let k' : e'.id ≡ event_id = s.same_event.0 ∙ k in
          let there : is_some (find (λ q. q.id) e'.id db.webhook_events) ≡ true =
            rw (k', found) refl in
          let there' : is_some (find_event e'.id (update_event e' db)) ≡ true =
            rw (find-replace (λ q. q.id) e' e'.id db.webhook_events there, eq_refl e'.id) refl in
          let flushed =
            flush_event_loaded event_id e e' db found
              (settle_event-Reassigned e e' next report.response_status now settled) in
          let n : e'.attempt_count ≡ suc e.attempt_count = s.counted in
          let row =
            insert_attempt_fresh (attempt_row attempt_id e' report now) (update_event e' db)
              (omega (arith, n)) there' (rw (k', n) untaken) fresh in
          (e', s, rw (held, settled, flushed, told, row, k', n) refl)
      | inr (f, raised) ↦ absurd (settle_event_ok e f report.response_status now facts.1 raised)
    ]
