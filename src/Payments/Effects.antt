-- ===== src/Payments/Effects.antt =====
-- What the staged work of a call has written, table by table.
use payment_platform_quality.Prelude.{
  ℕ, suc, ℤ, pos, Option, none, some, List, ◌∷◌, ◌≡◌, ◌∙◌, ap, String, eqb_ℤ, if◌then◌else◌, arith,
  inl, inr,
}
use payment_platform_quality.Domain.Types.{PaymentOperation, PaymentState}
use payment_platform_quality.Failure.{FailurePoint, Result, ok, Result-cases, >>=-eq-ok}
use payment_platform_quality.Database.Types.{
  Payment, LedgerEntry, IdempotencyRecord, WebhookEventType,
}
use payment_platform_quality.Database.Tables.{replace}
use payment_platform_quality.Database.Store.{
  Db, find_payment, insert_payment, insert_ledger, insert_event, insert_claim, update_payment,
}
use payment_platform_quality.Database.Inversion.{
  insert_payment_inv, insert_ledger_inv, insert_event_inv, insert_claim_inv, update_payment_inv,
}
use payment_platform_quality.Webhooks.Outbox.{outbox_event, create_outbox_event}
use payment_platform_quality.Ledger.Sums.{add_entry}
use payment_platform_quality.Payments.Commands.{AuthorizationCommand, LifecycleCommand, Fresh}
use payment_platform_quality.Payments.Claims.{Claim, claim_idempotency_key, new_claim}
use payment_platform_quality.Payments.Commit.{stage_outcome}
use payment_platform_quality.Payments.Authorize.{
  Terms, terms_of, new_payment, authorization_entry, flush_authorization, stage_authorization,
}
use payment_platform_quality.Payments.Lifecycle.{
  get_payment, state_of, next_of, with_state, lifecycle_entry, is_unpaid_cancel, flush_lifecycle,
  event_of, stage_lifecycle,
}

-- The tables that a claim of a key leaves alone.
pub record SameMoney (db db' : Db) : Type 0 where
  pub payments : db'.payments ≡ db.payments
  pub entries : db'.ledger_entries ≡ db.ledger_entries
  pub events : db'.webhook_events ≡ db.webhook_events

pub held-SameMoney :
    (key fingerprint operation : String) (created_at : ℕ) (others : Db → Db) (db : Db)
    (c : IdempotencyRecord) (d : Db)
    → claim_idempotency_key key fingerprint operation created_at others db ≡ Claim.held c d
    → SameMoney (others db) d
unfolding claim_idempotency_key
held-SameMoney key fingerprint operation created_at others db c d h =
    elim (Result-cases
      (insert_claim (new_claim key fingerprint operation created_at) (others db))) [
        | inr (e, failed) ↦ absurd (ground arith)
        | inl (d', inserted) ↦
            let inv =
              insert_claim_inv (new_claim key fingerprint operation created_at) (others db) d'
                inserted in
            record {
              payments = ground (arith, inv);
              entries = ground (arith, inv);
              events = ground (arith, inv);
            }
      ]

-- The outbox event comes on top of what the flush has written; the claim is another table.
pub stage_outcome_effect :
    (flush : Db → Result (Payment × Db)) (claim : IdempotencyRecord) (event : WebhookEventType)
    (event_id : String) (point : Option FailurePoint) (db : Db) (p : Payment) (db' : Db)
    → stage_outcome flush claim event event_id point db ≡ ok (p, db')
    → (d : Db) × (flush db ≡ ok (p, d))
      × (db'.payments ≡ d.payments)
      × (db'.ledger_entries ≡ d.ledger_entries)
      × (db'.webhook_events ≡ outbox_event event_id p event ∷ d.webhook_events)
unfolding stage_outcome create_outbox_event
stage_outcome_effect flush claim event event_id point db p db' h = elim (Result-cases (flush db)) [
  | inr (e, failed) ↦ absurd (ground arith)
  | inl ((q, d), flushed) ↦ elim (Result-cases (insert_event (outbox_event event_id q event) d)) [
    | inr (e, failed) ↦ absurd (ground arith)
    | inl (d', inserted) ↦
        let inv = insert_event_inv (outbox_event event_id q event) d d' inserted in
        (d, ground arith, ground (arith, inv), ground (arith, inv), ground (arith, inv))
  ]
]

-- The entry of an authorization, if there is one.
abbrev pub authorization_entry? : Payment → Fresh → Option LedgerEntry
authorization_entry? p fresh =
    if eqb_ℤ p.authorized_amount (pos 0) then none else some (authorization_entry p fresh)

flush_authorization_effect :
    (p q : Payment) (fresh : Fresh) (db d : Db)
    → flush_authorization p fresh db ≡ ok (q, d)
    → (q ≡ p)
      × (d.payments ≡ db.payments)
      × (d.ledger_entries ≡ add_entry (authorization_entry? p fresh) db.ledger_entries)
      × (d.webhook_events ≡ db.webhook_events)
unfolding flush_authorization
flush_authorization_effect p q fresh db d h =
    elim (Result-cases (insert_ledger (authorization_entry p fresh) db)) [
      | inr (e, failed) ↦ ground arith
      | inl (d', inserted) ↦
          ground (arith, insert_ledger_inv (authorization_entry p fresh) db d' inserted)
    ]

-- An authorization writes the payment that its terms describe, with the entry of the authorized
-- amount if that is not zero, and one event.
pub stage_authorization_effect :
    (command : AuthorizationCommand) (claim : IdempotencyRecord) (point : Option FailurePoint)
    (fresh : Fresh) (db : Db) (p : Payment) (db' : Db)
    → stage_authorization command claim point fresh db ≡ ok (p, db')
    → (terms : Terms) × (terms_of command.amount command.payment_method_token fresh ≡ ok terms)
      × (p ≡ new_payment command terms fresh)
      × (find_payment p.id db ≡ none)
      × (db'.payments ≡ p ∷ db.payments)
      × (db'.ledger_entries ≡ add_entry (authorization_entry? p fresh) db.ledger_entries)
      × (db'.webhook_events ≡ outbox_event fresh.event_id p terms.event_type ∷ db.webhook_events)
unfolding stage_authorization
stage_authorization_effect command claim point fresh db p db' h =
    let (terms, decided, rest) =
      >>=-eq-ok (terms_of command.amount command.payment_method_token fresh) _ h in
    let q = new_payment command terms fresh in
    let (d, inserted, staged) = >>=-eq-ok (insert_payment q db) _ rest in
    let inv = insert_payment_inv q db d inserted in
    let (d', flushed, payments, entries, events) =
      stage_outcome_effect (flush_authorization q fresh) claim terms.event_type fresh.event_id point
        d p db' staged in
    let written = flush_authorization_effect q p fresh d d' flushed in
    (
      terms,
      decided,
      written.0,
      ground (arith, inv, written),
      ground (arith, inv, written, payments),
      ground (arith, inv, written, entries),
      ground (arith, inv, written, events),
    )

-- The entry of a lifecycle operation, if there is one.
abbrev pub lifecycle_entry? : PaymentOperation → ℤ → Payment → Fresh → Option LedgerEntry
lifecycle_entry? operation amount p fresh =
    if is_unpaid_cancel operation p.status
    then none
    else some (lifecycle_entry operation amount p fresh)

-- The payment as it is written: the next state, one version on.
abbrev pub next_payment : Payment → PaymentState → ℕ → Payment
next_payment p next now = record (with_state p next now) { version = suc p.version }

flush_lifecycle_effect :
    (operation : PaymentOperation) (p : Payment) (next : PaymentState) (amount : ℤ) (fresh : Fresh)
    (db : Db) (q : Payment) (d : Db)
    → flush_lifecycle operation p next amount fresh db ≡ ok (q, d)
    → (q ≡ next_payment p next fresh.now)
      × (d.payments ≡ replace (λ r. r.id) q db.payments)
      × (d.ledger_entries ≡ add_entry (lifecycle_entry? operation amount p fresh) db.ledger_entries)
      × (d.webhook_events ≡ db.webhook_events)
      × ((row : Payment) × (find_payment p.id db ≡ some row) × (row.version ≡ p.version))
unfolding flush_lifecycle
flush_lifecycle_effect operation p next amount fresh db q d h =
    elim (Result-cases (update_payment p (with_state p next fresh.now) db)) [
      | inr (e, failed) ↦ absurd (ground arith)
      | inl ((u, d'), updated) ↦
          let inv = update_payment_inv p (with_state p next fresh.now) u db d' updated in
          elim (Result-cases (insert_ledger (lifecycle_entry operation amount p fresh) d')) [
            | inr (e, failed) ↦ (
              ground (arith, inv),
              ground (arith, inv),
              ground (arith, inv),
              ground (arith, inv),
              inv.2,
            )
            | inl (d'', inserted) ↦
                let inv' =
                  insert_ledger_inv (lifecycle_entry operation amount p fresh) d' d'' inserted in
                (
                  ground (arith, inv),
                  ground (arith, inv, inv'),
                  ground (arith, inv, inv'),
                  ground (arith, inv, inv'),
                  inv.2,
                )
          ]
    ]

-- What a lifecycle operation has read, decided and written.
pub record LifecycleEffect (loaded : List Payment) (command : LifecycleCommand) (fresh : Fresh)
    (db : Db) (p : Payment) (db' : Db) : Type 0 where
  pub read : Payment
  pub current : PaymentState
  pub next : PaymentState
  pub amount : ℤ
  pub was_read : get_payment loaded command.payment_id db ≡ ok read
  pub was_state : state_of read ≡ ok current
  pub was_decided : next_of command.operation command.amount read.id current db ≡ ok (next, amount)
  pub result : p ≡ next_payment read next fresh.now
  pub payments : db'.payments ≡ replace (λ r. r.id) p db.payments
  pub entries :
      db'.ledger_entries
      ≡ add_entry (lifecycle_entry? command.operation amount read fresh) db.ledger_entries
  pub event :
      (t : WebhookEventType) × (db'.webhook_events
        ≡ outbox_event fresh.event_id p t ∷ db.webhook_events)
  pub replaced :
      (row : Payment) × (find_payment read.id db ≡ some row) × (row.version ≡ read.version)

pub stage_lifecycle_effect :
    (loaded : List Payment) (command : LifecycleCommand) (claim : IdempotencyRecord)
    (point : Option FailurePoint) (fresh : Fresh) (db : Db) (p : Payment) (db' : Db)
    → stage_lifecycle loaded command claim point fresh db ≡ ok (p, db')
    → LifecycleEffect loaded command fresh db p db'
unfolding stage_lifecycle
stage_lifecycle_effect loaded command claim point fresh db p db' h =
    let (q, read, h₁) = >>=-eq-ok (get_payment loaded command.payment_id db) _ h in
    let (current, state, h₂) = >>=-eq-ok (state_of q) _ h₁ in
    let (next, decided, h₃) =
      >>=-eq-ok (next_of command.operation command.amount q.id current db) _ h₂ in
    let (t, typed, staged) = >>=-eq-ok (event_of command.operation) _ h₃ in
    let (d, flushed, payments, entries, events) =
      stage_outcome_effect (flush_lifecycle command.operation q next.0 next.1 fresh) claim t
        fresh.event_id point db p db' staged in
    let (result, payments', entries', events', row) =
      flush_lifecycle_effect command.operation q next.0 next.1 fresh db p d flushed in
    record {
      read = q;
      current = current;
      next = next.0;
      amount = next.1;
      was_read = read;
      was_state = state;
      was_decided = decided;
      result = result;
      payments = payments ∙ payments';
      entries = entries ∙ entries';
      event = (t, events ∙ ap (λ l. outbox_event fresh.event_id p t ∷ l) events');
      replaced = row;
    }
