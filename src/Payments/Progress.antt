-- ===== src/Payments/Progress.antt =====
-- An authorization of services/payments.py that nothing stands in the way of succeeds.
use payment_platform_quality.Prelude.{
  ℕ, ℤ, pos, ◌≤ℤ◌, ◌<ℤ◌, eqb_ℤ, true, false, none, some, List, ◌∷◌, String, eq_refl, ◌≡◌, ◌⊎◌, inl,
  inr, refl, arith, Bool-cases, ◌∙◌,
}
use payment_platform_quality.Domain.Types.{
  PaymentMethodDecision, AuthorizationDecision, AuthorizationResult, PaymentStatus,
}
use payment_platform_quality.Domain.Operations.{authorize}
use payment_platform_quality.Failure.{ok, Result-cases}
use payment_platform_quality.Database.Types.{Payment, LedgerEntry, IdempotencyRecord, WebhookEvent}
use payment_platform_quality.Database.Tables.{is_some, find, insert, find-first, find-replace}
use payment_platform_quality.Database.Checks.{payment_checks}
use payment_platform_quality.Database.Store.{
  Db, find_payment, find_claim, find_event, reference_taken, version_taken, insert_payment,
  insert_ledger, insert_claim, insert_event,
}
use payment_platform_quality.Webhooks.Outbox.{from_payment, outbox_event, create_outbox_event}
use payment_platform_quality.Payments.Commands.{
  AuthorizationCommand, Dictionary, authorization_payload, PaymentView, Fresh,
}
use payment_platform_quality.Payments.Claims.{
  new_claim, replay_of, find_idempotent_snapshot, Claim, claim_idempotency_key,
}
use payment_platform_quality.Payments.Commit.{completed, complete_claim, stage_outcome, conclude}
use payment_platform_quality.Payments.Authorize.{
  Terms, immediate_terms, delayed_terms, terms_of, new_payment, authorization_entry,
  flush_authorization, stage_authorization, authorize_at,
}

-- Every decision has terms that the constraints of the table accept.
abbrev FittingTerms : AuthorizationCommand → Fresh → PaymentMethodDecision → Type 0
FittingTerms command fresh decision =
    (t : Terms) × (terms_of command.amount decision fresh ≡ ok t)
    × (payment_checks (new_payment command t fresh) ≡ true)
    × (pos 0 ≤ℤ t.authorized_amount)

-- What a decision about a positive amount is.
abbrev IsDecided : ℤ → AuthorizationResult → Type 0
IsDecided amount r =
    ((r.status ≡ PaymentStatus.authorized)
      × (r.authorized_amount ≡ amount)
      × (r.decline_reason ≡ none))
    ⊎ ((r.status ≡ PaymentStatus.declined)
        × (r.authorized_amount ≡ pos 0)
        × (is_some r.decline_reason ≡ true))

approved_or_declined :
    (amount : ℤ) (d : AuthorizationDecision) (r : AuthorizationResult)
    → pos 0 <ℤ amount
    → authorize amount d ≡ ok r
    → IsDecided amount r
unfolding authorize
approved_or_declined amount AuthorizationDecision.approve r positive h =
    inl (ground (arith, h, positive), ground (arith, h, positive), ground (arith, h, positive))
approved_or_declined amount _ r positive h =
    inr (ground (arith, h, positive), ground (arith, h, positive), ground (arith, h, positive))

authorize-IsDecided :
    (amount : ℤ) (d : AuthorizationDecision)
    → pos 0 <ℤ amount
    → (r : AuthorizationResult) × (authorize amount d ≡ ok r) × IsDecided amount r
unfolding authorize
authorize-IsDecided amount d positive = elim (Result-cases (authorize amount d)) [
  | inl (r, decided) ↦ (r, decided, approved_or_declined amount d r positive decided)
  | inr (e, raised) ↦ absurd (ground (arith, raised, positive))
]

terms_fit :
    (command : AuthorizationCommand) (fresh : Fresh) (decision : PaymentMethodDecision)
    → pos 0 <ℤ command.amount
    → FittingTerms command fresh decision
unfolding terms_of payment_checks
terms_fit command fresh (PaymentMethodDecision.delayed d) positive =
    (delayed_terms fresh, refl, ground (arith, positive), omega arith)
terms_fit command fresh (PaymentMethodDecision.authorization d) positive =
    let (r, decided, facts) = authorize-IsDecided command.amount d positive in
    (
      immediate_terms r,
      rw decided refl,
      ground (arith, positive, facts),
      ground (arith, positive, facts),
    )

insert_payment-fresh :
    (p : Payment) (db : Db)
    → payment_checks p ≡ true
    → reference_taken p.payment_reference db.payments ≡ false
    → find_payment p.id db ≡ none
    → insert_payment p db ≡ ok (record db { payments = p ∷ db.payments })
unfolding insert_payment insert
insert_payment-fresh p db checks reference unused = rw (checks, reference, unused) refl

insert_event-fresh :
    (e : WebhookEvent) (db : Db)
    → e.aggregate_version ≡ 1
    → is_some (find_payment e.payment_id db) ≡ true
    → version_taken e.payment_id e.aggregate_version db.webhook_events ≡ false
    → find_event e.id db ≡ none
    → insert_event e db ≡ ok (record db { webhook_events = e ∷ db.webhook_events })
unfolding insert_event insert
insert_event-fresh e db first there untaken unused = ground (arith, first, there, untaken, unused)

flush_authorization-ok :
    (p : Payment) (fresh : Fresh) (db : Db)
    → pos 0 ≤ℤ p.authorized_amount
    → is_some (find_payment p.id db) ≡ true
    → find (λ q. q.id) fresh.ledger_id db.ledger_entries ≡ none
    → (rows : List LedgerEntry) × (flush_authorization p fresh db
        ≡ ok (p, record db { ledger_entries = rows }))
unfolding flush_authorization insert_ledger insert
flush_authorization-ok p fresh db nonnegative there unused =
    elim (Bool-cases (eqb_ℤ p.authorized_amount (pos 0))) [
      | inl nothing ↦ (db.ledger_entries, rw nothing refl)
      | inr something ↦ (
        authorization_entry p fresh ∷ db.ledger_entries,
        ground (arith, something, nonnegative, there, unused),
      )
    ]

-- Nothing stands in the way: the key and the identifiers are not used, on the database that the
-- session reads and on the one that it finds once it has the write lock.
pub record Unhindered (key : String) (command : AuthorizationCommand) (fresh : Fresh)
    (db locked : Db) : Type 0 where
  pub positive : pos 0 <ℤ command.amount
  pub unclaimed : find_claim key db ≡ none
  pub still_unclaimed : find_claim key locked ≡ none
  pub new_id : find_payment fresh.payment_id locked ≡ none
  pub new_reference : reference_taken (some fresh.payment_reference) locked.payments ≡ false
  pub new_entry : find (λ q. q.id) fresh.ledger_id locked.ledger_entries ≡ none
  pub new_event : find_event fresh.event_id locked ≡ none
  pub new_version : version_taken fresh.payment_id 1 locked.webhook_events ≡ false

claim-held :
    (key fingerprint operation : String) (now : ℕ) (others : Db → Db) (db : Db)
    → find_claim key db ≡ none
    → find_claim key (others db) ≡ none
    → claim_idempotency_key key fingerprint operation now others db
      ≡ Claim.held (new_claim key fingerprint operation now) (record (others db) {
        idempotency_records =
            new_claim key fingerprint operation now ∷ (others db).idempotency_records;
      })
unfolding claim_idempotency_key find_idempotent_snapshot replay_of insert_claim insert
claim-held key fingerprint operation now others db unclaimed still = rw (unclaimed, still) refl

reference-untaken :
    (command : AuthorizationCommand) (fresh : Fresh) (decision : PaymentMethodDecision) (t : Terms)
    (db : Db)
    → terms_of command.amount decision fresh ≡ ok t
    → reference_taken (some fresh.payment_reference) db.payments ≡ false
    → reference_taken t.payment_reference db.payments ≡ false
unfolding terms_of
reference-untaken command fresh (PaymentMethodDecision.delayed d) t db h untaken =
    ground (arith, h, untaken)
reference-untaken command fresh (PaymentMethodDecision.authorization d) t db h untaken =
    ground (arith, h)

stage_authorization-ok :
    (command : AuthorizationCommand) (claim : IdempotencyRecord) (fresh : Fresh) (key : String)
    (db locked : Db)
    → Unhindered key command fresh db locked
    → (t : Terms) × (staged : Db) × (stage_authorization command claim none fresh
          (record locked { idempotency_records = claim ∷ locked.idempotency_records })
        ≡ ok (new_payment command t fresh, staged))
      × (find_payment fresh.payment_id staged ≡ some (new_payment command t fresh))
      × (find_claim claim.key staged ≡ some (completed claim (new_payment command t fresh)))
unfolding stage_authorization stage_outcome create_outbox_event
stage_authorization-ok command claim fresh key db locked free =
    let claimed : Db = record locked { idempotency_records = claim ∷ locked.idempotency_records } in
    let (t, decided, checks, nonnegative) =
      terms_fit command fresh command.payment_method_token free.positive in
    let p = new_payment command t fresh in
    let inserted =
      insert_payment-fresh p claimed checks
        (reference-untaken command fresh command.payment_method_token t locked decided
          free.new_reference)
        free.new_id in
    let with_payment : Db = record claimed { payments = p ∷ locked.payments } in
    let found : find_payment fresh.payment_id with_payment ≡ some p =
      find-first (λ q. q.id) p fresh.payment_id locked.payments
      ∙ rw (eq_refl fresh.payment_id) refl in
    let there : is_some (find_payment p.id with_payment) ≡ true = rw found refl in
    let (rows, flushed) =
      flush_authorization-ok p fresh with_payment nonnegative there free.new_entry in
    let with_entry : Db = record with_payment { ledger_entries = rows } in
    let event = outbox_event fresh.event_id p t.event_type in
    let published =
      insert_event-fresh event with_entry refl there free.new_version free.new_event in
    (
      t,
      complete_claim claim p (record with_entry { webhook_events = event ∷ locked.webhook_events }),
      rw (decided, inserted, flushed, published) refl,
      found,
      find-replace (λ r. r.key) (completed claim p) claim.key (claim ∷ locked.idempotency_records)
            (rw
              (
                find-first (λ r. r.key) claim claim.key locked.idempotency_records,
                eq_refl claim.key,
              )
              refl)
          ∙ rw (eq_refl claim.key) refl,
    )

-- An unhindered authorization of a positive amount, with no failure injected, is carried out
-- whatever the decision on it is: the call returns the payment that was written, which has the
-- requested amount, currency and reference and is stored under its identifier, and the key holds
-- the copy that later calls are answered with.
pub authorize_succeeds :
    (digest : Dictionary → String) (others : Db → Db) (command : AuthorizationCommand)
    (key : String) (fresh : Fresh) (db : Db)
    → Unhindered key command fresh db (others db)
    → (p : Payment) × (db' : Db) × (authorize_at digest others command key none fresh db
        ≡ (ok (record { payment = PaymentView.written p; replayed = false }), db'))
      × (find_payment fresh.payment_id db' ≡ some p)
      × ((p.amount ≡ command.amount)
          × (p.currency ≡ command.currency)
          × (p.merchant_reference ≡ command.merchant_reference))
      × ((r : IdempotencyRecord) × (find_claim key db' ≡ some r)
          × (r.response_snapshot ≡ some (from_payment p)))
unfolding authorize_at conclude
authorize_succeeds digest others command key fresh db free =
    let fingerprint = digest (authorization_payload command) in
    let claim = new_claim key fingerprint "AUTHORIZE" fresh.now in
    let held =
      claim-held key fingerprint "AUTHORIZE" fresh.now others db free.unclaimed
        free.still_unclaimed in
    let (t, staged, done, found, kept) =
      stage_authorization-ok command claim fresh key db (others db) free in
    (
      new_payment command t fresh,
      staged,
      rw (held, done) refl,
      found,
      (refl, refl, refl),
      (completed claim (new_payment command t fresh), kept, refl),
    )
