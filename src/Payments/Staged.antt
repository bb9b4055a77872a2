-- ===== src/Payments/Staged.antt =====
-- The staged work of a call completes the claim of its key.
use payment_platform_quality.Prelude.{
  ℤ, true, Option, some, List, ◌≡◌, inl, inr, String, eq_refl, arith,
}
use payment_platform_quality.Domain.Types.{PaymentOperation, PaymentState}
use payment_platform_quality.Failure.{FailurePoint, Result, ok, Result-cases, >>=-eq-ok}
use payment_platform_quality.Database.Types.{Payment, IdempotencyRecord, WebhookEventType}
use payment_platform_quality.Database.Tables.{is_some, find-replace}
use payment_platform_quality.Database.Store.{
  Db, find_claim, insert_payment, insert_ledger, insert_event, update_payment,
}
use payment_platform_quality.Database.Inversion.{
  insert_payment_inv, insert_ledger_inv, insert_event_inv, update_payment_inv,
}
use payment_platform_quality.Webhooks.Outbox.{outbox_event, create_outbox_event}
use payment_platform_quality.Payments.Commands.{AuthorizationCommand, LifecycleCommand, Fresh}
use payment_platform_quality.Payments.Commit.{completed, stage_outcome}
use payment_platform_quality.Payments.Authorize.{
  flush_authorization, stage_authorization, new_payment, terms_of, authorization_entry,
}
use payment_platform_quality.Payments.Lifecycle.{
  flush_lifecycle, stage_lifecycle, with_state, lifecycle_entry, get_payment, state_of, next_of,
  event_of,
}

-- The claims are untouched by a step that succeeds.
abbrev KeepsClaims : Db → Result (Payment × Db) → Type 0
KeepsClaims db r =
    (p : Payment) (d : Db) → r ≡ ok (p, d) → d.idempotency_records ≡ db.idempotency_records

stage_outcome_claim :
    (flush : Db → Result (Payment × Db)) (claim : IdempotencyRecord) (event : WebhookEventType)
    (event_id : String) (point : Option FailurePoint) (db : Db) (p : Payment) (db' : Db)
    → KeepsClaims db (flush db)
    → is_some (find_claim claim.key db) ≡ true
    → stage_outcome flush claim event event_id point db ≡ ok (p, db')
    → find_claim claim.key db' ≡ some (completed claim p)
unfolding stage_outcome create_outbox_event
stage_outcome_claim flush claim event event_id point db p db' keeps there h =
    elim (Result-cases (flush db)) [
      | inr (e, failed) ↦ absurd (ground arith)
      | inl ((q, d), flushed) ↦
          elim (Result-cases (insert_event (outbox_event event_id q event) d)) [
            | inr (e, failed) ↦ absurd (ground arith)
            | inl (d', inserted) ↦ ground (
              arith,
              keeps q d flushed,
              insert_event_inv (outbox_event event_id q event) d d' inserted,
              eq_refl claim.key,
              find-replace (λ r. r.key) (completed claim q) claim.key d'.idempotency_records,
            )
          ]
    ]

flush_authorization-KeepsClaims :
    (p : Payment) (fresh : Fresh) (db : Db) → KeepsClaims db (flush_authorization p fresh db)
unfolding flush_authorization
flush_authorization-KeepsClaims p fresh db q d h =
    elim (Result-cases (insert_ledger (authorization_entry p fresh) db)) [
      | inr (e, failed) ↦ ground arith
      | inl (d', inserted) ↦
          ground (arith, insert_ledger_inv (authorization_entry p fresh) db d' inserted)
    ]

flush_lifecycle-KeepsClaims :
    (operation : PaymentOperation) (p : Payment) (next : PaymentState) (amount : ℤ) (fresh : Fresh)
    (db : Db)
    → KeepsClaims db (flush_lifecycle operation p next amount fresh db)
unfolding flush_lifecycle
flush_lifecycle-KeepsClaims operation p next amount fresh db q d h =
    elim (Result-cases (update_payment p (with_state p next fresh.now) db)) [
      | inr (e, failed) ↦ absurd (ground arith)
      | inl ((u, d'), updated) ↦
          elim (Result-cases (insert_ledger (lifecycle_entry operation amount p fresh) d')) [
            | inr (e, failed) ↦
                ground (arith, update_payment_inv p (with_state p next fresh.now) u db d' updated)
            | inl (d'', inserted) ↦ ground (
              arith,
              update_payment_inv p (with_state p next fresh.now) u db d' updated,
              insert_ledger_inv (lifecycle_entry operation amount p fresh) d' d'' inserted,
            )
          ]
    ]

pub stage_authorization_claim :
    (command : AuthorizationCommand) (claim : IdempotencyRecord) (point : Option FailurePoint)
    (fresh : Fresh) (db : Db) (p : Payment) (db' : Db)
    → is_some (find_claim claim.key db) ≡ true
    → stage_authorization command claim point fresh db ≡ ok (p, db')
    → find_claim claim.key db' ≡ some (completed claim p)
unfolding stage_authorization
stage_authorization_claim command claim point fresh db p db' there h =
    let (terms, _, rest) =
      >>=-eq-ok (terms_of command.amount command.payment_method_token fresh) _ h in
    let q = new_payment command terms fresh in
    let (d, inserted, staged) = >>=-eq-ok (insert_payment q db) _ rest in
    stage_outcome_claim (flush_authorization q fresh) claim terms.event_type fresh.event_id point d
      p db' (flush_authorization-KeepsClaims q fresh d)
      (ground (arith, insert_payment_inv q db d inserted)) staged

pub stage_lifecycle_claim :
    (loaded : List Payment) (command : LifecycleCommand) (claim : IdempotencyRecord)
    (point : Option FailurePoint) (fresh : Fresh) (db : Db) (p : Payment) (db' : Db)
    → is_some (find_claim claim.key db) ≡ true
    → stage_lifecycle loaded command claim point fresh db ≡ ok (p, db')
    → find_claim claim.key db' ≡ some (completed claim p)
unfolding stage_lifecycle
stage_lifecycle_claim loaded command claim point fresh db p db' there h =
    let (q, _, h₁) = >>=-eq-ok (get_payment loaded command.payment_id db) _ h in
    let (current, _, h₂) = >>=-eq-ok (state_of q) _ h₁ in
    let (next, _, h₃) = >>=-eq-ok (next_of command.operation command.amount q.id current db) _ h₂ in
    let (event, _, staged) = >>=-eq-ok (event_of command.operation) _ h₃ in
    stage_outcome_claim (flush_lifecycle command.operation q next.0 next.1 fresh) claim event
      fresh.event_id point db p db'
      (flush_lifecycle-KeepsClaims command.operation q next.0 next.1 fresh db) there staged
