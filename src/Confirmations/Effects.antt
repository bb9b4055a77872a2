-- ===== src/Confirmations/Effects.antt =====
-- What the transitions of services/confirmations.py have written.
use payment_platform_quality.Prelude.{
  ℕ, ℤ, pos, Option, none, some, ◌≡◌, refl, String, arith, ◌+ℤ◌, int_laws,
}
use payment_platform_quality.Domain.Types.{PaymentStatus, PaymentState}
use payment_platform_quality.Domain.Operations.{capture_confirmation, expire}
use payment_platform_quality.Domain.Coherence.{IsCoherent, expire-IsCoherent, confirm-IsCoherent}
use payment_platform_quality.Failure.{ok, >>=-eq-ok}
use payment_platform_quality.Database.Types.{Payment, LedgerEntry, WebhookEventType}
use payment_platform_quality.Database.Tables.{replace}
use payment_platform_quality.Database.Store.{Db, find_payment, update_payment, insert_ledger}
use payment_platform_quality.Database.Inversion.{
  update_payment_inv, insert_ledger_inv, insert_event_inv,
}
use payment_platform_quality.Webhooks.Outbox.{outbox_event, create_outbox_event}
use payment_platform_quality.Ledger.Sums.{
  add_entry, delta, authorized_part, captured_part, refunded_part,
}
use payment_platform_quality.Payments.Commands.{Fresh}
use payment_platform_quality.Payments.Lifecycle.{state_of, with_state}
use payment_platform_quality.Payments.Effects.{next_payment}
use payment_platform_quality.Confirmations.Commands.{ConfirmationCommand}
use payment_platform_quality.Confirmations.Dispositions.{
  apply_expiry_transition, apply_capture, confirmation_entry,
}

-- One payment moved to a next state at a time, with at most one ledger entry and one event.
pub record Transition (p : Payment) (entry : Option LedgerEntry) (db db' : Db) : Type 0 where
  pub current : PaymentState
  pub next : PaymentState
  pub time : ℕ
  pub was_state : state_of p ≡ ok current
  pub payments : db'.payments ≡ replace (λ r. r.id) (next_payment p next time) db.payments
  pub entries : db'.ledger_entries ≡ add_entry entry db.ledger_entries
  pub replaced : (row : Payment) × (find_payment p.id db ≡ some row) × (row.version ≡ p.version)
  pub receipts : db'.receipts ≡ db.receipts
  pub confirmations : db'.confirmations ≡ db.confirmations
  pub fits : IsCoherent current → IsCoherent next
  pub grows :
      IsCoherent current
      → (next.authorized_amount ≡ delta authorized_part entry +ℤ current.authorized_amount)
        × (next.captured_amount ≡ delta captured_part entry +ℤ current.captured_amount)
        × (next.refunded_amount ≡ delta refunded_part entry +ℤ current.refunded_amount)

expire_same :
    (s t : PaymentState)
    → expire s ≡ ok t
    → (t.status ≡ PaymentStatus.expired)
      × (t.authorized_amount ≡ s.authorized_amount)
      × (t.captured_amount ≡ s.captured_amount)
      × (t.refunded_amount ≡ s.refunded_amount)
unfolding expire
expire_same s t h = ground arith

confirm_sets :
    (s t : PaymentState) (x : ℤ)
    → IsCoherent s
    → capture_confirmation s x ≡ ok t
    → (t.authorized_amount ≡ x)
      × (t.captured_amount ≡ x)
      × (t.refunded_amount ≡ pos 0)
      × (s.authorized_amount ≡ pos 0)
      × (s.captured_amount ≡ pos 0)
      × (s.refunded_amount ≡ pos 0)
unfolding capture_confirmation
confirm_sets s t x h e = ground arith

-- The expiry writes the EXPIRED payment and no entry.
pub expiry_effect :
    (p : Payment) (t : ℕ) (event_id : String) (db db' : Db)
    → apply_expiry_transition p t event_id db ≡ ok db'
    → (tr : Transition p none db db') × (tr.next.status ≡ PaymentStatus.expired) × (tr.time ≡ t)
unfolding apply_expiry_transition create_outbox_event
expiry_effect p t event_id db db' h =
    let (s, was, h₁) = >>=-eq-ok (state_of p) _ h in
    let (n, expired, h₂) = >>=-eq-ok (expire s) _ h₁ in
    let ((q, d), updated, staged) = >>=-eq-ok (update_payment p (with_state p n t) db) _ h₂ in
    let inv = update_payment_inv p (with_state p n t) q db d updated in
    let inv' = insert_event_inv (outbox_event event_id q WebhookEventType.expired) d db' staged in
    let same = expire_same s n expired in
    (
      record {
        current = s;
        next = n;
        time = t;
        was_state = was;
        payments = ground (arith, inv, inv');
        entries = ground (arith, inv, inv');
        replaced = inv.2;
        receipts = ground (arith, inv, inv');
        confirmations = ground (arith, inv, inv');
        fits = λ c. expire-IsCoherent s n c expired;
        grows = λ c.
            (rw same.1 (omega int_laws), rw same.2 (omega int_laws), rw same.3 (omega int_laws));
      },
      same.0,
      refl,
    )

-- The capture of a confirmation writes the captured payment and the entry of its amount.
pub capture_effect :
    (p : Payment) (command : ConfirmationCommand) (t : ℕ) (fresh : Fresh) (db db' : Db)
    → apply_capture p command t fresh db ≡ ok db'
    → Transition p (some (confirmation_entry p command t fresh)) db db'
unfolding apply_capture create_outbox_event
capture_effect p command t fresh db db' h =
    let (s, was, h₁) = >>=-eq-ok (state_of p) _ h in
    let (n, captured, h₂) = >>=-eq-ok (capture_confirmation s command.amount) _ h₁ in
    let ((q, d), updated, h₃) = >>=-eq-ok (update_payment p (with_state p n t) db) _ h₂ in
    let (d', inserted, staged) =
      >>=-eq-ok (insert_ledger (confirmation_entry p command t fresh) d) _ h₃ in
    let inv = update_payment_inv p (with_state p n t) q db d updated in
    let inv' = insert_ledger_inv (confirmation_entry p command t fresh) d d' inserted in
    let inv'' =
      insert_event_inv (outbox_event fresh.event_id q WebhookEventType.captured) d' db' staged in
    record {
      current = s;
      next = n;
      time = t;
      was_state = was;
      payments = ground (arith, inv, inv', inv'');
      entries = ground (arith, inv, inv', inv'');
      replaced = inv.2;
      receipts = ground (arith, inv, inv', inv'');
      confirmations = ground (arith, inv, inv', inv'');
      fits = λ c. confirm-IsCoherent s n command.amount c captured;
      grows = λ c.
          let same = confirm_sets s n command.amount c captured in
          (
            rw (same.0, same.3) (omega int_laws),
            rw (same.1, same.4) (omega int_laws),
            rw (same.2, same.5) (omega int_laws),
          );
    }
