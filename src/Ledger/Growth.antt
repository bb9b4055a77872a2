-- ===== src/Ledger/Growth.antt =====
-- The next state of a lifecycle operation, against what its ledger entry adds to each sum.
use payment_platform_quality.Prelude.{
  ℤ, pos, ◌+ℤ◌, ◌-ℤ◌, ◌&&◌, Option, none, some, ◌≡◌, String, arith, int_laws, inl, inr, Bool-cases,
}
use mathlib.Core.Path.{subst}
use payment_platform_quality.Domain.Types.{
  PaymentOperation, PaymentState, PaymentStatus, same_status,
}
use payment_platform_quality.Coordination.{has_protecting_receipt}
use payment_platform_quality.Domain.Operations.{payment_state, capture, cancel, refund}
use payment_platform_quality.Domain.Coherence.{
  IsCoherent, capture-IsCoherent, cancel-IsCoherent, refund-IsCoherent,
}
use payment_platform_quality.Failure.{ok, >>=-eq-ok, ok-injective, raise_if, confirmation_pending}
use payment_platform_quality.Database.Types.{Payment}
use payment_platform_quality.Database.Store.{Db}
use payment_platform_quality.Ledger.Sums.{delta, authorized_part, captured_part, refunded_part}
use payment_platform_quality.Payments.Commands.{Fresh}
use payment_platform_quality.Payments.Lifecycle.{state_of, next_of, is_unpaid_cancel}
use payment_platform_quality.Payments.Effects.{lifecycle_entry?}

-- A next state that fits its status, with balances that grow by what the entry adds.
abbrev pub Grows : PaymentOperation → Payment → Fresh → PaymentState → PaymentState → ℤ → Type 0
Grows operation p fresh s t amount =
    IsCoherent t
    × (t.authorized_amount
        ≡ delta authorized_part (lifecycle_entry? operation amount p fresh) +ℤ s.authorized_amount)
    × (t.captured_amount
        ≡ delta captured_part (lifecycle_entry? operation amount p fresh) +ℤ s.captured_amount)
    × (t.refunded_amount
        ≡ delta refunded_part (lifecycle_entry? operation amount p fresh) +ℤ s.refunded_amount)

capture-Grows :
    (p : Payment) (fresh : Fresh) (s t : PaymentState)
    → IsCoherent s
    → capture s ≡ ok t
    → Grows PaymentOperation.capture p fresh s t (t.captured_amount -ℤ s.captured_amount)
unfolding capture
capture-Grows p fresh s t h e =
    let facts : (t.authorized_amount ≡ s.authorized_amount)
        × (s.refunded_amount ≡ pos 0)
        × (t.refunded_amount ≡ pos 0) =
      ground arith in
    (
      capture-IsCoherent s t h e,
      rw facts.0 (omega int_laws),
      omega int_laws,
      rw (facts.1, facts.2) (omega int_laws),
    )

refund-Grows :
    (p : Payment) (fresh : Fresh) (s t : PaymentState) (x : ℤ)
    → IsCoherent s
    → refund s x ≡ ok t
    → Grows PaymentOperation.refund p fresh s t x
unfolding refund
refund-Grows p fresh s t x h e =
    let facts : (t.authorized_amount ≡ s.authorized_amount)
        × (t.captured_amount ≡ s.captured_amount)
        × (t.refunded_amount ≡ s.refunded_amount +ℤ x) =
      ground arith in
    (
      refund-IsCoherent s t x h e,
      rw facts.0 (omega int_laws),
      rw facts.1 (omega int_laws),
      rw facts.2 (omega int_laws),
    )

cancel-Grows :
    (p : Payment) (fresh : Fresh) (s t : PaymentState) (x : ℤ)
    → IsCoherent s
    → cancel s ≡ ok t
    → Grows PaymentOperation.cancel p fresh s t x
unfolding cancel
cancel-Grows p fresh s t x h e =
    let facts : (t.authorized_amount ≡ s.authorized_amount)
        × (t.captured_amount ≡ s.captured_amount)
        × (t.refunded_amount ≡ s.refunded_amount) =
      ground arith in
    elim (Bool-cases (is_unpaid_cancel PaymentOperation.cancel p.status)) [
      | inl unpaid ↦ rw unpaid (
        cancel-IsCoherent s t h e,
        rw facts.0 (omega int_laws),
        rw facts.1 (omega int_laws),
        rw facts.2 (omega int_laws),
      )
      | inr paid ↦ rw paid (
        cancel-IsCoherent s t h e,
        rw facts.0 (omega int_laws),
        rw facts.1 (omega int_laws),
        rw facts.2 (omega int_laws),
      )
    ]

pub next_of-Grows :
    (operation : PaymentOperation) (x : Option ℤ) (k : String) (db : Db) (p : Payment)
    (fresh : Fresh) (s t : PaymentState) (amount : ℤ)
    → IsCoherent s
    → next_of operation x k s db ≡ ok (t, amount)
    → Grows operation p fresh s t amount
unfolding next_of
next_of-Grows PaymentOperation.capture x k db p fresh s t amount h e =
    let (t', captured, same) = >>=-eq-ok (capture s) _ e in
    subst (λ r. Grows PaymentOperation.capture p fresh s r.0 r.1) (ok-injective same)
      (capture-Grows p fresh s t' h captured)
next_of-Grows PaymentOperation.cancel x k db p fresh s t amount h e =
    let (_, _, e') =
      >>=-eq-ok
        (raise_if
          (same_status s.status PaymentStatus.awaiting_payment && has_protecting_receipt k db)
          confirmation_pending)
        _ e in
    let (t', cancelled, same) = >>=-eq-ok (cancel s) _ e' in
    subst (λ r. Grows PaymentOperation.cancel p fresh s r.0 r.1) (ok-injective same)
      (cancel-Grows p fresh s t' s.authorized_amount h cancelled)
next_of-Grows PaymentOperation.refund none k db p fresh s t amount h e = absurd (ground arith)
next_of-Grows PaymentOperation.refund (some y) k db p fresh s t amount h e =
    let (t', refunded, same) = >>=-eq-ok (refund s y) _ e in
    subst (λ r. Grows PaymentOperation.refund p fresh s r.0 r.1) (ok-injective same)
      (refund-Grows p fresh s t' y h refunded)
next_of-Grows PaymentOperation.authorize x k db p fresh s t amount h e = absurd (ground arith)
next_of-Grows PaymentOperation.confirmation_capture x k db p fresh s t amount h e =
    absurd (ground arith)
next_of-Grows PaymentOperation.expire x k db p fresh s t amount h e = absurd (ground arith)

-- `_payment_state` copies the fields.
pub state_of_fields :
    (p : Payment) (s : PaymentState)
    → state_of p ≡ ok s
    → s ≡ record {
      status = p.status;
      authorized_amount = p.authorized_amount;
      captured_amount = p.captured_amount;
      refunded_amount = p.refunded_amount;
    }
unfolding payment_state
state_of_fields p s h = ground arith
