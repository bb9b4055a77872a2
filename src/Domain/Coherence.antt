-- ===== src/Domain/Coherence.antt =====
-- What the status of a payment says of its balances, and that every operation of
-- domain/payment.py keeps it. `perform` gathers the operations under one name.
use payment_platform_quality.Prelude.{
  ℤ, pos, ◌≤ℤ◌, ◌<ℤ◌, ◌≡◌, ◌⊎◌, ◌↔◌, ◌∙◌, ap, sym, arith, eqb_ℤ, if◌then◌else◌, -ℤ_parts, +ℤ_parts,
  ◌+ℤ◌, eq_of_parts,
}
use payment_platform_quality.Domain.Types.{PaymentStatus, PaymentState}
use payment_platform_quality.Domain.Operations.{
  capture, capture_confirmation, expire, cancel, refund,
}
use payment_platform_quality.Failure.{Result, ok}

-- The balances that each status allows: authorized, captured, refunded.
abbrev pub BalancesAt : PaymentStatus → ℤ → ℤ → ℤ → Type 0
BalancesAt PaymentStatus.authorized a c r = (pos 0 <ℤ a) × (c ≡ pos 0) × (r ≡ pos 0)
BalancesAt PaymentStatus.awaiting_payment a c r = (a ≡ pos 0) × (c ≡ pos 0) × (r ≡ pos 0)
BalancesAt PaymentStatus.declined a c r = (a ≡ pos 0) × (c ≡ pos 0) × (r ≡ pos 0)
BalancesAt PaymentStatus.captured a c r = (pos 0 <ℤ c) × (c ≡ a) × (r ≡ pos 0)
BalancesAt PaymentStatus.partially_refunded a c r = (pos 0 <ℤ r) × (c ≡ a) × (r <ℤ c)
BalancesAt PaymentStatus.refunded a c r = (pos 0 <ℤ c) × (c ≡ a) × (r ≡ c)
BalancesAt PaymentStatus.cancelled a c r = (pos 0 ≤ℤ a) × (c ≡ pos 0) × (r ≡ pos 0)
BalancesAt PaymentStatus.expired a c r = (a ≡ pos 0) × (c ≡ pos 0) × (r ≡ pos 0)

abbrev pub IsCoherent : PaymentState → Type 0
IsCoherent s = BalancesAt s.status s.authorized_amount s.captured_amount s.refunded_amount

-- One call of an operation of the module.
pub data Call : Type 0 where
  call_capture call_expire call_cancel : Call
  call_confirm call_refund : ℤ → Call

unfoldable pub perform : PaymentState → Call → Result PaymentState
perform s Call.call_capture = capture s
perform s Call.call_expire = expire s
perform s Call.call_cancel = cancel s
perform s (Call.call_confirm amount) = capture_confirmation s amount
perform s (Call.call_refund amount) = refund s amount

pub capture-IsCoherent : (s t : PaymentState) → IsCoherent s → capture s ≡ ok t → IsCoherent t
unfolding capture
capture-IsCoherent s t h e = ground arith

pub confirm-IsCoherent :
    (s t : PaymentState) (x : ℤ) → IsCoherent s → capture_confirmation s x ≡ ok t → IsCoherent t
unfolding capture_confirmation
confirm-IsCoherent s t x h e = ground arith

pub expire-IsCoherent : (s t : PaymentState) → IsCoherent s → expire s ≡ ok t → IsCoherent t
unfolding expire
expire-IsCoherent s t h e = ground arith

pub cancel-IsCoherent : (s t : PaymentState) → IsCoherent s → cancel s ≡ ok t → IsCoherent t
unfolding cancel
cancel-IsCoherent s t h e = ground arith

pub refund-IsCoherent :
    (s t : PaymentState) (x : ℤ) → IsCoherent s → refund s x ≡ ok t → IsCoherent t
unfolding refund
refund-IsCoherent s t x h e = ground (
  arith,
  -ℤ_parts s.captured_amount s.refunded_amount,
  +ℤ_parts s.refunded_amount x,
  eq_of_parts (s.refunded_amount +ℤ x) s.captured_amount,
)

-- Every successful operation takes coherent balances to coherent balances.
pub perform-IsCoherent :
    (s t : PaymentState) (c : Call) → IsCoherent s → perform s c ≡ ok t → IsCoherent t
unfolding perform
perform-IsCoherent s t Call.call_capture h e = capture-IsCoherent s t h e
perform-IsCoherent s t Call.call_expire h e = expire-IsCoherent s t h e
perform-IsCoherent s t Call.call_cancel h e = cancel-IsCoherent s t h e
perform-IsCoherent s t (Call.call_confirm x) h e = confirm-IsCoherent s t x h e
perform-IsCoherent s t (Call.call_refund x) h e = refund-IsCoherent s t x h e

-- When a call is accepted, said by the status and the balances alone.
abbrev pub Accepts : PaymentState → Call → Type 0
Accepts s Call.call_capture = s.status ≡ PaymentStatus.authorized
Accepts s Call.call_expire = s.status ≡ PaymentStatus.awaiting_payment
Accepts s Call.call_cancel =
    (s.status ≡ PaymentStatus.authorized) ⊎ (s.status ≡ PaymentStatus.awaiting_payment)
Accepts s (Call.call_confirm x) = (s.status ≡ PaymentStatus.awaiting_payment) × (pos 0 <ℤ x)
Accepts s (Call.call_refund x) = (pos 0 <ℤ x) × (s.refunded_amount +ℤ x ≤ℤ s.captured_amount)

-- The state that an accepted call leads to.
abbrev pub after : PaymentState → Call → PaymentState
after s Call.call_capture = record s {
  status = PaymentStatus.captured;
  captured_amount = s.authorized_amount;
}
after s Call.call_expire = record s { status = PaymentStatus.expired }
after s Call.call_cancel = record s { status = PaymentStatus.cancelled }
after s (Call.call_confirm x) = record s {
  status = PaymentStatus.captured;
  authorized_amount = x;
  captured_amount = x;
}
after s (Call.call_refund x) = record s {
  status =
      if eqb_ℤ (s.refunded_amount +ℤ x) s.captured_amount
      then PaymentStatus.refunded
      else PaymentStatus.partially_refunded;
  refunded_amount = s.refunded_amount +ℤ x;
}

refund_accepted :
    (s : PaymentState) (x : ℤ)
    → IsCoherent s
    → Accepts s (Call.call_refund x)
    → refund s x ≡ ok (after s (Call.call_refund x))
unfolding refund
refund_accepted s x h a =
    ground (arith, -ℤ_parts s.captured_amount s.refunded_amount, +ℤ_parts s.refunded_amount x)

refund-Accepts :
    (s t : PaymentState) (x : ℤ) → IsCoherent s → refund s x ≡ ok t → Accepts s (Call.call_refund x)
unfolding refund
refund-Accepts s t x h a =
    ground (arith, -ℤ_parts s.captured_amount s.refunded_amount, +ℤ_parts s.refunded_amount x)

-- From coherent balances an accepted call succeeds, with exactly the state `after`: no check of
-- the constructor stands in its way. A refund needs no look at the status, only a positive
-- amount that fits into what is captured and not yet refunded.
pub perform_accepted :
    (s : PaymentState) (c : Call) → IsCoherent s → Accepts s c → perform s c ≡ ok (after s c)
unfolding perform capture capture_confirmation expire cancel
perform_accepted s Call.call_capture h a = ground arith
perform_accepted s Call.call_expire h a = ground arith
perform_accepted s Call.call_cancel h a = ground arith
perform_accepted s (Call.call_confirm x) h a = ground arith
perform_accepted s (Call.call_refund x) h a = refund_accepted s x h a

-- From coherent balances a call that succeeds was accepted.
pub perform-Accepts :
    (s t : PaymentState) (c : Call) → IsCoherent s → perform s c ≡ ok t → Accepts s c
unfolding perform capture capture_confirmation expire cancel
perform-Accepts s t Call.call_capture h e = ground arith
perform-Accepts s t Call.call_expire h e = ground arith
perform-Accepts s t Call.call_cancel h e = ground arith
perform-Accepts s t (Call.call_confirm x) h e = ground arith
perform-Accepts s t (Call.call_refund x) h e = refund-Accepts s t x h e

-- From coherent balances, a call succeeds with state t exactly when it is accepted and t is the
-- state `after`.
pub perform_exact :
    (s t : PaymentState) (c : Call)
    → IsCoherent s
    → (perform s c ≡ ok t) ↔ (Accepts s c × (t ≡ after s c))
perform_exact s t c h = (
  λ e. (perform-Accepts s t c h e, cc (e, perform_accepted s c h (perform-Accepts s t c h e))),
  λ a. perform_accepted s c h a.0 ∙ ap ok (sym a.1),
)
