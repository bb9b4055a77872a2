-- ===== src/Domain/Graph.antt =====
-- The lifecycle as a graph of statuses, and runs of calls of the operations.
use payment_platform_quality.Prelude.{◌≡◌, ◌⊎◌, refl, ap, List, [], ◌∷◌, arith}
use payment_platform_quality.Domain.Types.{PaymentStatus, PaymentState}
use payment_platform_quality.Domain.Operations.{
  capture, capture_confirmation, expire, cancel, refund,
}
use payment_platform_quality.Domain.Coherence.{IsCoherent, Call, perform, perform-IsCoherent}
use payment_platform_quality.Failure.{Result, ok, err}

infix 40 ◌⟶◌
pub data ◌⟶◌ : PaymentStatus → PaymentStatus → Type 0 where
  captures : PaymentStatus.authorized ⟶ PaymentStatus.captured
  cancels : PaymentStatus.authorized ⟶ PaymentStatus.cancelled
  confirms : PaymentStatus.awaiting_payment ⟶ PaymentStatus.captured
  expires : PaymentStatus.awaiting_payment ⟶ PaymentStatus.expired
  withdraws : PaymentStatus.awaiting_payment ⟶ PaymentStatus.cancelled
  refunds_part : PaymentStatus.captured ⟶ PaymentStatus.partially_refunded
  refunds_all : PaymentStatus.captured ⟶ PaymentStatus.refunded
  refunds_more : PaymentStatus.partially_refunded ⟶ PaymentStatus.partially_refunded
  refunds_rest : PaymentStatus.partially_refunded ⟶ PaymentStatus.refunded

pub ruleset edges = (
  captures, cancels, confirms, expires, withdraws, refunds_part, refunds_all, refunds_more,
  refunds_rest,
)

-- A call that succeeds moves the status along an edge of the lifecycle graph.
pub perform-⟶ : (s t : PaymentState) (c : Call) → perform s c ≡ ok t → s.status ⟶ t.status
unfolding perform capture capture_confirmation expire cancel refund
perform-⟶ s t Call.call_capture e = grind (arith, edges)
perform-⟶ s t Call.call_expire e = grind (arith, edges)
perform-⟶ s t Call.call_cancel e = grind (arith, edges)
perform-⟶ s t (Call.call_confirm x) e = grind (arith, edges)
perform-⟶ s t (Call.call_refund x) e = grind (arith, edges)

-- A call that raises leaves the state as it was: the operations build a new state.
abbrev pub settle : PaymentState → Result PaymentState → PaymentState
settle s (ok t) = t
settle s (err f) = s

-- The state after a list of calls, of which those that raise change nothing.
pub run : PaymentState → List Call → PaymentState
run s [] = s
run s (c ∷ cs) = run (settle s (perform s c)) cs

abbrev pub IsFinal : PaymentStatus → Type 0
IsFinal u =
    (u ≡ PaymentStatus.declined)
    ⊎ (u ≡ PaymentStatus.refunded)
    ⊎ (u ≡ PaymentStatus.cancelled)
    ⊎ (u ≡ PaymentStatus.expired)

settle-IsFinal : (s : PaymentState) (c : Call) → IsFinal s.status → settle s (perform s c) ≡ s
unfolding perform capture capture_confirmation expire cancel refund
settle-IsFinal s Call.call_capture h = ground arith
settle-IsFinal s Call.call_expire h = ground arith
settle-IsFinal s Call.call_cancel h = ground arith
settle-IsFinal s (Call.call_confirm x) h = ground arith
settle-IsFinal s (Call.call_refund x) h = ground arith

-- A declined, refunded, cancelled or expired payment never changes again, whatever is called.
pub run-IsFinal : (s : PaymentState) (cs : List Call) → IsFinal s.status → run s cs ≡ s
unfolding run
run-IsFinal s [] h = refl
run-IsFinal s (c ∷ cs) h = cc (ap (λ u. run u cs) (settle-IsFinal s c h), run-IsFinal s cs h)

settle-IsCoherent :
    (s : PaymentState) (c : Call) → IsCoherent s → IsCoherent (settle s (perform s c))
settle-IsCoherent s c h = go (perform s c) refl
  where
    go : (r : Result PaymentState) → perform s c ≡ r → IsCoherent (settle s r)
    go (ok t) e = perform-IsCoherent s t c h e
    go (err f) e = h

-- Coherent balances stay coherent through any list of calls.
pub run-IsCoherent : (s : PaymentState) (cs : List Call) → IsCoherent s → IsCoherent (run s cs)
unfolding run
run-IsCoherent s [] h = h
run-IsCoherent s (c ∷ cs) h = run-IsCoherent (settle s (perform s c)) cs (settle-IsCoherent s c h)
