-- ===== src/Domain/Refunds.antt =====
-- Sequences of refunds of one payment: what they take together.
use payment_platform_quality.Prelude.{
  ℤ, pos, ◌+ℤ◌, ◌≤ℤ◌, ◌≡◌, ◌∙◌, ◌↔◌, refl, List, [], ◌∷◌, int_laws, arith,
}
use payment_platform_quality.Domain.Types.{PaymentStatus, PaymentState}
use payment_platform_quality.Domain.Operations.{refund}
use payment_platform_quality.Domain.Coherence.{IsCoherent, refund-IsCoherent}
use payment_platform_quality.Failure.{Result, ok, err}

-- What a refund has done to the state and to the sum of the accepted amounts.
abbrev tally : PaymentState → ℤ → ℤ → Result PaymentState → PaymentState × ℤ
tally s paid x (ok t) = (t, paid +ℤ x)
tally s paid x (err f) = (s, paid)

-- The state after refunds of the amounts in order, and the sum of those that were accepted.
pub refund_all : PaymentState → ℤ → List ℤ → PaymentState × ℤ
refund_all s paid [] = (s, paid)
refund_all s paid (x ∷ xs) = let step = tally s paid x (refund s x) in refund_all step.0 step.1 xs

refund_moves :
    (s t : PaymentState) (x : ℤ)
    → refund s x ≡ ok t
    → (t.captured_amount ≡ s.captured_amount) × (t.refunded_amount ≡ s.refunded_amount +ℤ x)
unfolding refund
refund_moves s t x e = ground arith

-- What the sum of the accepted amounts says of the state, for a payment that began with
-- `captured` captured and `before` refunded.
record IsBalanced (captured before : ℤ) (s : PaymentState) (paid : ℤ) : Type 0 where
  coherent : IsCoherent s
  kept : s.captured_amount ≡ captured
  added : s.refunded_amount ≡ before +ℤ paid

module _ (captured before : ℤ) where
  refund-IsBalanced :
      (s t : PaymentState) (paid x : ℤ)
      → IsBalanced captured before s paid
      → refund s x ≡ ok t
      → IsBalanced captured before t (paid +ℤ x)
  refund-IsBalanced s t paid x h e =
      let (same, more) = refund_moves s t x e in
      record {
        coherent = refund-IsCoherent s t x h.coherent e;
        kept = same ∙ h.kept;
        added = rw (more, h.added) (omega int_laws);
      }

  tally-IsBalanced :
      (s : PaymentState) (paid x : ℤ)
      → IsBalanced captured before s paid
      → let (s', paid') = tally s paid x (refund s x) in IsBalanced captured before s' paid'
  tally-IsBalanced s paid x h = go (refund s x) refl
    where
      go :
          (r : Result PaymentState)
          → refund s x ≡ r
          → let (s', paid') = tally s paid x r in IsBalanced captured before s' paid'
      go (err f) e = h
      go (ok t) e = refund-IsBalanced s t paid x h e

  refund_all-IsBalanced :
      (s : PaymentState) (paid : ℤ) (xs : List ℤ)
      → IsBalanced captured before s paid
      → let (s', paid') = refund_all s paid xs in IsBalanced captured before s' paid'
  unfolding refund_all
  refund_all-IsBalanced s paid [] h = h
  refund_all-IsBalanced s paid (x ∷ xs) h =
      let step = tally s paid x (refund s x) in
      refund_all-IsBalanced step.0 step.1 xs (tally-IsBalanced s paid x h)

conserved :
    (captured before paid : ℤ) (t : PaymentState)
    → pos 1 ≤ℤ captured
    → IsBalanced captured before t paid
    → (t.refunded_amount ≡ before +ℤ paid)
      × (before +ℤ paid ≤ℤ captured)
      × (t.captured_amount ≡ captured)
      × ((t.status ≡ PaymentStatus.refunded) ↔ (t.refunded_amount ≡ captured))
conserved captured before paid t p b = (
  b.added,
  ground (arith, b.added),
  b.kept,
  (λ e. ground (arith, b.kept), λ e. ground (arith, b.kept)),
)

-- Whatever refunds are tried in whatever order on a payment with coherent balances and captured
-- funds, the refunded amount grows by exactly the sum of the accepted ones, never beyond the
-- captured amount, which stays; and the status is REFUNDED exactly when nothing is left.
pub refund_all_conserves :
    (s : PaymentState) (xs : List ℤ)
    → IsCoherent s
    → pos 1 ≤ℤ s.captured_amount
    → let (t, paid) = refund_all s (pos 0) xs in
      (t.refunded_amount ≡ s.refunded_amount +ℤ paid)
      × (s.refunded_amount +ℤ paid ≤ℤ s.captured_amount)
      × (t.captured_amount ≡ s.captured_amount)
      × ((t.status ≡ PaymentStatus.refunded) ↔ (t.refunded_amount ≡ s.captured_amount))
refund_all_conserves s xs h p =
    let b : IsBalanced s.captured_amount s.refunded_amount s (pos 0) = record {
      coherent = h;
      kept = refl;
      added = omega int_laws;
    } in
    let step = refund_all s (pos 0) xs in
    conserved s.captured_amount s.refunded_amount step.1 step.0 p
      (refund_all-IsBalanced s.captured_amount s.refunded_amount s (pos 0) xs b)
