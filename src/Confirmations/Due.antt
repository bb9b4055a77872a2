-- ===== src/Confirmations/Due.antt =====
-- Which payments the query of `expire_due_payments` in services/confirmations.py selects.
use payment_platform_quality.Prelude.{
  ℕ, ◌≤◌, false, some, List, [], ◌∷◌, ◌≡◌, inl, inr, All, arith, Bool-cases,
}
use payment_platform_quality.Domain.Types.{PaymentStatus}
use payment_platform_quality.Database.Types.{Payment}
use payment_platform_quality.Database.Rows.{ConfirmationReceipt}
use payment_platform_quality.Coordination.{protects, protecting_receipt_exists}
use payment_platform_quality.Confirmations.Expire.{is_due}

-- A payment that the scheduled expiry has to expire at `t`: it awaits its confirmation, its expiry
-- has passed, and no receipt protects it.
pub record IsDue (receipts : List ConfirmationReceipt) (t : ℕ) (p : Payment) : Type 0 where
  pub awaiting : p.status ≡ PaymentStatus.awaiting_payment
  pub passed : (e : ℕ) × (p.expires_at ≡ some e) × (e ≤ t)
  pub unprotected : All (λ r. protects p r ≡ false) receipts

none_protects :
    (p : Payment) (receipts : List ConfirmationReceipt)
    → protecting_receipt_exists p receipts ≡ false
    → All (λ r. protects p r ≡ false) receipts
unfolding protecting_receipt_exists
none_protects p [] h = tt
none_protects p (r ∷ receipts) h = (ground arith, none_protects p receipts (ground arith))

pub not-IsDue :
    (receipts : List ConfirmationReceipt) (t : ℕ) (p : Payment)
    → ¬ IsDue receipts t p
    → is_due receipts t p ≡ false
unfolding is_due
not-IsDue receipts t p idle = elim (Bool-cases (is_due receipts t p)) [
  | inr other ↦ other
  | inl due ↦ absurd (
      idle (record {
        awaiting = ground arith;
        passed = ground arith;
        unprotected = none_protects p receipts (ground arith);
      }))
]
