-- ===== src/Confirmations/Classify.antt =====
-- What `_classify` answers, and how it fits the SQL predicate of the protecting receipts.
use payment_platform_quality.Prelude.{
  ℕ, ◌<◌, true, false, some, ◌≡◌, ◌↔◌, arith, eq_iff, eq_refl, eq_of_parts,
}
use payment_platform_quality.Domain.Types.{PaymentStatus}
use payment_platform_quality.Failure.{ok}
use payment_platform_quality.Database.Types.{Payment}
use payment_platform_quality.Database.Rows.{ConfirmationReceipt, ConfirmationDisposition}
use payment_platform_quality.Coordination.{protects}
use payment_platform_quality.Confirmations.Commands.{ConfirmationCommand, command_of}
use payment_platform_quality.Confirmations.Dispositions.{classify}

-- What an applied confirmation needs.
pub record Matches (p : Payment) (c : ConfirmationCommand) (received_at : ℕ) : Type 0 where
  pub awaiting : p.status ≡ PaymentStatus.awaiting_payment
  pub in_time : (e : ℕ) × (p.expires_at ≡ some e) × (received_at < e)
  pub amount : c.amount ≡ p.amount
  pub currency : c.currency ≡ p.currency

-- A confirmation is applied exactly when its payment awaits one, the receipt is before the
-- expiry, and amount and currency are those requested.
pub classify-applied :
    (p : Payment) (c : ConfirmationCommand) (t : ℕ)
    → (classify (some p) c t ≡ ok ConfirmationDisposition.applied) ↔ Matches p c t
unfolding classify
classify-applied p c t = (
  λ h. record {
    awaiting = ground arith;
    in_time = ground arith;
    amount = ground (arith, eq_of_parts c.amount p.amount);
    currency = ground arith;
  },
  λ m. ground (arith, m.in_time, m.awaiting, m.amount, m.currency),
)

-- For an awaiting payment and a pending receipt that names it, the SQL predicate that protects
-- the payment from expiry and cancellation holds exactly when the receipt will be applied.
pub protects-applied :
    (p : Payment) (r : ConfirmationReceipt)
    → p.status ≡ PaymentStatus.awaiting_payment
    → p.payment_reference ≡ some r.payment_reference
    → r.completed ≡ false
    → (protects p r ≡ true)
      ↔ (classify (some p) (command_of r) r.received_at ≡ ok ConfirmationDisposition.applied)
unfolding classify protects
protects-applied p r awaiting named pending = (
  λ h. ground (arith, eq_iff r.payment_reference r.payment_reference),
  λ h. ground (arith, eq_iff r.payment_reference r.payment_reference, eq_refl r.payment_reference),
)
