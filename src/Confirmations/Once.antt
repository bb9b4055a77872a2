-- ===== src/Confirmations/Once.antt =====
-- A confirmation identity is completed once: later completions return the same evidence.
use payment_platform_quality.Prelude.{
  ℕ, true, false, Option, none, some, ◌≡◌, ◌∙◌, sym, refl, ap, inl, inr, String, eq_refl, arith,
}
use mathlib.Core.Path.{subst}
use payment_platform_quality.Failure.{ok, Result-cases, >>=-eq-ok, ok-injective}
use payment_platform_quality.Database.Types.{Payment}
use payment_platform_quality.Database.Rows.{ConfirmationReceipt, ConfirmationDisposition}
use payment_platform_quality.Database.Tables.{is_some, find-first, find-replace}
use payment_platform_quality.Database.Store.{
  Db, find_receipt, find_confirmation, payment_by_reference, insert_confirmation,
}
use payment_platform_quality.Database.Inversion.{insert_confirmation_inv}
use payment_platform_quality.Payments.Commands.{Fresh}
use payment_platform_quality.Confirmations.Commands.{
  ConfirmationCommand, ConfirmationOutcome, command_of,
}
use payment_platform_quality.Confirmations.Dispositions.{
  classify, apply_disposition, apply_late, apply_expiry_transition,
}
use payment_platform_quality.Confirmations.Complete.{new_confirmation, stage_completion}
use payment_platform_quality.Confirmations.Effects.{expiry_effect, capture_effect}

-- The tables of receipts and confirmations are left alone.
abbrev SameEvidence : Db → Db → Type 0
SameEvidence db db' = (db'.receipts ≡ db.receipts) × (db'.confirmations ≡ db.confirmations)

late-SameEvidence :
    (p : Payment) (t : ℕ) (fresh : Fresh) (db db' : Db)
    → apply_late p t fresh db ≡ ok db'
    → SameEvidence db db'
unfolding apply_late
late-SameEvidence p t fresh db db' h =
    elim (Result-cases (apply_expiry_transition p t fresh.event_id db)) [
      | inr (e, failed) ↦ ground arith
      | inl (d, expired) ↦
          let tr = (expiry_effect p t fresh.event_id db d expired).0 in
          ground (arith, tr.receipts, tr.confirmations)
    ]

disposition-SameEvidence :
    (payment : Option Payment) (command : ConfirmationCommand)
    (disposition : ConfirmationDisposition) (t : ℕ) (fresh : Fresh) (db db' : Db)
    → apply_disposition payment command disposition t fresh db ≡ ok db'
    → SameEvidence db db'
unfolding apply_disposition
disposition-SameEvidence none command disposition t fresh db db' h = ground arith
disposition-SameEvidence (some p) command ConfirmationDisposition.applied t fresh db db' h =
    let tr = capture_effect p command t fresh db db' h in (tr.receipts, tr.confirmations)
disposition-SameEvidence (some p) command ConfirmationDisposition.late t fresh db db' h =
    late-SameEvidence p t fresh db db' h
disposition-SameEvidence (some p) command _ t fresh db db' h = ground arith

-- What a completion leaves behind: the completed receipt and the evidence that it has answered.
pub stage_completion_evidence :
    (fingerprint : String) (r : ConfirmationReceipt) (fresh : Fresh) (db : Db)
    (o : ConfirmationOutcome) (db' : Db)
    → find_receipt r.confirmation_id db ≡ some r
    → stage_completion fingerprint r fresh db ≡ ok (o, db')
    → (find_receipt r.confirmation_id db' ≡ some (record r { completed = true }))
      × (find_confirmation r.confirmation_id db' ≡ some o.confirmation)
      × (o.confirmation.request_fingerprint ≡ fingerprint)
      × (o.replayed ≡ false)
unfolding stage_completion
stage_completion_evidence fingerprint r fresh db o db' stored h =
    let payment = payment_by_reference r.payment_reference db.payments in
    let (disposition, decided, h₁) =
      >>=-eq-ok (classify payment (command_of r) r.received_at) _ h in
    let c = new_confirmation fingerprint r payment disposition in
    let (d, inserted, h₂) = >>=-eq-ok (insert_confirmation c db) _ h₁ in
    let (d', applied, same) =
      >>=-eq-ok (apply_disposition payment (command_of r) disposition r.received_at fresh d) _ h₂ in
    let inv = insert_confirmation_inv c db d inserted in
    let (receipts, confirmations) =
      disposition-SameEvidence payment (command_of r) disposition r.received_at fresh d d'
        applied in
    let receipts' : d'.receipts ≡ db.receipts = receipts ∙ ap (λ x. x.receipts) inv.0 in
    let k = r.confirmation_id in
    let done : ConfirmationReceipt = record r { completed = true } in
    let e = ok-injective same in
    (
      subst (λ x. find_receipt k x.1 ≡ some done) e
          (rw receipts' (
            rw
              (
                find-replace (λ q. q.confirmation_id) done k db.receipts (ap is_some stored),
                eq_refl,
              )
              refl)),
      subst (λ x. find_confirmation k x.1 ≡ some x.0.confirmation) e
          (rw (confirmations ∙ ap (λ x. x.confirmations) inv.0)
            (rw (find-first (λ q. q.confirmation_id) c k db.confirmations, eq_refl) refl)),
      ap (λ x. x.0.confirmation.request_fingerprint) (sym e),
      ap (λ x. x.0.replayed) (sym e),
    )
