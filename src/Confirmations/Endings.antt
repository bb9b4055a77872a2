-- ===== src/Confirmations/Endings.antt =====
-- The two ways in which the completion of a confirmation ends.
use payment_platform_quality.Prelude.{
  true, Option, none, some, ◌≡◌, ◌≢◌, ◌⊎◌, inl, inr, refl, String, arith, eq_iff,
}
use payment_platform_quality.Failure.{Failure, Result, ok, err, Result-cases}
use payment_platform_quality.Database.Rows.{ConfirmationReceipt, PaymentConfirmation}
use payment_platform_quality.Database.Store.{Db, find_receipt, find_confirmation}
use payment_platform_quality.Coordination.{Writer, begin_coordinated_write}
use payment_platform_quality.Payments.Commands.{Dictionary, Fresh}
use payment_platform_quality.Confirmations.Commands.{
  ConfirmationOutcome, confirmation_payload, command_of,
}
use payment_platform_quality.Confirmations.Complete.{
  existing_outcome, stage_completion, conclude_completion, complete_unless_done, complete_receipt,
  complete_confirmation,
}

-- A completion has written nothing, or it has committed the staged work on a receipt that had no
-- outcome before, and answers with it.
abbrev pub Completed :
    (Dictionary → String) → String → Fresh → Db → Result ConfirmationOutcome × Db → Type 0
Completed digest k fresh db x =
    (r : ConfirmationReceipt) × (o : ConfirmationOutcome) × (find_receipt k db ≡ some r)
    × (find_confirmation r.confirmation_id db ≡ none)
    × (stage_completion (digest (confirmation_payload (command_of r))) r fresh db ≡ ok (o, x.1))
    × (x.0 ≡ ok o)

-- A completion that writes nothing raises, or replays the evidence that is there.
abbrev pub Replayed : (Dictionary → String) → String → Db → Result ConfirmationOutcome × Db → Type 0
Replayed digest k db x =
    (x.1 ≡ db)
    × ((o : ConfirmationOutcome)
        → x.0 ≡ ok o
        → (r : ConfirmationReceipt) × (find_receipt k db ≡ some r)
          × (find_confirmation r.confirmation_id db ≡ some o.confirmation)
          × (o.confirmation.request_fingerprint ≡ digest (confirmation_payload (command_of r)))
          × (o.replayed ≡ true))

conclude-cases :
    (fingerprint : String) (r : ConfirmationReceipt) (fresh : Fresh) (db : Db)
    → find_confirmation r.confirmation_id db ≡ none
    → let x = conclude_completion fingerprint r db (stage_completion fingerprint r fresh db) in
      ((x.1 ≡ db) × ((o : ConfirmationOutcome) → x.0 ≢ ok o))
      ⊎ ((o : ConfirmationOutcome) × (stage_completion fingerprint r fresh db ≡ ok (o, x.1))
          × (x.0 ≡ ok o))
conclude-cases fingerprint r fresh db new =
    elim (Result-cases (stage_completion fingerprint r fresh db)) [
      | inl ((o, d), staged) ↦ inr (rw staged (unfold conclude_completion in (o, refl, refl)))
      | inr (e, failed) ↦ inl (rw failed (rolled_back e))
    ]
  where
    rolled_back :
        (e : Failure)
        → let x = conclude_completion fingerprint r db (err e) in
          (x.1 ≡ db) × ((o : ConfirmationOutcome) → x.0 ≢ ok o)
    rolled_back e = (
      unfold conclude_completion in ground arith,
      λ o. unfold conclude_completion existing_outcome in ground (arith, new),
    )

module _ (digest : Dictionary → String) (k : String) (fresh : Fresh) (db : Db) where
  looked-cases :
      (r : ConfirmationReceipt) (m : Option PaymentConfirmation)
      → find_receipt k db ≡ some r
      → find_confirmation r.confirmation_id db ≡ m
      → let fingerprint = digest (confirmation_payload (command_of r)) in
        let x = complete_unless_done (existing_outcome m fingerprint) fingerprint r fresh db in
        Replayed digest k db x ⊎ Completed digest k fresh db x
  unfolding complete_unless_done existing_outcome
  looked-cases r none found new =
      elim (conclude-cases (digest (confirmation_payload (command_of r))) r fresh db new) [
        | inl (same, raised) ↦ inl (same, λ o e. absurd (raised o e))
        | inr (o, staged, answer) ↦ inr (r, o, found, new, staged, answer)
      ]
  looked-cases r (some c) found old =
      let fingerprint = digest (confirmation_payload (command_of r)) in
      inl (
        ground arith,
        λ o e. (
          r,
          found,
          ground (arith, old),
          ground (arith, eq_iff c.request_fingerprint fingerprint),
          ground arith,
        ),
      )

  receipt-cases :
      (m : Option ConfirmationReceipt)
      → find_receipt k db ≡ m
      → let x = complete_receipt digest m k fresh db in
        Replayed digest k db x ⊎ Completed digest k fresh db x
  unfolding complete_receipt
  receipt-cases none found = inl (refl, λ o e. absurd (ground arith))
  receipt-cases (some r) found = looked-cases r (find_confirmation r.confirmation_id db) found refl

  pub completion-cases :
      (writer : Writer)
      → let x = complete_confirmation digest writer k fresh db in
        Replayed digest k db x ⊎ Completed digest k fresh db x
  unfolding complete_confirmation
  completion-cases writer = go (begin_coordinated_write writer)
    where
      go :
          (b : Result (Unit {0}))
          → let x : Result ConfirmationOutcome × Db = elim b [
            | err e ↦ (err e, db)
            | ok _ ↦ complete_receipt digest (find_receipt k db) k fresh db
          ] in
            Replayed digest k db x ⊎ Completed digest k fresh db x
      go (err e) = inl (refl, λ o e'. absurd (ground arith))
      go (ok _) = receipt-cases (find_receipt k db) refl
