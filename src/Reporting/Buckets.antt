-- ===== src/Reporting/Buckets.antt =====
-- What each bucket of the counters in services/confirmation_reporting.py holds, by counts over the
-- rows that do not use the counters.
use payment_platform_quality.Prelude.{
  ℕ, ◌+◌, ℤ, pos, ◌+ℤ◌, int_laws, Bool, true, false, ◌&&◌, List, [], ◌∷◌, length, select,
  if◌then◌else◌, ◌≡◌, refl, sym, inl, inr, ap, ◌∙◌, arith, Bool-cases,
}
use payment_platform_quality.Database.Types.{Payment}
use payment_platform_quality.Database.Rows.{
  ConfirmationDisposition, PaymentConfirmation, PaymentOutcomes, DispositionCounts, ObservedAnomaly,
}
use payment_platform_quality.Database.Store.{Db}
use payment_platform_quality.Reporting.Told.{told_outcome, outcome_of-statuses_until}
use payment_platform_quality.Reporting.Counters.{
  PaymentOutcome, outcome_of, statuses_until, add_outcome, count_outcomes, add_disposition,
  note_anomaly, count_confirmations, no_outcomes, no_dispositions,
}

-- How many rows pass a test.
abbrev pub count {ℓ} : {A : Type ℓ} → (A → Bool) → List A → ℕ
count test [] = 0
count test (a ∷ rows) = (if test a then 1 else 0) + count test rows

-- The sum of the amounts of the rows that pass a test.
abbrev pub total {ℓ} : {A : Type ℓ} → (A → Bool) → (A → ℤ) → List A → ℤ
total test amount [] = pos 0
total test amount (a ∷ rows) = (if test a then amount a else pos 0) +ℤ total test amount rows

pub count-select :
    {A : Type 0} (test chosen : A → Bool) (rows : List A)
    → count test (select chosen rows) ≡ count (λ a. chosen a && test a) rows
count-select test chosen [] = refl
count-select test chosen (a ∷ rows) = ground (arith, count-select test chosen rows)

pub zero_+ℤ : (x : ℤ) → pos 0 +ℤ x ≡ x
zero_+ℤ x = omega int_laws

pub total-select :
    {A : Type 0} (test chosen : A → Bool) (amount : A → ℤ) (rows : List A)
    → total test amount (select chosen rows) ≡ total (λ a. chosen a && test a) amount rows
total-select test chosen amount [] = refl
total-select test chosen amount (a ∷ rows) = elim (Bool-cases (chosen a)) [
  | inl kept ↦ rw (kept, total-select test chosen amount rows) refl
  | inr left ↦ rw left (
      total-select test chosen amount rows
      ∙ sym (zero_+ℤ (total (λ x. chosen x && test x) amount rows)))
]

pub length-select :
    {A : Type 0} (chosen : A → Bool) (rows : List A)
    → length (select chosen rows) ≡ count chosen rows
length-select chosen [] = refl
length-select chosen (a ∷ rows) = ground (arith, length-select chosen rows)

pub +ℤ_zero : (x : ℤ) → x +ℤ pos 0 ≡ x
+ℤ_zero x = omega int_laws

abbrev pub in_outcome : PaymentOutcome → PaymentOutcomes → ℕ
in_outcome PaymentOutcome.pending c = c.pending
in_outcome PaymentOutcome.confirmed_on_time c = c.confirmed_on_time
in_outcome PaymentOutcome.expired_without_on_time_confirmation c =
    c.expired_without_on_time_confirmation
in_outcome PaymentOutcome.cancelled_unconfirmed c = c.cancelled_unconfirmed

abbrev pub same_outcome : PaymentOutcome → PaymentOutcome → Bool
same_outcome PaymentOutcome.pending PaymentOutcome.pending = true
same_outcome PaymentOutcome.confirmed_on_time PaymentOutcome.confirmed_on_time = true
same_outcome PaymentOutcome.expired_without_on_time_confirmation
      PaymentOutcome.expired_without_on_time_confirmation =
    true
same_outcome PaymentOutcome.cancelled_unconfirmed PaymentOutcome.cancelled_unconfirmed = true
same_outcome _ _ = false

in_outcome-add_outcome :
    (o x : PaymentOutcome) (c : PaymentOutcomes)
    → in_outcome o (add_outcome x c) ≡ (if same_outcome x o then 1 else 0) + in_outcome o c
in_outcome-add_outcome o x c = ground arith

pub in_outcome-count_outcomes :
    (o : PaymentOutcome) (cutoff : ℕ) (db : Db) (payments : List Payment) (c : PaymentOutcomes)
    → in_outcome o (count_outcomes cutoff db payments c)
      ≡ count (λ p. same_outcome (told_outcome cutoff db.webhook_events p) o) payments
        + in_outcome o c
unfolding count_outcomes
in_outcome-count_outcomes o cutoff db [] c = omega arith
in_outcome-count_outcomes o cutoff db (p ∷ payments) c =
    let x = outcome_of (statuses_until cutoff db p) in
    omega (
      arith,
      in_outcome-count_outcomes o cutoff db payments (add_outcome x c),
      in_outcome-add_outcome o x c,
      ap {B = ℕ} (λ y. if same_outcome y o then 1 else 0) (outcome_of-statuses_until cutoff db p),
    )

pub in_outcome-no_outcomes : (o : PaymentOutcome) → in_outcome o no_outcomes ≡ 0
in_outcome-no_outcomes o = ground arith

abbrev pub in_disposition : ConfirmationDisposition → DispositionCounts → ℕ
in_disposition ConfirmationDisposition.applied c = c.applied
in_disposition ConfirmationDisposition.late c = c.late
in_disposition ConfirmationDisposition.amount_mismatch c = c.amount_mismatch
in_disposition ConfirmationDisposition.currency_mismatch c = c.currency_mismatch
in_disposition ConfirmationDisposition.unknown_reference c = c.unknown_reference
in_disposition ConfirmationDisposition.already_resolved c = c.already_resolved

abbrev pub same_disposition : ConfirmationDisposition → ConfirmationDisposition → Bool
same_disposition ConfirmationDisposition.applied ConfirmationDisposition.applied = true
same_disposition ConfirmationDisposition.late ConfirmationDisposition.late = true
same_disposition ConfirmationDisposition.amount_mismatch ConfirmationDisposition.amount_mismatch =
    true
same_disposition ConfirmationDisposition.currency_mismatch
      ConfirmationDisposition.currency_mismatch =
    true
same_disposition ConfirmationDisposition.unknown_reference
      ConfirmationDisposition.unknown_reference =
    true
same_disposition ConfirmationDisposition.already_resolved ConfirmationDisposition.already_resolved =
    true
same_disposition _ _ = false

in_disposition-add_disposition :
    (d x : ConfirmationDisposition) (c : DispositionCounts)
    → in_disposition d (add_disposition x c)
      ≡ (if same_disposition x d then 1 else 0) + in_disposition d c
in_disposition-add_disposition d x c = ground arith

pub in_disposition-count_confirmations :
    (d : ConfirmationDisposition) (rows : List PaymentConfirmation) (c : DispositionCounts)
    (anomalies : List ObservedAnomaly)
    → in_disposition d (count_confirmations rows c anomalies).0
      ≡ count (λ r. same_disposition r.disposition d) rows + in_disposition d c
unfolding count_confirmations
in_disposition-count_confirmations d [] c anomalies = omega arith
in_disposition-count_confirmations d (r ∷ rows) c anomalies = omega (
  arith,
  in_disposition-count_confirmations d rows (add_disposition r.disposition c)
      (note_anomaly r anomalies),
  in_disposition-add_disposition d r.disposition c,
)

pub in_disposition-no_dispositions :
    (d : ConfirmationDisposition) → in_disposition d no_dispositions ≡ 0
in_disposition-no_dispositions d = ground arith
