-- ===== src/Reporting/Accounted.antt =====
-- What a confirmation section of services/confirmation_reporting.py says of the rows through its
-- cutoff.
use payment_platform_quality.Prelude.{
  ℕ, ◌&&◌, leb, suc, ◌+◌, Bool, List, [], ◌∷◌, if◌then◌else◌, length, sort_by, insert_sorted, ◌≡◌,
  refl, ◌∙◌, arith,
}
use payment_platform_quality.Domain.Types.{Currency}
use payment_platform_quality.Database.Types.{Payment}
use payment_platform_quality.Database.Rows.{
  ConfirmationDisposition, PaymentConfirmation, PaymentOutcomes, DispositionCounts, ObservedAnomaly,
  Evidence,
}
use payment_platform_quality.Database.Store.{Db}
use payment_platform_quality.Reporting.Counters.{
  PaymentOutcome, outcome_of, statuses_until, add_outcome, count_outcomes, no_outcomes,
  sum_outcomes, delayed_until, add_disposition, add_anomaly, note_anomaly, count_confirmations,
  no_dispositions, received_until, is_delayed, is_applied, anomaly_order,
}
use payment_platform_quality.Reporting.Told.{told_outcome}
use payment_platform_quality.Reporting.Buckets.{
  count, total, count-select, total-select, length-select, in_outcome, same_outcome,
  in_outcome-count_outcomes, in_outcome-no_outcomes, in_disposition, same_disposition,
  in_disposition-count_confirmations, in_disposition-no_dispositions, +ℤ_zero,
}
use payment_platform_quality.Reporting.Anomalies.{
  observed, observed_total, is_observed, observed-count_confirmations, observed-sort_by,
}
use payment_platform_quality.Reporting.Section.{gather_evidence}

sum_outcomes-add_outcome :
    (o : PaymentOutcome) (c : PaymentOutcomes)
    → sum_outcomes (add_outcome o c) ≡ suc (sum_outcomes c)
sum_outcomes-add_outcome o c = ground arith

count_outcomes_sum :
    (cutoff : ℕ) (db : Db) (payments : List Payment) (c : PaymentOutcomes)
    → sum_outcomes (count_outcomes cutoff db payments c) ≡ sum_outcomes c + length payments
unfolding count_outcomes
count_outcomes_sum cutoff db [] c = omega arith
count_outcomes_sum cutoff db (p ∷ payments) c =
    let o = outcome_of (statuses_until cutoff db p) in
    omega
      (arith, count_outcomes_sum cutoff db payments (add_outcome o c), sum_outcomes-add_outcome o c)

-- All the confirmations that the counters count.
abbrev pub sum_dispositions : DispositionCounts → ℕ
sum_dispositions c =
    c.applied + c.late + c.amount_mismatch + c.currency_mismatch + c.unknown_reference
    + c.already_resolved

abbrev pub sum_anomalies : List ObservedAnomaly → ℕ
sum_anomalies [] = 0
sum_anomalies (a ∷ anomalies) = a.count + sum_anomalies anomalies

sum_dispositions-add_disposition :
    (d : ConfirmationDisposition) (c : DispositionCounts)
    → (sum_dispositions (add_disposition d c) ≡ suc (sum_dispositions c))
      × ((add_disposition d c).applied ≡ (if is_applied d then suc c.applied else c.applied))
sum_dispositions-add_disposition d c = (ground arith, ground arith)

sum_anomalies-add_anomaly :
    (r : PaymentConfirmation) (anomalies : List ObservedAnomaly)
    → sum_anomalies (add_anomaly r anomalies) ≡ suc (sum_anomalies anomalies)
unfolding add_anomaly
sum_anomalies-add_anomaly r [] = refl
sum_anomalies-add_anomaly r (a ∷ anomalies) = ground (arith, sum_anomalies-add_anomaly r anomalies)

sum_anomalies-note_anomaly :
    (r : PaymentConfirmation) (anomalies : List ObservedAnomaly)
    → sum_anomalies (note_anomaly r anomalies)
      ≡ (if is_applied r.disposition then 0 else 1) + sum_anomalies anomalies
sum_anomalies-note_anomaly r anomalies = ground (arith, sum_anomalies-add_anomaly r anomalies)

count_confirmations_sum :
    (rows : List PaymentConfirmation) (c : DispositionCounts) (anomalies : List ObservedAnomaly)
    → (sum_dispositions (count_confirmations rows c anomalies).0 ≡ sum_dispositions c + length rows)
      × (sum_anomalies (count_confirmations rows c anomalies).1
            + (count_confirmations rows c anomalies).0.applied
          ≡ sum_anomalies anomalies + c.applied + length rows)
unfolding count_confirmations
count_confirmations_sum [] c anomalies = (omega arith, omega arith)
count_confirmations_sum (r ∷ rows) c anomalies =
    let rest =
      count_confirmations_sum rows (add_disposition r.disposition c) (note_anomaly r anomalies) in
    let step = sum_dispositions-add_disposition r.disposition c in
    let noted = sum_anomalies-note_anomaly r anomalies in
    (omega (arith, rest, step), ground (arith, rest, step, noted))

sum_anomalies-insert_sorted :
    (before : ObservedAnomaly → ObservedAnomaly → Bool) (a : ObservedAnomaly)
    (anomalies : List ObservedAnomaly)
    → sum_anomalies (insert_sorted before a anomalies) ≡ a.count + sum_anomalies anomalies
sum_anomalies-insert_sorted before a [] = refl
sum_anomalies-insert_sorted before a (b ∷ anomalies) =
    ground (arith, sum_anomalies-insert_sorted before a anomalies)

sum_anomalies-sort_by :
    (before : ObservedAnomaly → ObservedAnomaly → Bool) (anomalies : List ObservedAnomaly)
    → sum_anomalies (sort_by before anomalies) ≡ sum_anomalies anomalies
unfolding sort_by
sum_anomalies-sort_by before [] = refl
sum_anomalies-sort_by before (a ∷ anomalies) = omega (
  arith,
  sum_anomalies-insert_sorted before a (sort_by before anomalies),
  sum_anomalies-sort_by before anomalies,
)

-- What a report says of the rows through its cutoff. The counters add up, each outcome counts the
-- delayed payments that have it by their events, each disposition its confirmations, and the
-- anomalies of one currency and one disposition have the number and the sum of the amounts of the
-- confirmations of that kind that were not applied.
pub record Accounted (r : Evidence) (db : Db) : Type 0 where
  pub payments :
      r.payment_count
      ≡ count (λ p. is_delayed p.payment_flow && leb p.created_at r.cutoff) db.payments
  pub each_outcome :
      (o : PaymentOutcome)
      → in_outcome o r.payment_outcomes
        ≡ count
            (λ p.
              (is_delayed p.payment_flow && leb p.created_at r.cutoff)
              && same_outcome (told_outcome r.cutoff db.webhook_events p) o)
            db.payments
  pub outcomes : sum_outcomes r.payment_outcomes ≡ r.payment_count
  pub each_disposition :
      (d : ConfirmationDisposition)
      → in_disposition d r.dispositions
        ≡ count
            (λ q. leb q.received_at r.cutoff && same_disposition q.disposition d)
            db.confirmations
  pub each_anomaly :
      (c : Currency) (d : ConfirmationDisposition)
      → (observed c d r.observed_anomalies
          ≡ count (λ q. leb q.received_at r.cutoff && is_observed c d q) db.confirmations)
        × (observed_total c d r.observed_anomalies
            ≡ total
                (λ q. leb q.received_at r.cutoff && is_observed c d q)
                (λ q. q.amount)
                db.confirmations)
  pub anomalies :
      sum_anomalies r.observed_anomalies + r.dispositions.applied
      ≡ count (λ q. leb q.received_at r.cutoff) db.confirmations

pub gather_evidence-Accounted :
    (cutoff generated : ℕ) (db : Db) → Accounted (gather_evidence cutoff generated db) db
unfolding gather_evidence
gather_evidence-Accounted cutoff generated db =
    let rows = received_until cutoff db in
    let received = (λ (q : PaymentConfirmation). leb q.received_at cutoff) in
    let delayed = (λ (p : Payment). is_delayed p.payment_flow && leb p.created_at cutoff) in
    let found = (count_confirmations rows no_dispositions []).1 in
    record {
      payments = omega (
        arith,
        count_outcomes_sum cutoff db (delayed_until cutoff db) no_outcomes,
        length-select delayed db.payments,
      );
      each_outcome = λ o. omega (
        arith,
        in_outcome-count_outcomes o cutoff db (delayed_until cutoff db) no_outcomes,
        in_outcome-no_outcomes o,
        count-select (λ p. same_outcome (told_outcome cutoff db.webhook_events p) o) delayed
            db.payments,
      );
      outcomes = refl;
      each_disposition = λ d. omega (
        arith,
        in_disposition-count_confirmations d rows no_dispositions [],
        in_disposition-no_dispositions d,
        count-select (λ q. same_disposition q.disposition d) received db.confirmations,
      );
      each_anomaly = λ c d.
          let counted = observed-count_confirmations c d rows no_dispositions [] in
          let sorted = observed-sort_by c d anomaly_order found in
          (
            omega (
              arith,
              sorted.0,
              counted.0,
              count-select (is_observed c d) received db.confirmations,
            ),
            sorted.1
                ∙ counted.1
                ∙ +ℤ_zero (total (is_observed c d) (λ q. q.amount) rows)
                ∙ total-select (is_observed c d) received (λ q. q.amount) db.confirmations,
          );
      anomalies = omega (
        arith,
        count_confirmations_sum rows no_dispositions [],
        sum_anomalies-sort_by anomaly_order found,
        length-select received db.confirmations,
      );
    }
