-- ===== src/Reporting/Anomalies.antt =====
-- The anomalies of services/confirmation_reporting.py: what they hold of each currency and
-- disposition.
use payment_platform_quality.Prelude.{
  ℕ, ◌+◌, ℤ, pos, ◌+ℤ◌, int_laws, Bool, true, not, ◌&&◌, List, [], ◌∷◌, if◌then◌else◌, sort_by,
  insert_sorted, ◌≡◌, refl, sym, inl, inr, ◌∙◌, arith, Bool-cases, str_eq,
}
use payment_platform_quality.Domain.Types.{Currency}
use payment_platform_quality.Coordination.{same_currency}
use payment_platform_quality.Database.Rows.{
  ConfirmationDisposition, PaymentConfirmation, DispositionCounts, ObservedAnomaly,
}
use payment_platform_quality.Reporting.Counters.{
  add_disposition, disposition_value, add_anomaly, note_anomaly, count_confirmations, is_applied,
}
use payment_platform_quality.Reporting.Buckets.{count, total, zero_+ℤ, same_disposition}

shuffle : (a b c : ℤ) → a +ℤ (b +ℤ c) ≡ b +ℤ a +ℤ c
shuffle a b c = omega int_laws

swap : (a b c : ℤ) → a +ℤ (b +ℤ c) ≡ b +ℤ (a +ℤ c)
swap a b c = omega int_laws

-- The confirmations and the anomalies of one currency and one disposition.
abbrev pub is_kind : Currency → ConfirmationDisposition → Currency → ConfirmationDisposition → Bool
is_kind c d currency disposition = same_currency currency c && same_disposition disposition d

abbrev pub observed : Currency → ConfirmationDisposition → List ObservedAnomaly → ℕ
observed c d [] = 0
observed c d (a ∷ anomalies) =
    (if is_kind c d a.currency a.disposition then a.count else 0) + observed c d anomalies

abbrev pub observed_total : Currency → ConfirmationDisposition → List ObservedAnomaly → ℤ
observed_total c d anomalies =
    total (λ a. is_kind c d a.currency a.disposition) (λ a. a.observed_amount) anomalies

-- The test of the anomalies tells the kinds apart.
same_value :
    (u v : ConfirmationDisposition)
    → str_eq (disposition_value u) (disposition_value v) ≡ true
    → u ≡ v
same_value ConfirmationDisposition.applied ConfirmationDisposition.applied h = refl
same_value ConfirmationDisposition.late ConfirmationDisposition.late h = refl
same_value ConfirmationDisposition.amount_mismatch ConfirmationDisposition.amount_mismatch h = refl
same_value ConfirmationDisposition.currency_mismatch ConfirmationDisposition.currency_mismatch h =
    refl
same_value ConfirmationDisposition.unknown_reference ConfirmationDisposition.unknown_reference h =
    refl
same_value ConfirmationDisposition.already_resolved ConfirmationDisposition.already_resolved h =
    refl
same_value _ _ h = cc

kind_test :
    (x y : Currency) (u v : ConfirmationDisposition) (c : Currency) (d : ConfirmationDisposition)
    → (same_currency x y && str_eq (disposition_value u) (disposition_value v)) ≡ true
    → is_kind c d x u ≡ is_kind c d y v
kind_test x y u v c d h =
    let parts : (same_currency x y ≡ true)
        × (str_eq (disposition_value u) (disposition_value v) ≡ true) =
      ground (arith, h) in
    let currency : x ≡ y = ground (arith, parts.0) in rw (currency, same_value u v parts.1) refl

observed-add_anomaly :
    (c : Currency) (d : ConfirmationDisposition) (r : PaymentConfirmation)
    (anomalies : List ObservedAnomaly)
    → observed c d (add_anomaly r anomalies)
      ≡ (if is_kind c d r.currency r.disposition then 1 else 0) + observed c d anomalies
unfolding add_anomaly
observed-add_anomaly c d r [] = refl
observed-add_anomaly c d r (a ∷ anomalies) =
    let test =
      same_currency a.currency r.currency
      && str_eq (disposition_value a.disposition) (disposition_value r.disposition) in
    elim (Bool-cases test) [
      | inl same ↦
          let kind = kind_test a.currency r.currency a.disposition r.disposition c d same in
          elim (Bool-cases (is_kind c d r.currency r.disposition)) [
            | inl in_kind ↦ rw (same, kind, in_kind) (omega arith)
            | inr other ↦ rw (same, kind, other) (omega arith)
          ]
      | inr differ ↦ rw differ (omega (arith, observed-add_anomaly c d r anomalies))
    ]

amount_of_kind :
    (c : Currency) (d : ConfirmationDisposition) (r : PaymentConfirmation)
    (anomalies : List ObservedAnomaly)
    → observed_total c d (add_anomaly r anomalies)
      ≡ (if is_kind c d r.currency r.disposition then r.amount else pos 0)
        +ℤ observed_total c d anomalies
unfolding add_anomaly
amount_of_kind c d r [] = refl
amount_of_kind c d r (a ∷ anomalies) =
    let test =
      same_currency a.currency r.currency
      && str_eq (disposition_value a.disposition) (disposition_value r.disposition) in
    elim (Bool-cases test) [
      | inl same ↦
          let kind = kind_test a.currency r.currency a.disposition r.disposition c d same in
          elim (Bool-cases (is_kind c d r.currency r.disposition)) [
            | inl in_kind ↦ rw (same, kind, in_kind) (omega int_laws)
            | inr other ↦ rw (same, kind, other) (omega int_laws)
          ]
      | inr differ ↦ rw (differ, amount_of_kind c d r anomalies) (omega int_laws)
    ]

-- A confirmation that was not applied, of one currency and one disposition.
abbrev pub is_observed : Currency → ConfirmationDisposition → PaymentConfirmation → Bool
is_observed c d r = not (is_applied r.disposition) && is_kind c d r.currency r.disposition

observed-note_anomaly :
    (c : Currency) (d : ConfirmationDisposition) (r : PaymentConfirmation)
    (anomalies : List ObservedAnomaly)
    → (observed c d (note_anomaly r anomalies)
        ≡ (if is_observed c d r then 1 else 0) + observed c d anomalies)
      × (observed_total c d (note_anomaly r anomalies)
          ≡ (if is_observed c d r then r.amount else pos 0) +ℤ observed_total c d anomalies)
observed-note_anomaly c d r anomalies = elim (Bool-cases (is_applied r.disposition)) [
  | inl paid ↦ rw paid (omega arith, sym (zero_+ℤ (observed_total c d anomalies)))
  | inr other ↦ rw other (observed-add_anomaly c d r anomalies, amount_of_kind c d r anomalies)
]

pub observed-count_confirmations :
    (c : Currency) (d : ConfirmationDisposition) (rows : List PaymentConfirmation)
    (counts : DispositionCounts) (anomalies : List ObservedAnomaly)
    → (observed c d (count_confirmations rows counts anomalies).1
        ≡ count (is_observed c d) rows + observed c d anomalies)
      × (observed_total c d (count_confirmations rows counts anomalies).1
          ≡ total (is_observed c d) (λ r. r.amount) rows +ℤ observed_total c d anomalies)
unfolding count_confirmations
observed-count_confirmations c d [] counts anomalies =
    (omega arith, sym (zero_+ℤ (observed_total c d anomalies)))
observed-count_confirmations c d (r ∷ rows) counts anomalies =
    let rest =
      observed-count_confirmations c d rows (add_disposition r.disposition counts)
        (note_anomaly r anomalies) in
    let step = observed-note_anomaly c d r anomalies in
    let amount = if is_observed c d r then r.amount else pos 0 in
    (
      omega (arith, rest, step),
      rest.1
          ∙ rw (step.1) (
              shuffle (total (is_observed c d) (λ x. x.amount) rows) amount
                (observed_total c d anomalies)),
    )

-- Sorting keeps the kinds.
observed-insert_sorted :
    (c : Currency) (d : ConfirmationDisposition) (before : ObservedAnomaly → ObservedAnomaly → Bool)
    (a : ObservedAnomaly) (anomalies : List ObservedAnomaly)
    → (observed c d (insert_sorted before a anomalies) ≡ observed c d (a ∷ anomalies))
      × (observed_total c d (insert_sorted before a anomalies) ≡ observed_total c d (a ∷ anomalies))
observed-insert_sorted c d before a [] = (refl, refl)
observed-insert_sorted c d before a (b ∷ anomalies) =
    let rest = observed-insert_sorted c d before a anomalies in
    let amount = (λ (x : ObservedAnomaly).
      if is_kind c d x.currency x.disposition then x.observed_amount else pos 0) in
    elim (Bool-cases (before a b)) [
      | inl first ↦ rw first (refl, refl)
      | inr later ↦ rw later (
        omega (arith, rest.0),
        rw (rest.1) (swap (amount b) (amount a) (observed_total c d anomalies)),
      )
    ]

pub observed-sort_by :
    (c : Currency) (d : ConfirmationDisposition) (before : ObservedAnomaly → ObservedAnomaly → Bool)
    (anomalies : List ObservedAnomaly)
    → (observed c d (sort_by before anomalies) ≡ observed c d anomalies)
      × (observed_total c d (sort_by before anomalies) ≡ observed_total c d anomalies)
unfolding sort_by
observed-sort_by c d before [] = (refl, refl)
observed-sort_by c d before (a ∷ anomalies) =
    let placed = observed-insert_sorted c d before a (sort_by before anomalies) in
    let rest = observed-sort_by c d before anomalies in
    (omega (arith, placed.0, rest.0), placed.1 ∙ rw (rest.1) refl)
