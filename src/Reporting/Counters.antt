-- ===== src/Reporting/Counters.antt =====
-- The counters of `confirmation_section` in services/confirmation_reporting.py.
use payment_platform_quality.Prelude.{
  ℕ, suc, ◌+◌, ◌+ℤ◌, Bool, true, false, ◌&&◌, ◌||◌, List, [], ◌∷◌, map, String, str_eq, str_leb,
  leb, if◌then◌else◌, select, sort_by,
}
use payment_platform_quality.Domain.Types.{PaymentStatus, PaymentFlow, same_status, currency_value}
use payment_platform_quality.Coordination.{same_currency}
use payment_platform_quality.Database.Types.{Payment}
use payment_platform_quality.Database.Rows.{
  ConfirmationDisposition, PaymentConfirmation, PaymentOutcomes, DispositionCounts, ObservedAnomaly,
}
use payment_platform_quality.Database.Store.{Db}

pub data PaymentOutcome : Type 0 where
  pending confirmed_on_time expired_without_on_time_confirmation cancelled_unconfirmed :
      PaymentOutcome

-- `status in {"CAPTURED", "PARTIALLY_REFUNDED", "REFUNDED"}`
abbrev pub is_confirmed : PaymentStatus → Bool
is_confirmed PaymentStatus.captured = true
is_confirmed PaymentStatus.partially_refunded = true
is_confirmed PaymentStatus.refunded = true
is_confirmed _ = false

abbrev pub any_status : (PaymentStatus → Bool) → List PaymentStatus → Bool
any_status test [] = false
any_status test (s ∷ statuses) = test s || any_status test statuses

unfoldable pub outcome_of : List PaymentStatus → PaymentOutcome
outcome_of statuses =
    if any_status is_confirmed statuses
    then PaymentOutcome.confirmed_on_time
    else if any_status (same_status PaymentStatus.cancelled) statuses
    then PaymentOutcome.cancelled_unconfirmed
    else if any_status (same_status PaymentStatus.expired) statuses
    then PaymentOutcome.expired_without_on_time_confirmation
    else PaymentOutcome.pending

-- The events of a payment through the cutoff, and the statuses that their payloads tell.
unfoldable pub statuses_until : ℕ → Db → Payment → List PaymentStatus
statuses_until cutoff db p =
    map (λ e. e.payload.payment.status)
      (sort_by (λ a b. leb a.aggregate_version b.aggregate_version)
        (select (λ e. str_eq e.payment_id p.id && leb e.created_at cutoff) db.webhook_events))

-- `outcomes[outcome] += 1`
abbrev pub add_outcome : PaymentOutcome → PaymentOutcomes → PaymentOutcomes
add_outcome PaymentOutcome.pending c = record c { pending = suc c.pending }
add_outcome PaymentOutcome.confirmed_on_time c = record c {
  confirmed_on_time = suc c.confirmed_on_time;
}
add_outcome PaymentOutcome.expired_without_on_time_confirmation c = record c {
  expired_without_on_time_confirmation = suc c.expired_without_on_time_confirmation;
}
add_outcome PaymentOutcome.cancelled_unconfirmed c = record c {
  cancelled_unconfirmed = suc c.cancelled_unconfirmed;
}

abbrev pub no_outcomes : PaymentOutcomes
no_outcomes = record {
  pending = 0;
  confirmed_on_time = 0;
  expired_without_on_time_confirmation = 0;
  cancelled_unconfirmed = 0;
}

-- The loop over the payments.
unfoldable pub count_outcomes : ℕ → Db → List Payment → PaymentOutcomes → PaymentOutcomes
count_outcomes cutoff db [] c = c
count_outcomes cutoff db (p ∷ payments) c =
    count_outcomes cutoff db payments (add_outcome (outcome_of (statuses_until cutoff db p)) c)

-- `sum(outcomes.values())`
abbrev pub sum_outcomes : PaymentOutcomes → ℕ
sum_outcomes c =
    c.pending + c.confirmed_on_time + c.expired_without_on_time_confirmation
    + c.cancelled_unconfirmed

abbrev pub is_delayed : PaymentFlow → Bool
is_delayed PaymentFlow.synchronous = false
is_delayed PaymentFlow.asynchronous_confirmation = true

abbrev pub delayed_until : ℕ → Db → List Payment
delayed_until cutoff db =
    select (λ p. is_delayed p.payment_flow && leb p.created_at cutoff) db.payments

-- `dispositions[record.disposition] += 1`
abbrev pub add_disposition : ConfirmationDisposition → DispositionCounts → DispositionCounts
add_disposition ConfirmationDisposition.applied c = record c { applied = suc c.applied }
add_disposition ConfirmationDisposition.late c = record c { late = suc c.late }
add_disposition ConfirmationDisposition.amount_mismatch c = record c {
  amount_mismatch = suc c.amount_mismatch;
}
add_disposition ConfirmationDisposition.currency_mismatch c = record c {
  currency_mismatch = suc c.currency_mismatch;
}
add_disposition ConfirmationDisposition.unknown_reference c = record c {
  unknown_reference = suc c.unknown_reference;
}
add_disposition ConfirmationDisposition.already_resolved c = record c {
  already_resolved = suc c.already_resolved;
}

abbrev pub no_dispositions : DispositionCounts
no_dispositions = record {
  applied = 0;
  late = 0;
  amount_mismatch = 0;
  currency_mismatch = 0;
  unknown_reference = 0;
  already_resolved = 0;
}

abbrev pub disposition_value : ConfirmationDisposition → String
disposition_value ConfirmationDisposition.applied = "applied"
disposition_value ConfirmationDisposition.late = "late"
disposition_value ConfirmationDisposition.amount_mismatch = "amount_mismatch"
disposition_value ConfirmationDisposition.currency_mismatch = "currency_mismatch"
disposition_value ConfirmationDisposition.unknown_reference = "unknown_reference"
disposition_value ConfirmationDisposition.already_resolved = "already_resolved"

abbrev pub is_applied : ConfirmationDisposition → Bool
is_applied ConfirmationDisposition.applied = true
is_applied _ = false

-- `anomalies[(currency, disposition)]`, with the count and the amount that are added to it
unfoldable pub add_anomaly : PaymentConfirmation → List ObservedAnomaly → List ObservedAnomaly
add_anomaly r [] =
    record {
      currency = r.currency;
      disposition = r.disposition;
      count = 1;
      observed_amount = r.amount;
    }
    ∷ []
add_anomaly r (a ∷ anomalies) =
    let rest = add_anomaly r anomalies in
    if same_currency a.currency r.currency
      && str_eq (disposition_value a.disposition) (disposition_value r.disposition)
    then record a { count = suc a.count; observed_amount = a.observed_amount +ℤ r.amount }
      ∷ anomalies
    else a ∷ rest

abbrev pub note_anomaly : PaymentConfirmation → List ObservedAnomaly → List ObservedAnomaly
note_anomaly r anomalies = if is_applied r.disposition then anomalies else add_anomaly r anomalies

-- The loop over the confirmations: both of its counters.
unfoldable pub count_confirmations :
    List PaymentConfirmation
    → DispositionCounts
    → List ObservedAnomaly
    → DispositionCounts × List ObservedAnomaly
count_confirmations [] c anomalies = (c, anomalies)
count_confirmations (r ∷ rows) c anomalies =
    count_confirmations rows (add_disposition r.disposition c) (note_anomaly r anomalies)

abbrev pub received_until : ℕ → Db → List PaymentConfirmation
received_until cutoff db = select (λ r. leb r.received_at cutoff) db.confirmations

-- `sorted(anomalies.items())`: by the currency and then the disposition
abbrev pub anomaly_order : ObservedAnomaly → ObservedAnomaly → Bool
anomaly_order a b =
    if same_currency a.currency b.currency
    then str_leb (disposition_value a.disposition) (disposition_value b.disposition)
    else str_leb (currency_value a.currency) (currency_value b.currency)
