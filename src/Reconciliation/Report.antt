-- ===== src/Reconciliation/Report.antt =====
-- `reconcile_settlement_batch` of services/reconciliation.py: the items of a batch and their summary.
use payment_platform_quality.Prelude.{
  ℕ, ℤ, pos, ◌+ℤ◌, ◌-ℤ◌, Bool, true, false, not, ◌&&◌, List, [], ◌∷◌, String, str_leb, leb, ◌==◌,
  if◌then◌else◌, length, select, all_true, count_true, sort_by,
}
use payment_platform_quality.Domain.Types.{Currency}
use payment_platform_quality.Coordination.{same_currency}
use payment_platform_quality.Failure.{Result, ok, settlement_batch_not_found, ◌>>=◌, or_raise}
use payment_platform_quality.Database.Types.{Payment}
use payment_platform_quality.Database.Rows.{SettlementRow}
use payment_platform_quality.Database.Store.{Db}
use payment_platform_quality.Reconciliation.Totals.{SettlementClassification}
use payment_platform_quality.Reconciliation.Sources.{
  ReconciliationItem, SourceCheckStatus, reconcile_payment,
}
use payment_platform_quality.Reconciliation.Batches.{find_batch, get_settlement_records}

pub data ReconciliationStatus : Type 0 where
  matched mismatched : ReconciliationStatus

abbrev pub class_index : SettlementClassification → ℕ
class_index SettlementClassification.matched = 0
class_index SettlementClassification.missing = 1
class_index SettlementClassification.duplicated = 2
class_index SettlementClassification.amount_mismatched = 3

abbrev pub is_class : SettlementClassification → ReconciliationItem → Bool
is_class c i = class_index i.settlement_classification == class_index c

abbrev pub is_matched : SourceCheckStatus → Bool
is_matched SourceCheckStatus.matched = true
is_matched SourceCheckStatus.missing = false
is_matched SourceCheckStatus.stale = false
is_matched SourceCheckStatus.mismatched = false

pub record CurrencyTotal : Type 0 where
  pub currency : Currency
  pub expected_settlement_total : ℤ
  pub observed_settlement_total : ℤ

abbrev pub net_discrepancy : CurrencyTotal → ℤ
net_discrepancy t = t.observed_settlement_total -ℤ t.expected_settlement_total

-- `totals_by_currency.setdefault(currency, [0, 0])`, and what is added to the two numbers
unfoldable pub add_total : Currency → ℤ → ℤ → List CurrencyTotal → List CurrencyTotal
add_total currency expected observed [] =
    record {
      currency = currency;
      expected_settlement_total = expected;
      observed_settlement_total = observed;
    }
    ∷ []
add_total currency expected observed (t ∷ totals) =
    let rest = add_total currency expected observed totals in
    if same_currency t.currency currency
    then record t {
      expected_settlement_total = t.expected_settlement_total +ℤ expected;
      observed_settlement_total = t.observed_settlement_total +ℤ observed;
    }
      ∷ totals
    else t ∷ rest

abbrev pub add_observed : List Currency → List ℤ → List CurrencyTotal → List CurrencyTotal
add_observed (c ∷ currencies) (x ∷ amounts) totals = add_total c (pos 0) x totals
add_observed _ _ totals = totals

abbrev pub add_item : ReconciliationItem → List CurrencyTotal → List CurrencyTotal
add_item i totals =
    add_observed i.observed_settlement_currencies i.observed_settlement_amounts
      (add_total i.currency i.expected_settlement_amount (pos 0) totals)

unfoldable pub totals_by_currency :
    List ReconciliationItem → List CurrencyTotal → List CurrencyTotal
totals_by_currency [] totals = totals
totals_by_currency (i ∷ items) totals = totals_by_currency items (add_item i totals)

abbrev pub currency_value : Currency → String
currency_value Currency.usd = "USD"
currency_value Currency.jpy = "JPY"

pub record ReconciliationSummary : Type 0 where
  pub status : ReconciliationStatus
  pub payment_count : ℕ
  pub currency_totals : List CurrencyTotal
  pub matched_count : ℕ
  pub missing_count : ℕ
  pub duplicated_count : ℕ
  pub amount_mismatched_count : ℕ
  pub ledger_mismatch_count : ℕ
  pub projection_mismatch_count : ℕ

abbrev pub ledger_mismatch : ReconciliationItem → Bool
ledger_mismatch i = not (is_matched i.item_ledger_status)

abbrev pub projection_mismatch : ReconciliationItem → Bool
projection_mismatch i = not (is_matched i.item_projection_status)

unfoldable pub summarize : List ReconciliationItem → ReconciliationSummary
summarize items =
    let ledger_mismatch_count = count_true ledger_mismatch items in
    let projection_mismatch_count = count_true projection_mismatch items in
    record {
      status =
          if all_true (is_class SettlementClassification.matched) items
            && (ledger_mismatch_count == 0)
            && (projection_mismatch_count == 0)
          then ReconciliationStatus.matched
          else ReconciliationStatus.mismatched;
      payment_count = length items;
      currency_totals =
          sort_by (λ a b. str_leb (currency_value a.currency) (currency_value b.currency))
            (totals_by_currency items []);
      matched_count = count_true (is_class SettlementClassification.matched) items;
      missing_count = count_true (is_class SettlementClassification.missing) items;
      duplicated_count = count_true (is_class SettlementClassification.duplicated) items;
      amount_mismatched_count =
          count_true (is_class SettlementClassification.amount_mismatched) items;
      ledger_mismatch_count = ledger_mismatch_count;
      projection_mismatch_count = projection_mismatch_count;
    }

pub record ReconciliationReport : Type 0 where
  pub batch_id : String
  pub cutoff : ℕ
  pub items : List ReconciliationItem
  pub summary : ReconciliationSummary

-- The loop over the payments.
unfoldable pub reconcile_payments :
    Db → ℕ → List SettlementRow → List Payment → Result (List ReconciliationItem)
reconcile_payments db cutoff all_settlements [] = ok []
reconcile_payments db cutoff all_settlements (p ∷ payments) = do
  item ← reconcile_payment db cutoff all_settlements p
  items ← reconcile_payments db cutoff all_settlements payments
  ok (item ∷ items)

abbrev pub payments_until : ℕ → Db → List Payment
payments_until cutoff db =
    sort_by (λ a b. str_leb a.id b.id) (select (λ p. leb p.created_at cutoff) db.payments)

-- It reads the tables and writes none.
unfoldable pub reconcile_settlement_batch : String → Db → Result ReconciliationReport
reconcile_settlement_batch batch_id db = do
  batch ← or_raise (find_batch batch_id db) (settlement_batch_not_found batch_id)
  all_settlements ← get_settlement_records batch_id db
  items ← reconcile_payments db batch.cutoff all_settlements (payments_until batch.cutoff db)
  ok (record {
    batch_id = batch.id;
    cutoff = batch.cutoff;
    items = items;
    summary = summarize items;
  })
