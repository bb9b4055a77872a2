-- ===== src/Reconciliation/Sources.antt =====
-- The checks of one payment in `reconcile_settlement_batch` of services/reconciliation.py.
use payment_platform_quality.Prelude.{
  ℕ, ℤ, Bool, not, ◌&&◌, ◌||◌, Option, none, some, List, [], ◌∷◌, String, str_eq, str_leb, eqb_ℤ,
  ltb, ◌==◌, if◌then◌else◌, length, select, sort_by,
}
use payment_platform_quality.Domain.Types.{Currency, same_status}
use payment_platform_quality.Coordination.{same_currency}
use payment_platform_quality.Failure.{Result, ok, runtime_error, ◌>>=◌, or_raise}
use payment_platform_quality.Database.Types.{Payment, LedgerEntry, WebhookEvent}
use payment_platform_quality.Database.Rows.{MerchantProjection, SettlementRow}
use payment_platform_quality.Database.Tables.{is_some}
use payment_platform_quality.Database.Store.{Db}
use payment_platform_quality.Webhooks.Columns.{same_option}
use payment_platform_quality.Webhooks.Consumer.{same_reason, find_processed, find_projection}
use payment_platform_quality.Reconciliation.Totals.{
  LedgerTotals, calculate_ledger_totals, SettlementClassification, classify_settlement,
  expected_settlement,
}

pub data SourceCheckStatus : Type 0 where
  matched missing stale mismatched : SourceCheckStatus

unfoldable pub ledger_status : Payment → LedgerTotals → SourceCheckStatus
ledger_status p totals =
    if eqb_ℤ p.authorized_amount totals.authorized
      && eqb_ℤ p.captured_amount totals.captured
      && eqb_ℤ p.refunded_amount totals.refunded
    then SourceCheckStatus.matched
    else SourceCheckStatus.mismatched

-- The disjunction of differences, negated.
abbrev pub agrees : Payment → MerchantProjection → Bool
agrees p m =
    (m.aggregate_version == p.version)
    && str_eq m.merchant_reference p.merchant_reference
    && eqb_ℤ m.amount p.amount
    && same_currency m.currency p.currency
    && same_status m.status p.status
    && same_option same_reason m.decline_reason p.decline_reason
    && eqb_ℤ m.authorized_amount p.authorized_amount
    && eqb_ℤ m.captured_amount p.captured_amount
    && eqb_ℤ m.refunded_amount p.refunded_amount

unfoldable pub projection_status :
    Payment → Option MerchantProjection → WebhookEvent → Bool → SourceCheckStatus
projection_status p none latest_event latest_event_processed = SourceCheckStatus.missing
projection_status p (some m) latest_event latest_event_processed =
    if ltb m.aggregate_version latest_event.aggregate_version
    then SourceCheckStatus.stale
    else if not latest_event_processed
    then SourceCheckStatus.missing
    else if agrees p m
    then SourceCheckStatus.matched
    else SourceCheckStatus.mismatched

-- `ORDER BY created_at, id`
abbrev pub entry_order : LedgerEntry → LedgerEntry → Bool
entry_order a b =
    ltb a.created_at b.created_at || ((a.created_at == b.created_at) && str_leb a.id b.id)

unfoldable pub entries_of : String → Db → List LedgerEntry
entries_of payment_id db =
    sort_by entry_order (select (λ e. str_eq e.payment_id payment_id) db.ledger_entries)

-- `ORDER BY aggregate_version DESC LIMIT 1` over the events of one payment
abbrev pub newer_event : WebhookEvent → Option WebhookEvent → Option WebhookEvent
newer_event e none = some e
newer_event e (some f) = if ltb e.aggregate_version f.aggregate_version then some f else some e

unfoldable pub latest_event : String → List WebhookEvent → Option WebhookEvent
latest_event payment_id [] = none
latest_event payment_id (e ∷ rows) =
    let rest = latest_event payment_id rows in
    if str_eq e.payment_id payment_id then newer_event e rest else rest

-- `settlements_by_payment.get(payment.id, [])`
abbrev pub settlements_for : String → List SettlementRow → List SettlementRow
settlements_for payment_id rows = select (λ r. str_eq r.payment_id payment_id) rows

abbrev pub projection_version : Option MerchantProjection → Option ℕ
projection_version none = none
projection_version (some m) = some m.aggregate_version

pub record ReconciliationItem : Type 0 where
  pub payment_id : String
  pub merchant_reference : String
  pub currency : Currency
  pub expected_settlement_amount : ℤ
  pub settlement_classification : SettlementClassification
  pub settlement_record_count : ℕ
  pub observed_settlement_amounts : List ℤ
  pub observed_settlement_currencies : List Currency
  pub item_ledger_status : SourceCheckStatus
  pub payment_authorized_amount : ℤ
  pub ledger_authorized_amount : ℤ
  pub payment_captured_amount : ℤ
  pub ledger_captured_amount : ℤ
  pub payment_refunded_amount : ℤ
  pub ledger_refunded_amount : ℤ
  pub item_projection_status : SourceCheckStatus
  pub expected_projection_version : ℕ
  pub observed_projection_version : Option ℕ
  pub latest_event_processed : Bool

-- The item that the body of the loop appends for one payment.
unfoldable pub reconcile_payment : Db → ℕ → List SettlementRow → Payment → Result ReconciliationItem
reconcile_payment db cutoff all_settlements p = do
  let entries = entries_of p.id db
  let current_ledger = calculate_ledger_totals none entries
  let expected_amount = expected_settlement cutoff entries
  let settlement =
      classify_settlement expected_amount p.currency (settlements_for p.id all_settlements)
  latest ← or_raise (latest_event p.id db.webhook_events) (runtime_error p.id)
  let latest_processed = is_some (find_processed latest.id db)
  let projection = find_projection p.id db
  ok (record {
    payment_id = p.id;
    merchant_reference = p.merchant_reference;
    currency = p.currency;
    expected_settlement_amount = expected_amount;
    settlement_classification = settlement.classification;
    settlement_record_count = length settlement.observed_amounts;
    observed_settlement_amounts = settlement.observed_amounts;
    observed_settlement_currencies = settlement.observed_currencies;
    item_ledger_status = ledger_status p current_ledger;
    payment_authorized_amount = p.authorized_amount;
    ledger_authorized_amount = current_ledger.authorized;
    payment_captured_amount = p.captured_amount;
    ledger_captured_amount = current_ledger.captured;
    payment_refunded_amount = p.refunded_amount;
    ledger_refunded_amount = current_ledger.refunded;
    item_projection_status = projection_status p projection latest latest_processed;
    expected_projection_version = latest.aggregate_version;
    observed_projection_version = projection_version projection;
    latest_event_processed = latest_processed;
  })
