-- ===== src/Reconciliation/Totals.antt =====
-- The pure parts of services/reconciliation.py: ledger totals, and the class of a settlement.
use payment_platform_quality.Prelude.{
  ℕ, ℤ, pos, ◌+ℤ◌, ◌-ℤ◌, max_ℤ, Bool, false, ◌&&◌, Option, none, some, List, [], ◌∷◌, String,
  str_eq, eqb_ℤ, ltb, leb, if◌then◌else◌, sort_by,
}
use payment_platform_quality.Domain.Types.{Currency}
use payment_platform_quality.Coordination.{same_currency}
use payment_platform_quality.Database.Types.{LedgerEntry}
use payment_platform_quality.Database.Rows.{SettlementRow}

pub data SettlementClassification : Type 0 where
  matched missing duplicated amount_mismatched : SettlementClassification

pub record LedgerTotals : Type 0 where
  pub authorized : ℤ
  pub captured : ℤ
  pub refunded : ℤ

abbrev pub net_captured : LedgerTotals → ℤ
net_captured t = t.captured -ℤ t.refunded

-- The chain of `if`s of the loop: an entry of another operation changes nothing.
abbrev pub add_amount : String → ℤ → LedgerTotals → LedgerTotals
add_amount operation x t =
    if str_eq operation "AUTHORIZATION"
    then record t { authorized = t.authorized +ℤ x }
    else if str_eq operation "CAPTURE"
    then record t { captured = t.captured +ℤ x }
    else if str_eq operation "CONFIRMATION_CAPTURE"
    then record t { authorized = t.authorized +ℤ x; captured = t.captured +ℤ x }
    else if str_eq operation "REFUND"
    then record t { refunded = t.refunded +ℤ x }
    else t

-- `resolved_cutoff is not None and created_at > resolved_cutoff`
abbrev pub after_cutoff : Option ℕ → ℕ → Bool
after_cutoff none created_at = false
after_cutoff (some cutoff) created_at = ltb cutoff created_at

-- The loop of `calculate_ledger_totals`, with its three variables.
unfoldable pub add_entries : Option ℕ → List LedgerEntry → LedgerTotals → LedgerTotals
add_entries cutoff [] t = t
add_entries cutoff (e ∷ entries) t =
    add_entries cutoff entries
      (if after_cutoff cutoff e.created_at then t else add_amount e.operation e.amount t)

unfoldable pub calculate_ledger_totals : Option ℕ → List LedgerEntry → LedgerTotals
calculate_ledger_totals cutoff entries =
    add_entries cutoff entries (record { authorized = pos 0; captured = pos 0; refunded = pos 0 })

pub record SettlementComparison : Type 0 where
  pub classification : SettlementClassification
  pub observed_amounts : List ℤ
  pub observed_currencies : List Currency
  pub canonical_observed_amount : ℤ

abbrev pub by_line : SettlementRow → SettlementRow → Bool
by_line a b = leb a.line_number b.line_number

abbrev pub amounts_of : List SettlementRow → List ℤ
amounts_of [] = []
amounts_of (r ∷ rows) = r.amount ∷ amounts_of rows

abbrev pub currencies_of : List SettlementRow → List Currency
currencies_of [] = []
currencies_of (r ∷ rows) = r.currency ∷ currencies_of rows

-- `amounts[0] if amounts else 0`
abbrev pub first_amount : List SettlementRow → ℤ
first_amount [] = pos 0
first_amount (r ∷ rows) = r.amount

-- The branches on the number of rows.
unfoldable pub classification_of : ℤ → Currency → List SettlementRow → SettlementClassification
classification_of expected_amount expected_currency [] =
    if eqb_ℤ expected_amount (pos 0)
    then SettlementClassification.matched
    else SettlementClassification.missing
classification_of expected_amount expected_currency (r ∷ []) =
    if eqb_ℤ r.amount expected_amount && same_currency r.currency expected_currency
    then SettlementClassification.matched
    else SettlementClassification.amount_mismatched
classification_of expected_amount expected_currency (r ∷ q ∷ rows) =
    SettlementClassification.duplicated

unfoldable pub classify_settlement : ℤ → Currency → List SettlementRow → SettlementComparison
classify_settlement expected_amount expected_currency records =
    let ordered = sort_by by_line records in
    record {
      classification = classification_of expected_amount expected_currency ordered;
      observed_amounts = amounts_of ordered;
      observed_currencies = currencies_of ordered;
      canonical_observed_amount = first_amount ordered;
    }

-- `max(0, cutoff_ledger.net_captured)`
abbrev pub expected_settlement : ℕ → List LedgerEntry → ℤ
expected_settlement cutoff entries =
    max_ℤ (pos 0) (net_captured (calculate_ledger_totals (some cutoff) entries))
