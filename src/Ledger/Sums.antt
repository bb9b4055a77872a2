-- ===== src/Ledger/Sums.antt =====
-- What a ledger entry adds to each balance (`calculate_ledger_totals` of
-- services/reconciliation.py), and the sums over the entries of one payment.
use payment_platform_quality.Prelude.{
  ℤ, pos, ◌+ℤ◌, Option, none, some, List, [], ◌∷◌, String, str_eq, if◌then◌else◌,
}
use payment_platform_quality.Database.Types.{LedgerEntry, Payment}

abbrev pub authorized_part : String → ℤ → ℤ
authorized_part operation x =
    if str_eq operation "AUTHORIZATION"
    then x
    else if str_eq operation "CAPTURE"
    then pos 0
    else if str_eq operation "CONFIRMATION_CAPTURE"
    then x
    else pos 0

abbrev pub captured_part : String → ℤ → ℤ
captured_part operation x =
    if str_eq operation "AUTHORIZATION"
    then pos 0
    else if str_eq operation "CAPTURE"
    then x
    else if str_eq operation "CONFIRMATION_CAPTURE"
    then x
    else pos 0

abbrev pub refunded_part : String → ℤ → ℤ
refunded_part operation x =
    if str_eq operation "AUTHORIZATION"
    then pos 0
    else if str_eq operation "CAPTURE"
    then pos 0
    else if str_eq operation "CONFIRMATION_CAPTURE"
    then pos 0
    else if str_eq operation "REFUND"
    then x
    else pos 0

-- The sum of one part over the entries of payment `k`.
unfoldable pub sum_of : (String → ℤ → ℤ) → String → List LedgerEntry → ℤ
sum_of part k [] = pos 0
sum_of part k (e ∷ rows) =
    let rest = sum_of part k rows in
    if str_eq e.payment_id k then part e.operation e.amount +ℤ rest else rest

abbrev pub add_entry : Option LedgerEntry → List LedgerEntry → List LedgerEntry
add_entry none rows = rows
add_entry (some e) rows = e ∷ rows

-- What an entry, if there is one, adds to a sum.
abbrev pub delta : (String → ℤ → ℤ) → Option LedgerEntry → ℤ
delta part none = pos 0
delta part (some e) = part e.operation e.amount

abbrev pub authorized_of : Option Payment → ℤ
authorized_of none = pos 0
authorized_of (some p) = p.authorized_amount

abbrev pub captured_of : Option Payment → ℤ
captured_of none = pos 0
captured_of (some p) = p.captured_amount

abbrev pub refunded_of : Option Payment → ℤ
refunded_of none = pos 0
refunded_of (some p) = p.refunded_amount
