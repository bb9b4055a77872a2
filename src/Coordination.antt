-- ===== src/Coordination.antt =====
-- services/coordination.py: the writer reservation, and the receipts that protect a payment.
use payment_platform_quality.Prelude.{
  ℕ, Bool, true, false, not, ◌&&◌, ◌||◌, Option, none, some, List, [], ◌∷◌, String, eqb_ℤ, ltb,
}
use payment_platform_quality.Domain.Types.{Currency}
use payment_platform_quality.Failure.{Result, ok, value_error, operational_error, ◌>>◌, raise_if}
use payment_platform_quality.Database.Types.{Payment}
use payment_platform_quality.Database.Rows.{ConfirmationReceipt}
use payment_platform_quality.Database.Store.{Db, find_payment, is_reference}

-- What `begin_coordinated_write` finds of its session and of the database: no staged objects,
-- the SQLite dialect, and the answer to BEGIN IMMEDIATE.
pub record Writer : Type 0 where
  pub is_clean : Bool
  pub is_sqlite : Bool
  pub is_admitted : Bool

unfoldable pub begin_coordinated_write : Writer → Result (Unit {0})
begin_coordinated_write w = do
  raise_if (not w.is_clean) (value_error "Confirmation operations require a clean session")
  raise_if (not w.is_sqlite)
      (value_error "Confirmation coordination currently supports SQLite only")
  raise_if (not w.is_admitted) operational_error
  ok tt

abbrev pub same_currency : Currency → Currency → Bool
same_currency Currency.usd Currency.usd = true
same_currency Currency.jpy Currency.jpy = true
same_currency Currency.usd Currency.jpy = false
same_currency Currency.jpy Currency.usd = false

-- `a < b` in SQL, where `b` may be NULL
abbrev pub before : ℕ → Option ℕ → Bool
before a none = false
before a (some b) = ltb a b

-- The WHERE clause of `protecting_receipt_exists`, for one receipt and one payment.
unfoldable pub protects : Payment → ConfirmationReceipt → Bool
protects p r =
    is_reference r.payment_reference p.payment_reference
    && not r.completed
    && eqb_ℤ r.amount p.amount
    && same_currency r.currency p.currency
    && before r.received_at p.expires_at

unfoldable pub protecting_receipt_exists : Payment → List ConfirmationReceipt → Bool
protecting_receipt_exists p [] = false
protecting_receipt_exists p (r ∷ rows) = protects p r || protecting_receipt_exists p rows

-- The query reads the stored row of the payment.
unfoldable pub has_protecting_receipt : String → Db → Bool
has_protecting_receipt payment_id db = elim (find_payment payment_id db) [
  | none ↦ false
  | some p ↦ protecting_receipt_exists p db.receipts
]
