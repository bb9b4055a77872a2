-- ===== src/Confirmations/Commands.antt =====
-- The command, the outcome and the time checks of services/confirmations.py.
use payment_platform_quality.Prelude.{ℕ, ℤ, Bool, [], ◌∷◌, String}
use payment_platform_quality.Domain.Types.{Currency, currency_value}
use payment_platform_quality.Failure.{Result, ok, err, value_error}
use payment_platform_quality.Database.Rows.{ConfirmationReceipt, PaymentConfirmation}
use payment_platform_quality.Payments.Commands.{Scalar, Dictionary, Reading}

pub record ConfirmationCommand : Type 0 where
  pub confirmation_id : String
  pub payment_reference : String
  pub amount : ℤ
  pub currency : Currency

-- The dictionary that `fingerprint` digests.
abbrev pub confirmation_payload : ConfirmationCommand → Dictionary
confirmation_payload c =
    ("amount", Scalar.int c.amount)
    ∷ ("confirmation_id", Scalar.str c.confirmation_id)
    ∷ ("currency", Scalar.str (currency_value c.currency))
    ∷ ("payment_reference", Scalar.str c.payment_reference)
    ∷ []

-- The command that `_complete_receipt` rebuilds from a receipt.
abbrev pub command_of : ConfirmationReceipt → ConfirmationCommand
command_of r = record {
  confirmation_id = r.confirmation_id;
  payment_reference = r.payment_reference;
  amount = r.amount;
  currency = r.currency;
}

pub record ConfirmationOutcome : Type 0 where
  pub confirmation : PaymentConfirmation
  pub replayed : Bool

-- `_require_aware_utc`, with the message of the field
unfoldable pub require_aware_utc : Reading → String → Result ℕ
require_aware_utc (Reading.naive t) message = err (value_error message)
require_aware_utc (Reading.aware t) message = ok t

abbrev pub default_expiry_batch_size : ℕ
default_expiry_batch_size = 100

abbrev pub max_expiry_batch_size : ℕ
max_expiry_batch_size = 1000
