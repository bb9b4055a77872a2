-- ===== src/Tests/Data.antt =====
-- Concrete commands, identifiers and databases.
use payment_platform_quality.Prelude.{ℕ, pos, none, [], ◌∷◌, String, Bool}
use payment_platform_quality.Domain.Types.{
  Currency, PaymentStatus, AuthorizationDecision, DelayedPaymentDecision, PaymentMethodDecision,
}
use payment_platform_quality.Database.Types.{Payment}
use payment_platform_quality.Database.Store.{Db, empty_db}
use payment_platform_quality.Coordination.{Writer}
use payment_platform_quality.Payments.Commands.{
  Scalar, Dictionary, AuthorizationCommand, Fresh, Reading,
}
use payment_platform_quality.Payments.Authorize.{
  authorize_payment, new_payment, immediate_terms, delayed_terms,
}
use payment_platform_quality.Payments.Lifecycle.{apply_lifecycle_operation, capture_command}
use payment_platform_quality.Confirmations.Commands.{ConfirmationCommand}
use payment_platform_quality.Confirmations.Accept.{accept_confirmation}
use payment_platform_quality.Confirmations.Complete.{complete_confirmation}

-- A digest that tells two commands of the examples apart.
abbrev pub text_of : Scalar → String
text_of (Scalar.str s) = s
text_of _ = ""

abbrev pub third_text : Dictionary → String
third_text (a ∷ b ∷ c ∷ rest) = text_of c.1
third_text _ = ""

abbrev pub alone : Db → Db
alone db = db

abbrev pub order : String → AuthorizationCommand
order merchant_reference = record {
  merchant_reference = merchant_reference;
  amount = pos 500;
  currency = Currency.usd;
  payment_method_token = PaymentMethodDecision.authorization AuthorizationDecision.approve;
}

abbrev pub delayed_order : AuthorizationCommand
delayed_order = record {
  merchant_reference = "order-2";
  amount = pos 700;
  currency = Currency.usd;
  payment_method_token = PaymentMethodDecision.delayed DelayedPaymentDecision.await_confirmation;
}

abbrev pub fresh : ℕ → String → String → Fresh
fresh now payment_id suffix = record {
  now = now;
  payment_id = payment_id;
  payment_reference = "ref-1";
  ledger_id = suffix;
  event_id = suffix;
}

-- After the authorization of an order, and after the capture that follows.
abbrev pub authorized_db : Db
authorized_db =
    (authorize_payment third_text alone (order "order-1") "key-1" none (Reading.aware 10)
      (fresh 10 "pay-1" "e1") empty_db).1

abbrev pub captured_db : Db
captured_db =
    (apply_lifecycle_operation third_text alone [] (capture_command "pay-1") "key-2" none
      (fresh 20 "" "e2") authorized_db).1

-- After a request for a delayed payment.
abbrev pub awaiting_db : Db
awaiting_db =
    (authorize_payment third_text alone delayed_order "key-3" none (Reading.aware 10)
      (fresh 10 "pay-2" "e3") empty_db).1

abbrev pub writer : Writer
writer = record { is_clean = Bool.true; is_sqlite = Bool.true; is_admitted = Bool.true }

abbrev pub confirmation : ConfirmationCommand
confirmation = record {
  confirmation_id = "conf-1";
  payment_reference = "ref-1";
  amount = pos 700;
  currency = Currency.usd;
}

-- After the receipt of its confirmation, and after the completion.
abbrev pub received_db : Db
received_db = (accept_confirmation third_text writer confirmation (Reading.aware 30) awaiting_db).1

abbrev pub confirmed_db : Db
confirmed_db = (complete_confirmation third_text writer "conf-1" (fresh 40 "" "e4") received_db).1

-- The rows that the runs write.
abbrev pub authorized_row : Payment
authorized_row =
    new_payment (order "order-1")
      (immediate_terms (record {
        status = PaymentStatus.authorized;
        authorized_amount = pos 500;
        decline_reason = none;
      }))
      (fresh 10 "pay-1" "e1")

abbrev pub captured_row : Payment
captured_row = record authorized_row {
  status = PaymentStatus.captured;
  captured_amount = pos 500;
  version = 2;
  updated_at = 20;
}

abbrev pub awaiting_row : Payment
awaiting_row =
    new_payment delayed_order (delayed_terms (fresh 10 "pay-2" "e3")) (fresh 10 "pay-2" "e3")
