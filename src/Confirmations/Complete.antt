-- ===== src/Confirmations/Complete.antt =====
-- `complete_confirmation`, `process_confirmation` and `recover_pending_confirmations` of
-- services/confirmations.py.
use payment_platform_quality.Prelude.{
  Bool, true, false, not, ◌||◌, Option, none, some, String, str_eq,
}
use payment_platform_quality.Failure.{
  Failure, Result, ok, err, confirmation_id_conflict, confirmation_not_found,
  confirmation_processing_unavailable, integrity_error, ◌>>=◌, ◌>>◌, raise_if,
}
use payment_platform_quality.Database.Types.{Payment}
use payment_platform_quality.Database.Rows.{
  ConfirmationReceipt, ConfirmationDisposition, PaymentConfirmation,
}
use payment_platform_quality.Database.Tables.{replace}
use payment_platform_quality.Database.Store.{
  Db, find_receipt, find_confirmation, payment_by_reference, insert_confirmation,
}
use payment_platform_quality.Coordination.{Writer, begin_coordinated_write}
use payment_platform_quality.Payments.Commands.{Dictionary, Reading, Fresh}
use payment_platform_quality.Payments.Commit.{as_concurrent}
use payment_platform_quality.Payments.Lifecycle.{is_database_error}
use payment_platform_quality.Confirmations.Commands.{
  ConfirmationCommand, confirmation_payload, command_of, ConfirmationOutcome,
}
use payment_platform_quality.Confirmations.Dispositions.{classify, apply_disposition}
use payment_platform_quality.Confirmations.Accept.{accept_confirmation}

-- `SAFE_CONFIRMATION_RESPONSE`
abbrev pub safe_response : String
safe_response = "{\"accepted\":true}"

-- `_existing_outcome` on the record that the identity finds.
unfoldable pub existing_outcome :
    Option PaymentConfirmation → String → Result (Option ConfirmationOutcome)
existing_outcome none fingerprint = ok none
existing_outcome (some c) fingerprint = do
  raise_if (not (str_eq c.request_fingerprint fingerprint)) confirmation_id_conflict
  ok (some (record { confirmation = c; replayed = true }))

abbrev pub id_of : Option Payment → Option String
id_of none = none
id_of (some p) = some p.id

abbrev pub new_confirmation :
    String → ConfirmationReceipt → Option Payment → ConfirmationDisposition → PaymentConfirmation
new_confirmation fingerprint r payment disposition = record {
  confirmation_id = r.confirmation_id;
  request_fingerprint = fingerprint;
  payment_reference = r.payment_reference;
  amount = r.amount;
  currency = r.currency;
  received_at = r.received_at;
  disposition = disposition;
  payment_id = id_of payment;
  response_snapshot = safe_response;
}

-- `receipt.completed = True`
abbrev pub complete_receipt_row : ConfirmationReceipt → Db → Db
complete_receipt_row r db = record db {
  receipts = replace (λ q. q.confirmation_id) (record r { completed = true }) db.receipts;
}

-- The new confirmation with its effect, up to the commit.
unfoldable pub stage_completion :
    String → ConfirmationReceipt → Fresh → Db → Result (ConfirmationOutcome × Db)
stage_completion fingerprint r fresh db = do
  let payment = payment_by_reference r.payment_reference db.payments
  disposition ← classify payment (command_of r) r.received_at
  let c = new_confirmation fingerprint r payment disposition
  with_confirmation ← insert_confirmation c db
  applied ←
      apply_disposition payment (command_of r) disposition r.received_at fresh with_confirmation
  ok (record { confirmation = c; replayed = false }, complete_receipt_row r applied)

-- `payment.id if payment is not None else command.payment_reference`
abbrev pub concurrent_id : Option Payment → String → String
concurrent_id none reference = reference
concurrent_id (some p) reference = p.id

-- The `except` clauses. A refused insertion looks for the outcome of another transaction in the
-- database `db` that the rollback leaves.
settle_refusal : Failure → Result (Option ConfirmationOutcome) → Result ConfirmationOutcome
settle_refusal e (ok none) = err e
settle_refusal e (ok (some o)) = ok o
settle_refusal e (err e') = err e'

unfoldable pub conclude_completion :
    String
    → ConfirmationReceipt
    → Db
    → Result (ConfirmationOutcome × Db)
    → Result ConfirmationOutcome × Db
unfolding settle_refusal
conclude_completion fingerprint r db (ok (o, staged)) = (ok o, staged)
conclude_completion fingerprint r db (err Failure.integrity_error) = (
  settle_refusal integrity_error
      (existing_outcome (find_confirmation r.confirmation_id db) fingerprint),
  db,
)
conclude_completion fingerprint r db (err e) = (
  err (
      as_concurrent
        (concurrent_id (payment_by_reference r.payment_reference db.payments) r.payment_reference)
        e),
  db,
)

-- The first look for an outcome of this identity.
unfoldable pub complete_unless_done :
    Result (Option ConfirmationOutcome)
    → String
    → ConfirmationReceipt
    → Fresh
    → Db
    → Result ConfirmationOutcome × Db
complete_unless_done (err e) fingerprint r fresh db = (err e, db)
complete_unless_done (ok (some o)) fingerprint r fresh db = (ok o, db)
complete_unless_done (ok none) fingerprint r fresh db =
    conclude_completion fingerprint r db (stage_completion fingerprint r fresh db)

-- `_complete_receipt`
unfoldable pub complete_receipt :
    (Dictionary → String)
    → Option ConfirmationReceipt
    → String
    → Fresh
    → Db
    → Result ConfirmationOutcome × Db
complete_receipt digest none confirmation_id fresh db =
    (err (confirmation_not_found confirmation_id), db)
complete_receipt digest (some r) confirmation_id fresh db =
    let fingerprint = digest (confirmation_payload (command_of r)) in
    complete_unless_done (existing_outcome (find_confirmation r.confirmation_id db) fingerprint)
      fingerprint r fresh db

unfoldable pub complete_confirmation :
    (Dictionary → String) → Writer → String → Fresh → Db → Result ConfirmationOutcome × Db
complete_confirmation digest writer confirmation_id fresh db =
    elim (begin_coordinated_write writer) [
      | err e ↦ (err e, db)
      | ok _ ↦ complete_receipt digest (find_receipt confirmation_id db) confirmation_id fresh db
    ]

-- How `process_confirmation` reports the end of its second transaction.
abbrev pub report_completion :
    Bool → Result ConfirmationOutcome × Db → Result ConfirmationOutcome × Db
report_completion known (ok o, db) =
    (ok (record { confirmation = o.confirmation; replayed = known || o.replayed }), db)
report_completion known (err e, db) = (err confirmation_processing_unavailable, db)

abbrev pub unavailable_if_database : Failure → Failure
unavailable_if_database e = elim (is_database_error e) [
  | true ↦ confirmation_processing_unavailable
  | false ↦ e
]

pub complete_accepted :
    (Dictionary → String)
    → (Db → Db)
    → Writer
    → ConfirmationCommand
    → Fresh
    → Result Bool × Db
    → Result ConfirmationOutcome × Db
complete_accepted digest others writer command fresh (err e, db) =
    (err (unavailable_if_database e), db)
complete_accepted digest others writer command fresh (ok known, db) =
    report_completion known
      (complete_confirmation digest writer command.confirmation_id fresh (others db))

-- `process_confirmation` with its clock: the receipt is committed first, and completed in a
-- transaction of its own. `others` is what other sessions do in between; the two writers are the
-- two reservations.
unfoldable pub process_confirmation :
    (Dictionary → String)
    → (Db → Db)
    → Writer
    → Writer
    → ConfirmationCommand
    → Reading
    → Fresh
    → Db
    → Result ConfirmationOutcome × Db
unfolding complete_accepted
process_confirmation digest others accepting completing command clock fresh db =
    complete_accepted digest others completing command fresh
      (accept_confirmation digest accepting command clock db)
