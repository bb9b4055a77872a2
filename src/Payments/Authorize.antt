-- ===== src/Payments/Authorize.antt =====
-- `authorize_payment` of services/payments.py.
use payment_platform_quality.Prelude.{
  ℕ, ℤ, pos, ◌+◌, Bool, Option, none, some, String, eqb_ℤ, if◌then◌else◌,
}
use payment_platform_quality.Domain.Types.{
  PaymentStatus, PaymentFlow, DeclineReason, PaymentMethodDecision, AuthorizationResult,
}
use payment_platform_quality.Domain.Operations.{authorize}
use payment_platform_quality.Failure.{FailurePoint, Result, ok, err, ◌>>=◌}
use payment_platform_quality.Database.Types.{
  Payment, LedgerEntry, IdempotencyRecord, WebhookEventType,
}
use payment_platform_quality.Database.Store.{Db, insert_payment, insert_ledger}
use payment_platform_quality.Payments.Commands.{
  AuthorizationCommand, Dictionary, authorization_payload, PaymentView, Outcome, Reading,
  read_clock, Fresh,
}
use payment_platform_quality.Payments.Claims.{Claim, claim_idempotency_key}
use payment_platform_quality.Payments.Commit.{stage_outcome, conclude}

-- `timedelta(hours=72)` in microseconds
abbrev pub expiry_window : ℕ
expiry_window = 259_200_000_000

-- What the two branches of the token decide.
pub record Terms : Type 0 where
  pub status : PaymentStatus
  pub payment_flow : PaymentFlow
  pub payment_reference : Option String
  pub expires_at : Option ℕ
  pub decline_reason : Option DeclineReason
  pub authorized_amount : ℤ
  pub event_type : WebhookEventType

abbrev pub event_of : PaymentStatus → WebhookEventType
event_of PaymentStatus.authorized = WebhookEventType.authorized
event_of _ = WebhookEventType.declined

abbrev pub immediate_terms : AuthorizationResult → Terms
immediate_terms r = record {
  status = r.status;
  payment_flow = PaymentFlow.synchronous;
  payment_reference = none;
  expires_at = none;
  decline_reason = r.decline_reason;
  authorized_amount = r.authorized_amount;
  event_type = event_of r.status;
}

abbrev pub delayed_terms : Fresh → Terms
delayed_terms fresh = record {
  status = PaymentStatus.awaiting_payment;
  payment_flow = PaymentFlow.asynchronous_confirmation;
  payment_reference = some fresh.payment_reference;
  expires_at = some (fresh.now + expiry_window);
  decline_reason = none;
  authorized_amount = pos 0;
  event_type = WebhookEventType.confirmation_requested;
}

unfoldable pub terms_of : ℤ → PaymentMethodDecision → Fresh → Result Terms
terms_of amount (PaymentMethodDecision.delayed d) fresh = ok (delayed_terms fresh)
terms_of amount (PaymentMethodDecision.authorization d) fresh = do
  result ← authorize amount d
  ok (immediate_terms result)

abbrev pub new_payment : AuthorizationCommand → Terms → Fresh → Payment
new_payment c t fresh = record {
  id = fresh.payment_id;
  merchant_reference = c.merchant_reference;
  amount = c.amount;
  currency = c.currency;
  status = t.status;
  payment_flow = t.payment_flow;
  payment_reference = t.payment_reference;
  expires_at = t.expires_at;
  decline_reason = t.decline_reason;
  authorized_amount = t.authorized_amount;
  captured_amount = pos 0;
  refunded_amount = pos 0;
  version = 1;
  created_at = fresh.now;
  updated_at = fresh.now;
}

abbrev pub authorization_entry : Payment → Fresh → LedgerEntry
authorization_entry p fresh = record {
  id = fresh.ledger_id;
  payment_id = p.id;
  operation = "AUTHORIZATION";
  amount = p.authorized_amount;
  currency = p.currency;
  created_at = fresh.now;
}

-- `if authorized_amount: session.add(LedgerEntryRecord(...))`
unfoldable pub flush_authorization : Payment → Fresh → Db → Result (Payment × Db)
flush_authorization p fresh db =
    if eqb_ℤ p.authorized_amount (pos 0)
    then ok (p, db)
    else do with_entry ← insert_ledger (authorization_entry p fresh) db; ok (p, with_entry)

-- `_execute_claimed_authorization`, up to the commit
unfoldable pub stage_authorization :
    AuthorizationCommand
    → IdempotencyRecord
    → Option FailurePoint
    → Fresh
    → Db
    → Result (Payment × Db)
stage_authorization command claim point fresh db = do
  terms ← terms_of command.amount command.payment_method_token fresh
  let p = new_payment command terms fresh
  with_payment ← insert_payment p db
  stage_outcome (flush_authorization p fresh) claim terms.event_type fresh.event_id point
      with_payment

abbrev pub as_written : Result Payment × Db → Result Outcome × Db
as_written (ok p, db) = (ok (record { payment = PaymentView.written p; replayed = Bool.false }), db)
as_written (err e, db) = (err e, db)

-- After the claim: `committed` is the database that a rollback leaves.
pub finish_authorization :
    AuthorizationCommand → Option FailurePoint → Fresh → Db → Claim → Result Outcome × Db
finish_authorization command point fresh committed (Claim.raises e db) = (err e, db)
finish_authorization command point fresh committed (Claim.replays s db) =
    (ok (record { payment = PaymentView.copied s; replayed = Bool.true }), db)
finish_authorization command point fresh committed (Claim.held claim db) =
    as_written
      (conclude fresh.payment_id point committed (stage_authorization command claim point fresh db))

-- With a clock that was read: the call on a database, while other sessions do `others`.
unfoldable pub authorize_at :
    (Dictionary → String)
    → (Db → Db)
    → AuthorizationCommand
    → String
    → Option FailurePoint
    → Fresh
    → Db
    → Result Outcome × Db
unfolding finish_authorization
authorize_at digest others command key point fresh db =
    finish_authorization command point fresh (others db) (
      claim_idempotency_key key (digest (authorization_payload command)) "AUTHORIZE" fresh.now
        others db)

unfoldable pub authorize_payment :
    (Dictionary → String)
    → (Db → Db)
    → AuthorizationCommand
    → String
    → Option FailurePoint
    → Reading
    → Fresh
    → Db
    → Result Outcome × Db
authorize_payment digest others command key point clock fresh db = elim (read_clock clock) [
  | err e ↦ (err e, db)
  | ok now ↦ authorize_at digest others command key point (record fresh { now = now }) db
]
