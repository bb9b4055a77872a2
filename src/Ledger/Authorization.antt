-- ===== src/Ledger/Authorization.antt =====
-- Authorizations keep the invariant of payments and ledger.
use payment_platform_quality.Prelude.{
  ℤ, pos, ◌+ℤ◌, Option, ◌≡◌, ◌∙◌, sym, refl, String, eqb_ℤ, arith, int_laws, inl, inr, Bool-cases,
}
use payment_platform_quality.Domain.Types.{PaymentMethodDecision, AuthorizationDecision}
use payment_platform_quality.Domain.Operations.{authorize}
use payment_platform_quality.Domain.Coherence.{BalancesAt}
use payment_platform_quality.Failure.{FailurePoint, ok}
use payment_platform_quality.Database.Types.{Payment, IdempotencyRecord}
use payment_platform_quality.Database.Tables.{find-first}
use payment_platform_quality.Database.Store.{Db}
use payment_platform_quality.Ledger.Sums.{delta, authorized_part, captured_part, refunded_part}
use payment_platform_quality.Ledger.Sound.{
  IsSound, HasCoherentBalances, Writes, Writes-IsSound, OfPayment,
}
use payment_platform_quality.Payments.Commands.{
  AuthorizationCommand, Dictionary, authorization_payload, Fresh, Reading, read_clock,
}
use payment_platform_quality.Payments.Claims.{claim_idempotency_key}
use payment_platform_quality.Payments.Authorize.{
  Terms, terms_of, stage_authorization, authorize_at, authorize_payment,
}
use mathlib.Core.Path.{subst}
use payment_platform_quality.Payments.Endings.{EndsIn, authorize-EndsIn}
use payment_platform_quality.Payments.Effects.{
  SameMoney, held-SameMoney, authorization_entry?, stage_authorization_effect,
}

-- The invariant is about two tables.
pub SameMoney-IsSound : (db db' : Db) → SameMoney db db' → IsSound db → IsSound db'
SameMoney-IsSound db db' same h = record {
  keyed = rw same.payments h.keyed;
  coherent = λ k p e. h.coherent k p (rw (← same.payments) e);
  authorized = λ k. rw (same.payments, same.entries) (h.authorized k);
  captured = λ k. rw (same.payments, same.entries) (h.captured k);
  refunded = λ k. rw (same.payments, same.entries) (h.refunded k);
}

terms_of_coherent :
    (amount : ℤ) (token : PaymentMethodDecision) (fresh : Fresh) (t : Terms)
    → terms_of amount token fresh ≡ ok t
    → BalancesAt t.status t.authorized_amount (pos 0) (pos 0)
unfolding terms_of authorize
terms_of_coherent amount (PaymentMethodDecision.delayed d) fresh t h = ground arith
terms_of_coherent amount (PaymentMethodDecision.authorization AuthorizationDecision.approve) fresh t
      h =
    ground arith
terms_of_coherent amount (PaymentMethodDecision.authorization _) fresh t h = ground arith

entry-OfPayment : (p : Payment) (fresh : Fresh) → OfPayment p (authorization_entry? p fresh)
entry-OfPayment p fresh = elim (Bool-cases (eqb_ℤ p.authorized_amount (pos 0))) [
  | inl zero_amount ↦ rw zero_amount tt
  | inr some_amount ↦ rw some_amount refl
]

entry_delta :
    (p : Payment) (fresh : Fresh)
    → (p.authorized_amount ≡ delta authorized_part (authorization_entry? p fresh) +ℤ pos 0)
      × (pos 0 ≡ delta captured_part (authorization_entry? p fresh) +ℤ pos 0)
      × (pos 0 ≡ delta refunded_part (authorization_entry? p fresh) +ℤ pos 0)
entry_delta p fresh = elim (Bool-cases (eqb_ℤ p.authorized_amount (pos 0))) [
  | inl zero_amount ↦
      let e : p.authorized_amount ≡ pos 0 = ground arith in
      let z : pos 0 ≡ pos 0 +ℤ pos 0 = omega int_laws in rw zero_amount (e ∙ z, z, z)
  | inr some_amount ↦ rw some_amount (omega int_laws, omega int_laws, omega int_laws)
]

stage_authorization-IsSound :
    (command : AuthorizationCommand) (claim : IdempotencyRecord) (point : Option FailurePoint)
    (fresh : Fresh) (db : Db) (p : Payment) (db' : Db)
    → IsSound db
    → stage_authorization command claim point fresh db ≡ ok (p, db')
    → IsSound db'
stage_authorization-IsSound command claim point fresh db p db' sound h =
    let (terms, decided, new, absent, payments, entries, events) =
      stage_authorization_effect command claim point fresh db p db' h in
    let writes : Writes db db' p (authorization_entry? p fresh) = record {
      found = λ k. rw payments (find-first (λ q. q.id) p k db.payments);
      entered = entries;
      of_payment = entry-OfPayment p fresh;
      keeps_keyed = λ h. rw payments (absent, h);
    } in
    let (a, c, r) = entry_delta p fresh in
    Writes-IsSound db db' p (authorization_entry? p fresh) sound writes
      (subst HasCoherentBalances (sym new)
        (terms_of_coherent command.amount command.payment_method_token fresh terms decided))
      (rw absent a)
      (rw absent (
        subst (λ q. q.captured_amount ≡ delta captured_part (authorization_entry? p fresh) +ℤ pos 0)
          (sym new) c))
      (rw absent (
        subst (λ q. q.refunded_amount ≡ delta refunded_part (authorization_entry? p fresh) +ℤ pos 0)
          (sym new) r))

authorize_at-IsSound :
    (digest : Dictionary → String) (others : Db → Db) (command : AuthorizationCommand)
    (key : String) (point : Option FailurePoint) (fresh : Fresh) (db : Db)
    → ((d : Db) → IsSound d → IsSound (others d))
    → IsSound db
    → IsSound (authorize_at digest others command key point fresh db).1
authorize_at-IsSound digest others command key point fresh db keep sound =
    go (authorize-EndsIn digest others key point fresh db command)
  where
    print : String
    print = digest (authorization_payload command)

    end : Db
    end = (authorize_at digest others command key point fresh db).1

    go :
        EndsIn
          (claim_idempotency_key key print "AUTHORIZE" fresh.now others db)
          (λ c d. stage_authorization command c point fresh d)
          db
          (others db)
          end
        → IsSound end
    go (inl same) = rw same sound
    go (inr (inl other)) = rw other (keep db sound)
    go (inr (inr (c, d, p, claimed, staged))) =
        stage_authorization-IsSound command c point fresh d p end
          (SameMoney-IsSound (others db) d
            (held-SameMoney key print "AUTHORIZE" fresh.now others db c d claimed) (keep db sound))
          staged

-- Whatever an authorization answers, and whatever other sessions that keep the invariant do
-- meanwhile, it keeps the invariant: balances fit statuses, and the ledger sums are the balances.
pub authorize-IsSound :
    (digest : Dictionary → String) (others : Db → Db) (command : AuthorizationCommand)
    (key : String) (point : Option FailurePoint) (clock : Reading) (fresh : Fresh) (db : Db)
    → ((d : Db) → IsSound d → IsSound (others d))
    → IsSound db
    → IsSound (authorize_payment digest others command key point clock fresh db).1
unfolding authorize_payment read_clock
authorize-IsSound digest others command key point (Reading.naive t) fresh db keep sound = sound
authorize-IsSound digest others command key point (Reading.aware t) fresh db keep sound =
    authorize_at-IsSound digest others command key point (record fresh { now = t }) db keep sound
