-- ===== src/Ledger/Operations.antt =====
-- Capture, cancellation and refund keep the invariant of payments and ledger.
use payment_platform_quality.Prelude.{
  ℤ, ◌+ℤ◌, Option, some, List, ◌≡◌, ◌∙◌, sym, refl, ap, String, eq_refl, arith, inl, inr,
  Bool-cases, Option-cases, suc,
}
use mathlib.Core.Path.{subst}
use payment_platform_quality.Domain.Types.{PaymentOperation}
use payment_platform_quality.Domain.Coherence.{IsCoherent}
use payment_platform_quality.Failure.{FailurePoint, ok}
use payment_platform_quality.Database.Types.{Payment, IdempotencyRecord}
use payment_platform_quality.Database.Tables.{find, is_some, find_key, find-replace, Keyed-replace}
use payment_platform_quality.Database.Store.{Db, find_payment}
use payment_platform_quality.Ledger.Sums.{
  delta, authorized_part, captured_part, refunded_part, authorized_of, captured_of, refunded_of,
}
use payment_platform_quality.Ledger.Sound.{
  IsSound, HasCoherentBalances, Writes, Writes-IsSound, OfPayment,
}
use payment_platform_quality.Payments.Commands.{
  LifecycleCommand, Dictionary, lifecycle_payload, operation_value, Fresh,
}
use payment_platform_quality.Payments.Claims.{claim_idempotency_key}
use payment_platform_quality.Payments.Lifecycle.{
  get_payment, is_unpaid_cancel, stage_lifecycle, apply_lifecycle_operation,
}
use payment_platform_quality.Payments.Endings.{EndsIn, lifecycle-EndsIn}
use payment_platform_quality.Payments.Effects.{
  held-SameMoney, lifecycle_entry?, stage_lifecycle_effect,
}
use payment_platform_quality.Ledger.Authorization.{SameMoney-IsSound}
use payment_platform_quality.Ledger.Growth.{next_of-Grows, state_of_fields}

lifecycle-OfPayment :
    (operation : PaymentOperation) (amount : ℤ) (p q : Payment) (fresh : Fresh)
    → q.id ≡ p.id
    → OfPayment q (lifecycle_entry? operation amount p fresh)
lifecycle-OfPayment operation amount p q fresh same =
    elim (Bool-cases (is_unpaid_cancel operation p.status)) [
      | inl unpaid ↦ rw unpaid tt
      | inr paid ↦ rw paid (sym same)
    ]

-- An object that the session has loaded, where it has the version of the stored row, is that
-- row: rows change only with their version.
abbrev pub IsCurrent : List Payment → Db → Type 0
IsCurrent loaded db =
    (k : String) (p row : Payment)
    → find (λ q. q.id) k loaded ≡ some p
    → find_payment k db ≡ some row
    → row.version ≡ p.version
    → p ≡ row

-- The payment that an operation has read, if its version could be replaced, is the stored row.
read_is_row :
    (loaded : List Payment) (k : String) (db : Db) (p row : Payment)
    → IsCurrent loaded db
    → get_payment loaded k db ≡ ok p
    → find_payment p.id db ≡ some row
    → row.version ≡ p.version
    → p ≡ row
unfolding get_payment
read_is_row loaded k db p row current h found same =
    elim (Option-cases (find (λ q. q.id) k loaded)) [
      | inr (q, cached) ↦
          let e : q ≡ p = ground arith in
          let id : q.id ≡ k = find_key (λ r. r.id) k q loaded cached in
          current k p row (cached ∙ ap some e)
            (ap (λ j. find_payment j db) (sym id ∙ ap (λ r. r.id) e) ∙ found) same
      | inl absent ↦
          let stored : find_payment k db ≡ some p = ground arith in
          let id : p.id ≡ k = find_key (λ r. r.id) k p db.payments stored in cc (id, stored, found)
    ]

stage_lifecycle-IsSound :
    (loaded : List Payment) (command : LifecycleCommand) (claim : IdempotencyRecord)
    (point : Option FailurePoint) (fresh : Fresh) (db : Db) (p : Payment) (db' : Db)
    → IsCurrent loaded db
    → IsSound db
    → stage_lifecycle loaded command claim point fresh db ≡ ok (p, db')
    → IsSound db'
stage_lifecycle-IsSound loaded command claim point fresh db p db' current sound h =
    let eff = stage_lifecycle_effect loaded command claim point fresh db p db' h in
    let (row, stored, same) = eff.replaced in
    let fresh_read : eff.read ≡ row =
      read_is_row loaded command.payment_id db eff.read row current eff.was_read stored same in
    let found : find_payment eff.read.id db ≡ some eff.read = stored ∙ ap some (sym fresh_read) in
    let fields = state_of_fields eff.read eff.current eff.was_state in
    let id : p.id ≡ eff.read.id = ap (λ r. r.id) eff.result in
    let found' : find_payment p.id db ≡ some eff.read = ap (λ k. find_payment k db) id ∙ found in
    let entry = lifecycle_entry? command.operation eff.amount eff.read fresh in
    let grown =
      next_of-Grows command.operation command.amount eff.read.id db eff.read fresh eff.current
        eff.next eff.amount
        (subst IsCoherent (sym fields) (sound.coherent eff.read.id eff.read found))
        eff.was_decided in
    let writes : Writes db db' p entry = record {
      found = λ k. rw eff.payments (find-replace (λ r. r.id) p k db.payments (ap is_some found'));
      entered = eff.entries;
      of_payment = lifecycle-OfPayment command.operation eff.amount eff.read p fresh id;
      keeps_keyed = λ k. rw eff.payments (Keyed-replace (λ r. r.id) p db.payments k);
    } in
    Writes-IsSound db db' p entry sound writes (subst HasCoherentBalances (sym eff.result) grown.0)
      (ap (λ r. r.authorized_amount) eff.result
        ∙ grown.1
        ∙ ap (λ x. delta authorized_part entry +ℤ x)
            (ap (λ s. s.authorized_amount) fields ∙ sym (ap authorized_of found')))
      (ap (λ r. r.captured_amount) eff.result
        ∙ grown.2
        ∙ ap (λ x. delta captured_part entry +ℤ x)
            (ap (λ s. s.captured_amount) fields ∙ sym (ap captured_of found')))
      (ap (λ r. r.refunded_amount) eff.result
        ∙ grown.3
        ∙ ap (λ x. delta refunded_part entry +ℤ x)
            (ap (λ s. s.refunded_amount) fields ∙ sym (ap refunded_of found')))

-- Whatever a capture, a cancellation or a refund answers, with any failure point and whatever
-- other sessions that keep the invariant do meanwhile, it keeps the invariant: balances fit
-- statuses, and the ledger sums of every payment are its balances. The session may have loaded
-- payments before, if those whose version is still stored are the stored rows.
pub lifecycle-IsSound :
    (digest : Dictionary → String) (others : Db → Db) (loaded : List Payment)
    (command : LifecycleCommand) (key : String) (point : Option FailurePoint) (fresh : Fresh)
    (db : Db)
    → IsCurrent loaded (others db)
    → ((d : Db) → IsSound d → IsSound (others d))
    → IsSound db
    → IsSound (apply_lifecycle_operation digest others loaded command key point fresh db).1
lifecycle-IsSound digest others loaded command key point fresh db current keep sound =
    go (lifecycle-EndsIn digest others key point fresh db loaded command)
  where
    print : String
    print = digest (lifecycle_payload command)

    operation : String
    operation = operation_value command.operation

    end : Db
    end = (apply_lifecycle_operation digest others loaded command key point fresh db).1

    go :
        EndsIn
          (claim_idempotency_key key print operation fresh.now others db)
          (λ c d. stage_lifecycle loaded command c point fresh d)
          db
          (others db)
          end
        → IsSound end
    go (inl same) = rw same sound
    go (inr (inl other)) = rw other (keep db sound)
    go (inr (inr (c, d, p, claimed, staged))) =
        let same = held-SameMoney key print operation fresh.now others db c d claimed in
        stage_lifecycle-IsSound loaded command c point fresh d p end
          (λ k q row cached stored version.
            current k q row cached (rw same.payments at stored) version)
          (SameMoney-IsSound (others db) d same (keep db sound)) staged

-- Staged work of a lifecycle call that succeeds has replaced exactly the version that it read: the
-- object that the session works from, also one that it has loaded before, has the version of the
-- stored row, the answer is one version on, and it is the row afterwards. So no update is lost.
pub lifecycle_version :
    (loaded : List Payment) (command : LifecycleCommand) (claim : IdempotencyRecord)
    (point : Option FailurePoint) (fresh : Fresh) (db : Db) (p : Payment) (db' : Db)
    → stage_lifecycle loaded command claim point fresh db ≡ ok (p, db')
    → (read : Payment) × (row : Payment) × (get_payment loaded command.payment_id db ≡ ok read)
      × (find_payment p.id db ≡ some row)
      × (row.version ≡ read.version)
      × (p.version ≡ suc read.version)
      × (find_payment p.id db' ≡ some p)
lifecycle_version loaded command claim point fresh db p db' h =
    let eff = stage_lifecycle_effect loaded command claim point fresh db p db' h in
    let (row, stored, same) = eff.replaced in
    let id : p.id ≡ eff.read.id = ap (λ r. r.id) eff.result in
    let stored' : find_payment p.id db ≡ some row = ap (λ k. find_payment k db) id ∙ stored in
    (
      eff.read,
      row,
      eff.was_read,
      stored',
      same,
      ap (λ r. r.version) eff.result,
      rw (eff.payments, find-replace (λ r. r.id) p p.id db.payments (ap is_some stored'), eq_refl)
          refl,
    )
