-- ===== src/Reconciliation/Matching.antt =====
-- The totals that services/reconciliation.py computes from the ledger are the balances of the
-- payments that the other services write.
use payment_platform_quality.Prelude.{
  ℤ, pos, ◌+ℤ◌, none, some, List, [], ◌∷◌, String, str_eq, select, sort_by, insert_sorted, ◌≡◌,
  refl, ap, ◌∙◌, arith, int_laws, inl, inr, Bool-cases,
}
use payment_platform_quality.Database.Types.{Payment, LedgerEntry}
use payment_platform_quality.Database.Store.{Db, find_payment}
use payment_platform_quality.Ledger.Sums.{
  authorized_part, captured_part, refunded_part, sum_of, authorized_of, captured_of, refunded_of,
}
use payment_platform_quality.Ledger.Sound.{IsSound}
use payment_platform_quality.Reconciliation.Totals.{
  LedgerTotals, add_amount, add_entries, calculate_ledger_totals,
}
use payment_platform_quality.Reconciliation.Sources.{
  SourceCheckStatus, ledger_status, entry_order, entries_of,
}

-- The sum of one part over a list of entries, whoever they are of.
unfoldable total_of : (String → ℤ → ℤ) → List LedgerEntry → ℤ
total_of part [] = pos 0
total_of part (e ∷ rows) = part e.operation e.amount +ℤ total_of part rows

totals_eq :
    (t : LedgerTotals) {a c r : ℤ}
    → t.authorized ≡ a
    → t.captured ≡ c
    → t.refunded ≡ r
    → t ≡ record { authorized = a; captured = c; refunded = r }
totals_eq t a c r = rw (← a, ← c, ← r) refl

module _ (operation : String) (x : ℤ) (t : LedgerTotals) where
  add_amount_authorized :
      (add_amount operation x t).authorized ≡ t.authorized +ℤ authorized_part operation x
  add_amount_authorized = grind (arith, int_laws)

  add_amount_captured :
      (add_amount operation x t).captured ≡ t.captured +ℤ captured_part operation x
  add_amount_captured = grind (arith, int_laws)

  add_amount_refunded :
      (add_amount operation x t).refunded ≡ t.refunded +ℤ refunded_part operation x
  add_amount_refunded = grind (arith, int_laws)

add_entries_total :
    (entries : List LedgerEntry) (t : LedgerTotals)
    → add_entries none entries t ≡ record {
      authorized = t.authorized +ℤ total_of authorized_part entries;
      captured = t.captured +ℤ total_of captured_part entries;
      refunded = t.refunded +ℤ total_of refunded_part entries;
    }
unfolding add_entries total_of
add_entries_total [] t = totals_eq t (omega int_laws) (omega int_laws) (omega int_laws)
add_entries_total (e ∷ entries) t =
    let a = add_amount_authorized e.operation e.amount t in
    let c = add_amount_captured e.operation e.amount t in
    let r = add_amount_refunded e.operation e.amount t in
    add_entries_total entries (add_amount e.operation e.amount t)
    ∙ totals_eq
        (record {
          authorized =
              (add_amount e.operation e.amount t).authorized +ℤ total_of authorized_part entries;
          captured = (add_amount e.operation e.amount t).captured +ℤ total_of captured_part entries;
          refunded = (add_amount e.operation e.amount t).refunded +ℤ total_of refunded_part entries;
        })
        (ap (λ y. y +ℤ total_of authorized_part entries) a ∙ omega int_laws)
        (ap (λ y. y +ℤ total_of captured_part entries) c ∙ omega int_laws)
        (ap (λ y. y +ℤ total_of refunded_part entries) r ∙ omega int_laws)

total_of-insert_sorted :
    (part : String → ℤ → ℤ) (e : LedgerEntry) (rows : List LedgerEntry)
    → total_of part (insert_sorted entry_order e rows)
      ≡ part e.operation e.amount +ℤ total_of part rows
unfolding total_of
total_of-insert_sorted part e [] = refl
total_of-insert_sorted part e (f ∷ rows) = elim (Bool-cases (entry_order e f)) [
  | inl first ↦ rw first refl
  | inr later ↦ rw (later, total_of-insert_sorted part e rows) (omega int_laws)
]

total_of-sort_by :
    (part : String → ℤ → ℤ) (rows : List LedgerEntry)
    → total_of part (sort_by entry_order rows) ≡ total_of part rows
unfolding total_of sort_by
total_of-sort_by part [] = refl
total_of-sort_by part (e ∷ rows) =
    total_of-insert_sorted part e (sort_by entry_order rows)
    ∙ ap (λ x. part e.operation e.amount +ℤ x) (total_of-sort_by part rows)

total_of-select :
    (part : String → ℤ → ℤ) (k : String) (rows : List LedgerEntry)
    → total_of part (select (λ e. str_eq e.payment_id k) rows) ≡ sum_of part k rows
unfolding total_of sum_of
total_of-select part k [] = refl
total_of-select part k (e ∷ rows) = elim (Bool-cases (str_eq e.payment_id k)) [
  | inl same ↦ rw (same, total_of-select part k rows) refl
  | inr other ↦ rw (other, total_of-select part k rows) refl
]

-- For a sound database the loop over the entries of an identifier, in the order of the query,
-- computes the balances of its payment.
pub totals-balances :
    (db : Db) (k : String)
    → IsSound db
    → calculate_ledger_totals none (entries_of k db) ≡ record {
      authorized = authorized_of (find_payment k db);
      captured = captured_of (find_payment k db);
      refunded = refunded_of (find_payment k db);
    }
unfolding calculate_ledger_totals entries_of
totals-balances db k sound =
    let rows = select (λ e. str_eq e.payment_id k) db.ledger_entries in
    let sums = (λ (part : String → ℤ → ℤ).
      total_of-sort_by part rows ∙ total_of-select part k db.ledger_entries) in
    add_entries_total (sort_by entry_order rows)
      (record { authorized = pos 0; captured = pos 0; refunded = pos 0 })
    ∙ totals_eq
        (record {
          authorized = pos 0 +ℤ total_of authorized_part (sort_by entry_order rows);
          captured = pos 0 +ℤ total_of captured_part (sort_by entry_order rows);
          refunded = pos 0 +ℤ total_of refunded_part (sort_by entry_order rows);
        })
        (ap (λ y. pos 0 +ℤ y) (sums authorized_part ∙ sound.authorized k) ∙ omega int_laws)
        (ap (λ y. pos 0 +ℤ y) (sums captured_part ∙ sound.captured k) ∙ omega int_laws)
        (ap (λ y. pos 0 +ℤ y) (sums refunded_part ∙ sound.refunded k) ∙ omega int_laws)

-- The reconciliation of a payment that is found in a sound database reports its ledger as matched.
pub sound_ledger_matches :
    (db : Db) (k : String) (p : Payment)
    → IsSound db
    → find_payment k db ≡ some p
    → ledger_status p (calculate_ledger_totals none (entries_of k db)) ≡ SourceCheckStatus.matched
unfolding ledger_status
sound_ledger_matches db k p sound found = rw (totals-balances db k sound, found) (ground arith)
