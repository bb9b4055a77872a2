-- ===== src/Ledger/Sound.antt =====
-- The invariant of payments and ledger, and the rule for a step that writes one payment.
use payment_platform_quality.Prelude.{
  ℤ, ◌+ℤ◌, Option, none, some, List, String, str_eq, if◌then◌else◌, eq_iff, ◌≡◌, arith, int_laws,
  Bool-cases, inl, inr, refl, ◌∙◌, sym, ap,
}
use payment_platform_quality.Domain.Coherence.{BalancesAt}
use payment_platform_quality.Database.Types.{LedgerEntry, Payment}
use payment_platform_quality.Database.Tables.{Keyed}
use payment_platform_quality.Database.Store.{Db, find_payment}
use payment_platform_quality.Ledger.Sums.{
  authorized_part, captured_part, refunded_part, sum_of, add_entry, delta, authorized_of,
  captured_of, refunded_of,
}

abbrev pub HasCoherentBalances : Payment → Type 0
HasCoherentBalances p = BalancesAt p.status p.authorized_amount p.captured_amount p.refunded_amount

-- Payments have different identifiers; every payment has balances that fit its status, and the ledger sums of every identifier are
-- the balances of its payment, or zero where there is none.
pub record IsSound (db : Db) : Type 0 where
  pub keyed : Keyed (λ p. p.id) db.payments
  pub coherent : (k : String) (p : Payment) → find_payment k db ≡ some p → HasCoherentBalances p
  pub authorized :
      (k : String) → sum_of authorized_part k db.ledger_entries ≡ authorized_of (find_payment k db)
  pub captured :
      (k : String) → sum_of captured_part k db.ledger_entries ≡ captured_of (find_payment k db)
  pub refunded :
      (k : String) → sum_of refunded_part k db.ledger_entries ≡ refunded_of (find_payment k db)

abbrev pub OfPayment : Payment → Option LedgerEntry → Type 0
OfPayment p none = Unit
OfPayment p (some e) = e.payment_id ≡ p.id

-- A step that writes payment `p`, new or changed, and at most one ledger entry for it.
pub record Writes (db db' : Db) (p : Payment) (entry : Option LedgerEntry) : Type 0 where
  pub found :
      (k : String) → find_payment k db' ≡ (if str_eq p.id k then some p else find_payment k db)
  pub entered : db'.ledger_entries ≡ add_entry entry db.ledger_entries
  pub of_payment : OfPayment p entry
  pub keeps_keyed : Keyed (λ q. q.id) db.payments → Keyed (λ q. q.id) db'.payments

sum_of-add_entry :
    (part : String → ℤ → ℤ) (k : String) (p : Payment) (entry : Option LedgerEntry)
    (rows : List LedgerEntry)
    → OfPayment p entry
    → sum_of part k (add_entry entry rows)
      ≡ (if str_eq p.id k then delta part entry +ℤ sum_of part k rows else sum_of part k rows)
unfolding sum_of
sum_of-add_entry part k p none rows o = elim (Bool-cases (str_eq p.id k)) [
  | inl same ↦ rw same (omega int_laws)
  | inr other ↦ rw other refl
]
sum_of-add_entry part k p (some e) rows o = rw o refl

module _ (db db' : Db) (p : Payment) (entry : Option LedgerEntry) (sound : IsSound db)
    (w : Writes db db' p entry) where
  -- One sum, for a part and the balance that it should be.
  sum_step :
      (part : String → ℤ → ℤ) (balance : Option Payment → ℤ)
      → ((k : String) → sum_of part k db.ledger_entries ≡ balance (find_payment k db))
      → balance (some p) ≡ delta part entry +ℤ balance (find_payment p.id db)
      → (k : String) → sum_of part k db'.ledger_entries ≡ balance (find_payment k db')
  sum_step part balance old grown k =
      rw (w.entered, sum_of-add_entry part k p entry db.ledger_entries w.of_payment, w.found k)
        (elim (Bool-cases (str_eq p.id k)) [
          | inl same ↦
              let here : p.id ≡ k = (eq_iff p.id k).0 same in
              rw same (
                ap (λ x. delta part entry +ℤ x)
                  (old k ∙ ap (λ j. balance (find_payment j db)) (sym here))
                ∙ sym grown)
          | inr other ↦ rw other (old k)
        ])

  -- The step keeps the invariant, if the balances that it writes fit the status and have grown by
  -- what its entry adds.
  pub Writes-IsSound :
      HasCoherentBalances p
      → p.authorized_amount ≡ delta authorized_part entry +ℤ authorized_of (find_payment p.id db)
      → p.captured_amount ≡ delta captured_part entry +ℤ captured_of (find_payment p.id db)
      → p.refunded_amount ≡ delta refunded_part entry +ℤ refunded_of (find_payment p.id db)
      → IsSound db'
  Writes-IsSound fits a c r = record {
    keyed = w.keeps_keyed sound.keyed;
    coherent = λ k q e. ground (arith, w.found k, sound.coherent k q, e);
    authorized = sum_step authorized_part authorized_of sound.authorized a;
    captured = sum_step captured_part captured_of sound.captured c;
    refunded = sum_step refunded_part refunded_of sound.refunded r;
  }
