-- ===== src/Reconciliation/Import.antt =====
-- What the import of a settlement batch in services/reconciliation.py accepts.
use payment_platform_quality.Prelude.{
  ℕ, Bool, false, none, some, List, [], ◌∷◌, String, str_leb, ◌≡◌, ◌⊎◌, inl, inr, refl, arith,
  select, sort_by, insert_sorted, Bool-cases, All, Option-cases, ◌≤◌,
}
use payment_platform_quality.Failure.{
  Failure, ok, err, Result-cases, >>=-eq-ok, settlement_payment_not_found,
  settlement_payment_outside_cutoff,
}
use payment_platform_quality.Database.Types.{Payment}
use payment_platform_quality.Database.Store.{Db, find_payment}
use payment_platform_quality.Reconciliation.Batches.{
  SettlementInput, first, raise_first, ids_of, is_missing, is_outside, stage_batch,
  create_settlement_batch,
}

insert_sorted-first :
    (k : String) (ks : List String) → first (insert_sorted str_leb k ks) ≡ none → ⊥
insert_sorted-first k [] h = cc
insert_sorted-first k (j ∷ ks) h = elim (Bool-cases (str_leb k j)) [
  | inl before ↦ ground (arith, before, h)
  | inr after ↦ ground (arith, after, h)
]

-- No name was there to raise for.
raise_first_inv :
    (test : String → Bool) (names : List String) (failure : String → Failure)
    → raise_first (select test names) failure ≡ ok tt
    → All (λ k. test k ≡ false) names
unfolding sort_by
raise_first_inv test [] failure h = tt
raise_first_inv test (k ∷ names) failure h = elim (Bool-cases (test k)) [
  | inr other ↦ (other, raise_first_inv test names failure (ground (arith, other, h)))
  | inl raises ↦
      let rest = sort_by str_leb (select test names) in
      let h' : raise_first (k ∷ select test names) failure ≡ ok tt = ground (arith, raises, h) in
      elim (Option-cases (first (insert_sorted str_leb k rest))) [
        | inl gone ↦ absurd (insert_sorted-first k rest gone)
        | inr (j, found) ↦ absurd (ground (arith, found, h'))
      ]
]

-- A line of a batch names a stored payment that was created by the cutoff.
abbrev pub IsCovered : Db → ℕ → String → Type 0
IsCovered db cutoff k = (p : Payment) × (find_payment k db ≡ some p) × (p.created_at ≤ cutoff)

known-IsCovered :
    (db : Db) (cutoff : ℕ) (k : String)
    → is_missing db k ≡ false
    → is_outside db cutoff k ≡ false
    → IsCovered db cutoff k
known-IsCovered db cutoff k known timely = elim (Option-cases (find_payment k db)) [
  | inl gone ↦ absurd (ground (arith, known, gone))
  | inr (p, found) ↦ (p, found, ground (arith, timely, found))
]

All-IsCovered :
    (db : Db) (cutoff : ℕ) (ks : List String)
    → All (λ k. is_missing db k ≡ false) ks
    → All (λ k. is_outside db cutoff k ≡ false) ks
    → All (IsCovered db cutoff) ks
All-IsCovered db cutoff [] known timely = tt
All-IsCovered db cutoff (k ∷ ks) known timely =
    (known-IsCovered db cutoff k known.0 timely.0, All-IsCovered db cutoff ks known.1 timely.1)

-- An import either raises and leaves the database as it was, or every line that it was given names
-- a stored payment that was created by the cutoff.
pub import_atomic :
    (ids : ℕ → String) (batch_id : String) (now cutoff : ℕ) (entries : List SettlementInput)
    (db : Db)
    → ((e : Failure) × (create_settlement_batch ids batch_id now cutoff entries db ≡ (err e, db)))
      ⊎ All (IsCovered db cutoff) (ids_of entries)
unfolding create_settlement_batch stage_batch
import_atomic ids batch_id now cutoff entries db =
    elim (Result-cases (stage_batch ids batch_id now cutoff entries db)) [
      | inl (r, staged) ↦
          let known =
            >>=-eq-ok
              (raise_first (select (is_missing db) (ids_of entries)) settlement_payment_not_found) _
              staged in
          let timely =
            >>=-eq-ok
              (raise_first (select (is_outside db cutoff) (ids_of entries))
                settlement_payment_outside_cutoff)
              _ known.2 in
          inr (
            All-IsCovered db cutoff (ids_of entries)
              (raise_first_inv (is_missing db) (ids_of entries) settlement_payment_not_found
                known.1)
              (raise_first_inv (is_outside db cutoff) (ids_of entries)
                settlement_payment_outside_cutoff timely.1))
      | inr (e, raised) ↦ inl (e, rw raised refl)
    ]
