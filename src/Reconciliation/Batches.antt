-- ===== src/Reconciliation/Batches.antt =====
-- Settlement batches of services/reconciliation.py: their import, and the report on one of them.
use payment_platform_quality.Prelude.{
  ℕ, suc, ℤ, Bool, false, not, ◌&&◌, ◌||◌, Option, none, some, List, [], ◌∷◌, String, str_eq,
  str_leb, ltb, ◌==◌, select, sort_by,
}
use payment_platform_quality.Domain.Types.{Currency}
use payment_platform_quality.Failure.{
  Failure, Result, ok, err, integrity_error, settlement_batch_not_found,
  settlement_payment_not_found, settlement_payment_outside_cutoff, ◌>>=◌, ◌>>◌, raise_if,
}
use payment_platform_quality.Database.Types.{Payment}
use payment_platform_quality.Database.Rows.{SettlementBatch, SettlementRow}
use payment_platform_quality.Database.Tables.{is_some, find, insert}
use payment_platform_quality.Database.Checks.{settlement_checks}
use payment_platform_quality.Database.Store.{Db, find_payment}
use payment_platform_quality.Reconciliation.Totals.{by_line}

pub record SettlementInput : Type 0 where
  pub payment_id : String
  pub amount : ℤ
  pub currency : Currency

abbrev pub find_batch : String → Db → Option SettlementBatch
find_batch k db = find (λ b. b.id) k db.batches

abbrev pub first : List String → Option String
first [] = none
first (k ∷ ks) = some k

-- `if names: raise failure(names[0])`, on the sorted names
abbrev pub raise_first : List String → (String → Failure) → Result (Unit {0})
raise_first names failure = elim (first (sort_by str_leb names)) [
  | none ↦ ok tt
  | some k ↦ err (failure k)
]

abbrev pub ids_of : List SettlementInput → List String
ids_of [] = []
ids_of (i ∷ entries) = i.payment_id ∷ ids_of entries

abbrev pub is_missing : Db → String → Bool
is_missing db k = not (is_some (find_payment k db))

abbrev pub created_after : ℕ → Option Payment → Bool
created_after cutoff none = false
created_after cutoff (some p) = ltb cutoff p.created_at

abbrev pub is_outside : Db → ℕ → String → Bool
is_outside db cutoff k = created_after cutoff (find_payment k db)

-- `uq_settlement_batch_line`
unfoldable pub line_taken : String → ℕ → List SettlementRow → Bool
line_taken k n [] = false
line_taken k n (r ∷ rows) = (str_eq r.batch_id k && (r.line_number == n)) || line_taken k n rows

unfoldable pub insert_batch : SettlementBatch → Db → Result Db
insert_batch b db = do rows ← insert (λ q. q.id) b db.batches; ok (record db { batches = rows })

unfoldable pub insert_settlement : SettlementRow → Db → Result Db
insert_settlement r db = do
  raise_if
      (not (settlement_checks r)
        || not (is_some (find_batch r.batch_id db))
        || line_taken r.batch_id r.line_number db.settlements)
      integrity_error
  rows ← insert (λ q. q.id) r db.settlements
  ok (record db { settlements = rows })

-- The loop over the lines, from line `n` on; `ids` are what `uuid4` gives.
unfoldable pub insert_lines : (ℕ → String) → String → ℕ → ℕ → List SettlementInput → Db → Result Db
insert_lines ids batch_id now n [] db = ok db
insert_lines ids batch_id now n (i ∷ entries) db = do
  next ←
      insert_settlement
        (record {
          id = ids n;
          batch_id = batch_id;
          payment_id = i.payment_id;
          line_number = n;
          amount = i.amount;
          currency = i.currency;
          created_at = now;
        })
        db
  insert_lines ids batch_id now (suc n) entries next

unfoldable pub stage_batch :
    (ℕ → String) → String → ℕ → ℕ → List SettlementInput → Db → Result (SettlementBatch × Db)
stage_batch ids batch_id now cutoff entries db = do
  raise_first (select (is_missing db) (ids_of entries)) settlement_payment_not_found
  raise_first (select (is_outside db cutoff) (ids_of entries)) settlement_payment_outside_cutoff
  let batch : SettlementBatch = record { id = batch_id; cutoff = cutoff; created_at = now }
  with_batch ← insert_batch batch db
  staged ← insert_lines ids batch_id now 1 entries with_batch
  ok (batch, staged)

abbrev pub imported : Db → Result (SettlementBatch × Db) → Result SettlementBatch × Db
imported db (ok (batch, staged)) = (ok batch, staged)
imported db (err e) = (err e, db)

unfoldable pub create_settlement_batch :
    (ℕ → String) → String → ℕ → ℕ → List SettlementInput → Db → Result SettlementBatch × Db
create_settlement_batch ids batch_id now cutoff entries db =
    imported db (stage_batch ids batch_id now cutoff entries db)

unfoldable pub get_settlement_records : String → Db → Result (List SettlementRow)
get_settlement_records batch_id db = do
  raise_if (not (is_some (find_batch batch_id db))) (settlement_batch_not_found batch_id)
  ok (sort_by by_line (select (λ r. str_eq r.batch_id batch_id) db.settlements))
