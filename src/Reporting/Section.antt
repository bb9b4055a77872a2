-- ===== src/Reporting/Section.antt =====
-- `confirmation_section` of services/confirmation_reporting.py.
use payment_platform_quality.Prelude.{
  ℕ, not, ◌&&◌, Option, none, some, [], String, leb, length, select, sort_by,
}
use payment_platform_quality.Failure.{
  Result, ok, err, lookup_error, value_error, integrity_error, ◌>>=◌, ◌>>◌, raise_if, or_raise,
}
use payment_platform_quality.Coordination.{Writer, begin_coordinated_write}
use payment_platform_quality.Database.Rows.{ConfirmationReport, Evidence}
use payment_platform_quality.Database.Tables.{is_some, find, insert}
use payment_platform_quality.Database.Store.{Db}
use payment_platform_quality.Reconciliation.Batches.{find_batch}
use payment_platform_quality.Reporting.Counters.{
  count_outcomes, no_outcomes, sum_outcomes, delayed_until, count_confirmations, no_dispositions,
  received_until, anomaly_order,
}

abbrev pub find_report : String → Db → Option ConfirmationReport
find_report k db = find (λ r. r.batch_id) k db.reports

-- The accepted receipts through the cutoff that are not completed.
abbrev pub pending_receipts : ℕ → Db → ℕ
pending_receipts cutoff db =
    length (select (λ r. leb r.received_at cutoff && not r.completed) db.receipts)

-- The dictionary `result`.
unfoldable pub gather_evidence : ℕ → ℕ → Db → Evidence
gather_evidence cutoff generated db =
    let outcomes = count_outcomes cutoff db (delayed_until cutoff db) no_outcomes in
    let counted = count_confirmations (received_until cutoff db) no_dispositions [] in
    record {
      cutoff = cutoff;
      generated_at = generated;
      basis = "effective_through_cutoff_known_at_generation";
      payment_count = sum_outcomes outcomes;
      payment_outcomes = outcomes;
      dispositions = counted.0;
      pending_receipt_count = pending_receipts cutoff db;
      observed_anomalies = sort_by anomaly_order counted.1;
      amount_notice =
          "Observed anomaly amounts are not money received and are excluded from settlement totals.";
    }

-- The foreign key to the batch, and the primary key.
unfoldable pub insert_report : ConfirmationReport → Db → Result Db
insert_report r db = do
  raise_if (not (is_some (find_batch r.batch_id db))) integrity_error
  rows ← insert (λ q. q.batch_id) r db.reports
  ok (record db { reports = rows })

-- The first generation, up to its commit. A clock that answers `none` has no time zone.
unfoldable pub generate : String → Option ℕ → Db → Result (Evidence × Db)
generate batch_id clock db = do
  batch ← or_raise (find_batch batch_id db) (lookup_error "Settlement batch does not exist")
  generated ← or_raise clock (value_error "Report clock must be timezone-aware")
  let result = gather_evidence batch.cutoff generated db
  saved ← insert_report (record { batch_id = batch_id; payload = result }) db
  ok (result, saved)

-- An exception rolls the transaction back.
abbrev pub saved_or_rolled_back : Db → Result (Evidence × Db) → Result Evidence × Db
saved_or_rolled_back db (ok (result, saved)) = (ok result, saved)
saved_or_rolled_back db (err e) = (err e, db)

unfoldable pub section_of :
    Option ConfirmationReport → String → Option ℕ → Db → Result Evidence × Db
section_of (some saved) batch_id clock db = (ok saved.payload, db)
section_of none batch_id clock db = saved_or_rolled_back db (generate batch_id clock db)

abbrev pub after_reservation : Result (Unit {0}) → String → Option ℕ → Db → Result Evidence × Db
after_reservation (err e) batch_id clock db = (err e, db)
after_reservation (ok done) batch_id clock db =
    section_of (find_report batch_id db) batch_id clock db

unfoldable pub confirmation_section : Writer → String → Option ℕ → Db → Result Evidence × Db
confirmation_section w batch_id clock db =
    after_reservation (begin_coordinated_write w) batch_id clock db
