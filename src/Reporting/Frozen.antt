-- ===== src/Reporting/Frozen.antt =====
-- What the confirmation section of services/confirmation_reporting.py guarantees.
use payment_platform_quality.Prelude.{
  ℕ, Option, none, some, String, eq_refl, ◌≡◌, inl, inr, refl, ◌∙◌, arith, Option-cases,
}
use mathlib.Core.Path.{subst}
use payment_platform_quality.Failure.{
  Failure, ok, lookup_error, value_error, >>=-eq-ok, Result-cases, ok-injective, or_raise,
}
use payment_platform_quality.Coordination.{Writer, begin_coordinated_write}
use payment_platform_quality.Database.Rows.{ConfirmationReport, Evidence, SettlementBatch}
use payment_platform_quality.Database.Tables.{find, insert}
use payment_platform_quality.Database.Store.{Db}
use payment_platform_quality.Reconciliation.Batches.{find_batch}
use payment_platform_quality.Reporting.Accounted.{Accounted, gather_evidence-Accounted}
use payment_platform_quality.Reporting.Section.{
  find_report, gather_evidence, insert_report, generate, section_of, confirmation_section,
}

gather_evidence_cutoff :
    (cutoff generated : ℕ) (db : Db) → (gather_evidence cutoff generated db).cutoff ≡ cutoff
unfolding gather_evidence
gather_evidence_cutoff cutoff generated db = refl

insert_report_found :
    (r : ConfirmationReport) (db db' : Db)
    → insert_report r db ≡ ok db'
    → find_report r.batch_id db' ≡ some r
unfolding insert_report insert find
insert_report_found r db db' h = ground (arith, h, eq_refl r.batch_id)

-- A first report: it is about the cutoff of its batch, and its counters add up.
abbrev pub IsFirstReport : String → Db → Evidence → Type 0
IsFirstReport batch_id db r =
    (b : SettlementBatch) × (find_batch batch_id db ≡ some b)
    × (r.cutoff ≡ b.cutoff)
    × Accounted r db

or_raise-ok : {A : Type 0} (o : Option A) (e : Failure) (a : A) → or_raise o e ≡ ok a → o ≡ some a
or_raise-ok none e a h = cc
or_raise-ok (some b) e a h = rw (ok-injective h) refl

generate-IsFirstReport :
    (batch_id : String) (clock : Option ℕ) (db : Db) (r : Evidence) (db' : Db)
    → generate batch_id clock db ≡ ok (r, db')
    → (find_report batch_id db' ≡ some (record { batch_id = batch_id; payload = r }))
      × IsFirstReport batch_id db r
unfolding generate
generate-IsFirstReport batch_id clock db r db' h =
    let missing = lookup_error "Settlement batch does not exist" in
    let naive = value_error "Report clock must be timezone-aware" in
    let batch = >>=-eq-ok (or_raise (find_batch batch_id db) missing) _ h in
    let generated = >>=-eq-ok (or_raise clock naive) _ batch.2 in
    let result = gather_evidence batch.0.cutoff generated.0 db in
    let row : ConfirmationReport = record { batch_id = batch_id; payload = result } in
    let inserted = >>=-eq-ok (insert_report row db) _ generated.2 in
    let found = insert_report_found row db inserted.0 inserted.1 in
    subst
      (λ (q : Evidence × Db).
        (find_report batch_id q.1 ≡ some (record { batch_id = batch_id; payload = q.0 }))
        × IsFirstReport batch_id db q.0)
      (ok-injective inserted.2)
      (
        found,
        (
          batch.0,
          or_raise-ok (find_batch batch_id db) missing batch.0 batch.1,
          gather_evidence_cutoff batch.0.cutoff generated.0 db,
          gather_evidence-Accounted batch.0.cutoff generated.0 db,
        ),
      )

-- What a call that returned leaves: a saved report that holds the result.
confirmation_section-saved :
    (w : Writer) (batch_id : String) (clock : Option ℕ) (db : Db) (r : Evidence) (db' : Db)
    → confirmation_section w batch_id clock db ≡ (ok r, db')
    → ((saved : ConfirmationReport) × (find_report batch_id db' ≡ some saved) × (saved.payload ≡ r))
      × (find_report batch_id db ≡ none → IsFirstReport batch_id db r)
unfolding confirmation_section section_of
confirmation_section-saved w batch_id clock db r db' h =
    elim (Result-cases (begin_coordinated_write w)) [
      | inr (e, refused) ↦ absurd (ground (arith, h, refused))
      | inl (done, reserved) ↦ elim (Option-cases (find_report batch_id db)) [
        | inr (saved, found) ↦ (
          (saved, ground (arith, h, reserved, found), ground (arith, h, reserved, found)),
          λ unsaved. absurd (ground (arith, found, unsaved)),
        )
        | inl unsaved ↦ elim (Result-cases (generate batch_id clock db)) [
          | inr (e, raised) ↦ absurd (ground (arith, h, reserved, unsaved, raised))
          | inl ((result, staged), generated) ↦
              let same : generate batch_id clock db ≡ ok (r, db') =
                ground (arith, h, reserved, unsaved, generated) in
              let facts = generate-IsFirstReport batch_id clock db r db' same in
              ((_, facts.0, refl), λ q. facts.1)
        ]
      ]
    ]

-- Once a section has been returned for a batch, each later call for the batch returns the same
-- evidence and writes nothing, whatever its clock says and however the other tables have changed,
-- as long as the saved report is there and the writer is admitted.
pub confirmation_section_frozen :
    (w later : Writer) (batch_id : String) (clock later_clock : Option ℕ) (db : Db) (r : Evidence)
    (db' later_db : Db)
    → confirmation_section w batch_id clock db ≡ (ok r, db')
    → begin_coordinated_write later ≡ ok tt
    → find_report batch_id later_db ≡ find_report batch_id db'
    → confirmation_section later batch_id later_clock later_db ≡ (ok r, later_db)
unfolding confirmation_section section_of
confirmation_section_frozen w later batch_id clock later_clock db r db' later_db h admitted kept =
    let facts = confirmation_section-saved w batch_id clock db r db' h in
    let there = kept ∙ facts.0.1 in rw (admitted, there, facts.0.2) refl

-- A section that is generated for a batch without a saved report is about the batch's cutoff, and
-- accounts for everything through it: each outcome counts exactly the delayed payments that were
-- created by the cutoff and have this outcome by their events until then, each disposition exactly
-- the confirmations with it that were received by the cutoff, and for each currency and
-- disposition the anomalies have the number and the sum of the amounts of exactly those of them
-- that were not applied.
pub confirmation_section_accounts :
    (w : Writer) (batch_id : String) (clock : Option ℕ) (db : Db) (r : Evidence) (db' : Db)
    → find_report batch_id db ≡ none
    → confirmation_section w batch_id clock db ≡ (ok r, db')
    → IsFirstReport batch_id db r
confirmation_section_accounts w batch_id clock db r db' unsaved h =
    (confirmation_section-saved w batch_id clock db r db' h).1 unsaved
