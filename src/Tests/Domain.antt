-- ===== src/Tests/Domain.antt =====
-- Examples for the theorems on the operations of a payment, and for the summary of a report.
use payment_platform_quality.Prelude.{
  Bool, ℤ, pos, ◌+ℤ◌, ◌≤ℤ◌, some, List, [], ◌∷◌, ◌≡◌, ◌↔◌, refl, inl, inr, arith, All,
}
use payment_platform_quality.Domain.Types.{Currency, PaymentStatus, PaymentState}
use payment_platform_quality.Domain.Operations.{payment_state, capture}
use payment_platform_quality.Domain.Coherence.{
  IsCoherent, Call, perform, Accepts, after, perform_exact,
}
use payment_platform_quality.Domain.Graph.{◌⟶◌, perform-⟶, run, run-IsFinal}
use payment_platform_quality.Domain.Refunds.{refund_all, refund_all_conserves}
use payment_platform_quality.Failure.{ok}
use payment_platform_quality.Reconciliation.Totals.{SettlementClassification}
use payment_platform_quality.Reconciliation.Sources.{ReconciliationItem, SourceCheckStatus}
use payment_platform_quality.Reconciliation.Report.{ReconciliationStatus, summarize}
use payment_platform_quality.Reconciliation.Outcome.{AllAgree, summary_matched}

abbrev held : PaymentState
held = record {
  status = PaymentStatus.authorized;
  authorized_amount = pos 500;
  captured_amount = pos 0;
  refunded_amount = pos 0;
}

abbrev taken : PaymentState
taken = record held { status = PaymentStatus.captured; captured_amount = pos 500 }

abbrev returned : PaymentState
returned = record taken { status = PaymentStatus.refunded; refunded_amount = pos 500 }

held-IsCoherent : IsCoherent held
held-IsCoherent = ground arith

taken-IsCoherent : IsCoherent taken
taken-IsCoherent = ground arith

captures_run : perform held Call.call_capture ≡ ok taken
unfolding perform capture payment_state
captures_run = refl

perform_exact_example : (perform taken (Call.call_refund (pos 500)) ≡ ok returned) ↔ (
    Accepts taken (Call.call_refund (pos 500))
    × (returned ≡ after taken (Call.call_refund (pos 500))))
perform_exact_example = perform_exact taken returned (Call.call_refund (pos 500)) taken-IsCoherent

perform-⟶_example : PaymentStatus.authorized ⟶ PaymentStatus.captured
perform-⟶_example = perform-⟶ held taken Call.call_capture captures_run

run-IsFinal_example : run returned (Call.call_capture ∷ Call.call_refund (pos 1) ∷ []) ≡ returned
run-IsFinal_example =
    run-IsFinal returned (Call.call_capture ∷ Call.call_refund (pos 1) ∷ []) (inr (inl refl))

funds : pos 1 ≤ℤ pos 500
funds = ground arith

abbrev tries : List ℤ
tries = pos 200 ∷ pos 400 ∷ pos 300 ∷ []

refund_all_conserves_example :
    let (t, paid) = refund_all taken (pos 0) tries in
    (t.refunded_amount ≡ pos 0 +ℤ paid)
    × (pos 0 +ℤ paid ≤ℤ pos 500)
    × (t.captured_amount ≡ pos 500)
    × ((t.status ≡ PaymentStatus.refunded) ↔ (t.refunded_amount ≡ pos 500))
refund_all_conserves_example = refund_all_conserves taken tries taken-IsCoherent funds

abbrev item : SettlementClassification → ReconciliationItem
item c = record {
  payment_id = "pay-1";
  merchant_reference = "order-1";
  currency = Currency.usd;
  expected_settlement_amount = pos 500;
  settlement_classification = c;
  settlement_record_count = 1;
  observed_settlement_amounts = pos 500 ∷ [];
  observed_settlement_currencies = Currency.usd ∷ [];
  item_ledger_status = SourceCheckStatus.matched;
  payment_authorized_amount = pos 500;
  ledger_authorized_amount = pos 500;
  payment_captured_amount = pos 500;
  ledger_captured_amount = pos 500;
  payment_refunded_amount = pos 0;
  ledger_refunded_amount = pos 0;
  item_projection_status = SourceCheckStatus.matched;
  expected_projection_version = 2;
  observed_projection_version = some 2;
  latest_event_processed = Bool.true;
}

abbrev items : List ReconciliationItem
items = item SettlementClassification.matched ∷ item SettlementClassification.duplicated ∷ []

summary_matched_example :
    ((summarize items).status ≡ ReconciliationStatus.matched) ↔ All AllAgree items
summary_matched_example = summary_matched items
