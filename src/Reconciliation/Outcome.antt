-- ===== src/Reconciliation/Outcome.antt =====
-- What the summary of services/reconciliation.py says of the items.
use payment_platform_quality.Prelude.{
  true, false, List, [], ◌∷◌, all_true, count_true, All, ◌≡◌, ◌↔◌, arith, refl,
}
use payment_platform_quality.Reconciliation.Totals.{SettlementClassification}
use payment_platform_quality.Reconciliation.Sources.{ReconciliationItem, SourceCheckStatus}
use payment_platform_quality.Reconciliation.Report.{
  ReconciliationStatus, is_class, ledger_mismatch, projection_mismatch, summarize,
}

-- The settlement, the ledger and the projection of the item agree with the payment.
abbrev pub AllAgree : ReconciliationItem → Type 0
AllAgree i =
    (i.settlement_classification ≡ SettlementClassification.matched)
    × (i.item_ledger_status ≡ SourceCheckStatus.matched)
    × (i.item_projection_status ≡ SourceCheckStatus.matched)

item_matches :
    (i : ReconciliationItem)
    → is_class SettlementClassification.matched i ≡ true
    → ledger_mismatch i ≡ false
    → projection_mismatch i ≡ false
    → AllAgree i
item_matches i a b c = (ground arith, ground arith, ground arith)

all_agree :
    (items : List ReconciliationItem)
    → all_true (is_class SettlementClassification.matched) items ≡ true
    → count_true ledger_mismatch items ≡ 0
    → count_true projection_mismatch items ≡ 0
    → All AllAgree items
all_agree [] a b c = tt
all_agree (i ∷ items) a b c = (
  item_matches i (ground arith) (ground arith) (ground arith),
  all_agree items (ground arith) (ground arith) (ground arith),
)

none_disagrees :
    (items : List ReconciliationItem)
    → All AllAgree items
    → (all_true (is_class SettlementClassification.matched) items ≡ true)
      × (count_true ledger_mismatch items ≡ 0)
      × (count_true projection_mismatch items ≡ 0)
none_disagrees [] h = (refl, refl, refl)
none_disagrees (i ∷ items) h =
    let rest = none_disagrees items h.1 in
    rw (h.0.0, h.0.1, h.0.2, rest.0, rest.1, rest.2) (refl, refl, refl)

-- The report on a batch is matched exactly when every item agrees with its settlement, its ledger
-- and its projection.
pub summary_matched :
    (items : List ReconciliationItem)
    → ((summarize items).status ≡ ReconciliationStatus.matched) ↔ All AllAgree items
unfolding summarize
summary_matched items = (
  λ h. all_agree items (ground (arith, h)) (ground (arith, h)) (ground (arith, h)),
  λ h. let n = none_disagrees items h in ground (arith, n),
)
