-- ===== src/Webhooks/Applied.antt =====
-- `consume_webhook` of services/webhooks.py on an event that is newer than the projection.
use payment_platform_quality.Prelude.{
  ℕ, pos, ◌+◌, ◌<◌, Bool, true, false, Option, none, some, List, ◌∷◌, String, str_eq, ltb, ◌==◌,
  eqb_ℤ, eq_iff, eq_refl, ◌∙◌, ap, sym, ◌≡◌, inl, inr, refl, arith, Option-cases,
}
use mathlib.Core.Option.{some_inj}
use payment_platform_quality.Domain.Types.{DeclineReason, same_status, flow_value, reason_value}
use payment_platform_quality.Coordination.{same_currency}
use payment_platform_quality.Failure.{ok}
use payment_platform_quality.Database.Types.{EventPayload}
use payment_platform_quality.Database.Rows.{MerchantProjection, ConsumerDisposition}
use payment_platform_quality.Database.Tables.{
  is_some, find, insert, replace, find-replace, find_key, find-first,
}
use payment_platform_quality.Database.Store.{Db}
use payment_platform_quality.Webhooks.Consumer.{
  find_processed, find_projection, same_flow, same_reason, merged, projection_of, fits_integer,
  fits_projection, Change, weigh, flush_change, insert_processed, inbox_row, conclude_consumption,
  apply_event, consume_unseen, consume_webhook,
}
use payment_platform_quality.Webhooks.Columns.{
  same_option, IsSound, column-loaded, same_option-IsSound, eqb_ℤ-IsSound, str_eq-IsSound,
  time-IsSound,
}
use payment_platform_quality.Payments.Snapshot.{reason_of, member}
use payment_platform_quality.Webhooks.Parse.{flow_of}
use payment_platform_quality.Webhooks.Emitted.{flow_back}
use payment_platform_quality.Webhooks.Inbox.{version_of}

-- Members that are read back from their texts have different texts.
texts-IsSound :
    {A : Type 0} (text : A → String) (back : String → Option A)
    → ((a : A) → back (text a) ≡ some a)
    → IsSound (λ a b. str_eq (text a) (text b))
texts-IsSound text back reads a b h =
    let same = ap back ((eq_iff (text a) (text b)).0 h) in
    some_inj.0 (sym (reads a) ∙ same ∙ reads b)

reason_back : (r : DeclineReason) → reason_of (reason_value r) ≡ some r
unfolding reason_of member
reason_back DeclineReason.insufficient_funds = refl
reason_back DeclineReason.limit_exceeded = refl
reason_back DeclineReason.expired_payment_method = refl
reason_back DeclineReason.verification_failed = refl
reason_back DeclineReason.invalid_payment_method = refl
reason_back DeclineReason.unknown = refl

same_status-IsSound : IsSound same_status
same_status-IsSound a b h = ground (arith, h)

same_currency-IsSound : IsSound same_currency
same_currency-IsSound a b h = ground arith

-- Without another writer, the row becomes what was assigned.
merged_loaded : (m n : MerchantProjection) → merged m n m ≡ record n { payment_id = m.payment_id }
unfolding merged
merged_loaded m n =
    let texts = column-loaded str_eq in
    let amounts = column-loaded eqb_ℤ in
    let flows = texts-IsSound flow_value flow_of flow_back in
    let reasons = texts-IsSound reason_value reason_of reason_back in
    rw
      (
        texts m.merchant_reference n.merchant_reference str_eq-IsSound,
        amounts m.amount n.amount eqb_ℤ-IsSound,
        column-loaded same_currency m.currency n.currency same_currency-IsSound,
        column-loaded same_status m.status n.status same_status-IsSound,
        column-loaded same_flow m.payment_flow n.payment_flow flows,
        column-loaded (same_option str_eq) m.payment_reference n.payment_reference
            (same_option-IsSound str_eq str_eq-IsSound),
        column-loaded (same_option (λ a b. a == b)) m.expires_at n.expires_at
            (same_option-IsSound (λ a b. a == b) time-IsSound),
        column-loaded (same_option same_reason) m.decline_reason n.decline_reason
            (same_option-IsSound same_reason reasons),
        amounts m.authorized_amount n.authorized_amount eqb_ℤ-IsSound,
        amounts m.captured_amount n.captured_amount eqb_ℤ-IsSound,
        amounts m.refunded_amount n.refunded_amount eqb_ℤ-IsSound,
        column-loaded (λ a b. a == b) m.aggregate_version n.aggregate_version time-IsSound,
        texts m.last_event_id n.last_event_id str_eq-IsSound,
        column-loaded (λ a b. a == b) m.updated_at n.updated_at time-IsSound,
      )
      refl

flush_assigned :
    (m assigned n : MerchantProjection) (db : Db)
    → fits_projection assigned ≡ true
    → find_projection m.payment_id db ≡ some m
    → merged m assigned m ≡ n
    → flush_change (Change.assigned m assigned) db
      ≡ ok (record db { projections = replace (λ q. q.payment_id) n db.projections })
unfolding flush_change
flush_assigned m assigned n db fits found merge = rw (fits, found, merge) refl

flush_newer :
    (e : EventPayload) (db : Db)
    → fits_projection (projection_of e.id e.payment) ≡ true
    → version_of (find_projection e.payment.id db) < e.aggregate_version
    → (change : Change) × (gap : Bool) × (rows : List MerchantProjection) × (weigh e
          (find_projection e.payment.id db)
        ≡ ok (change, ConsumerDisposition.applied, gap))
      × (flush_change change db ≡ ok (record db { projections = rows }))
      × (find (λ m. m.payment_id) e.payment.id rows ≡ some (projection_of e.id e.payment))
unfolding weigh flush_change
flush_newer e db fits newer =
    let key = (λ (m : MerchantProjection). m.payment_id) in
    let n = projection_of e.id e.payment in
    elim (Option-cases (find_projection e.payment.id db)) [
      | inl none_yet ↦ (
        Change.added n,
        ltb 1 e.aggregate_version,
        n ∷ db.projections,
        rw none_yet refl,
        unfold insert in rw (fits, none_yet) refl,
        rw (find-first key n e.payment.id db.projections, eq_refl e.payment.id) refl,
      )
      | inr (m, found) ↦
          let k : m.payment_id ≡ e.payment.id = find_key key e.payment.id m db.projections found in
          let there : is_some (find key m.payment_id db.projections) ≡ true = rw (k, found) refl in
          let new : MerchantProjection = record n { payment_id = m.payment_id } in
          let merge : merged m new m ≡ n = merged_loaded m new ∙ rw k refl in
          let newer' : m.aggregate_version < e.aggregate_version = ground (arith, newer, found) in
          (
            Change.assigned m new,
            ltb (m.aggregate_version + 1) e.aggregate_version,
            replace key n db.projections,
            ground (arith, found, newer'),
            flush_assigned m new n db fits (ap (λ j. find_projection j db) k ∙ found) merge,
            find-replace key n e.payment.id db.projections (rw found refl)
                ∙ rw (eq_refl e.payment.id) refl,
          )
    ]

-- The integers of an event that its tables store.
abbrev pub FitsColumns : EventPayload → Type 0
FitsColumns e =
    (fits_integer (pos e.aggregate_version) ≡ true)
    × (fits_projection (projection_of e.id e.payment) ≡ true)

-- An event that is not in the inbox, whose integers fit their columns, and newer than the projection of its payment is consumed: the
-- call returns, the projection is the payment of the event, the inbox has one row more, and no
-- other table changes.
pub consume_applies :
    (payload_hash : String) (e : EventPayload) (now : ℕ) (db : Db)
    → find_processed e.id db ≡ none
    → FitsColumns e
    → version_of (find_projection e.payment.id db) < e.aggregate_version
    → (gap : Bool) × (rows : List MerchantProjection) × (find (λ m. m.payment_id) e.payment.id rows
        ≡ some (projection_of e.id e.payment))
      × (consume_webhook (λ d. d) payload_hash e now false db ≡ (
        ok (record {
          event_id = e.id;
          disposition = ConsumerDisposition.applied;
          duplicate = false;
          version_gap = gap;
        }),
        record db {
          projections = rows;
          processed_webhooks =
              inbox_row payload_hash e ConsumerDisposition.applied gap now ∷ db.processed_webhooks;
        },
      ))
unfolding consume_webhook consume_unseen apply_event conclude_consumption insert_processed insert
consume_applies payload_hash e now db unseen fits newer =
    let (change, gap, rows, weighed, flushed, placed) = flush_newer e db fits.1 newer in
    (gap, rows, placed, rw (unseen, weighed, flushed, fits.0, unseen) refl)
