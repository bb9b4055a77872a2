-- ===== src/Ledger/Expiry.antt =====
-- The scheduled expiry keeps the invariant of payments and ledger, and touches no other payment.
use payment_platform_quality.Prelude.{
  ℕ, zero, suc, ◌≤◌, ◌<◌, length, true, false, none, some, List, [], ◌∷◌, ◌≡◌, ◌⊎◌, ◌∙◌, sym, refl,
  ap, inl, inr, String, str_eq, eq_iff, eq_refl, All, All-select, All-sort_by, All-take, All-imp,
  select, sort_by, take, map, arith, Bool-cases, if◌then◌else◌,
}
use mathlib.Core.Path.{subst}
use payment_platform_quality.Domain.Types.{PaymentStatus}
use payment_platform_quality.Failure.{ok, Result-cases, ok-injective}
use payment_platform_quality.Database.Types.{Payment}
use payment_platform_quality.Database.Tables.{is_some, Keyed-found, find-replace}
use payment_platform_quality.Database.Store.{Db, find_payment}
use payment_platform_quality.Coordination.{Writer}
use payment_platform_quality.Payments.Commands.{Reading}
use payment_platform_quality.Payments.Effects.{next_payment}
use payment_platform_quality.Confirmations.Commands.{require_aware_utc}
use payment_platform_quality.Confirmations.Dispositions.{apply_expiry_transition}
use payment_platform_quality.Confirmations.Effects.{Transition, expiry_effect}
use payment_platform_quality.Confirmations.Expire.{
  is_due, expires_before, due_payments, expire_each, expire_due_payments,
}
use payment_platform_quality.Confirmations.Due.{IsDue, not-IsDue}
use payment_platform_quality.Ledger.Sound.{IsSound}
use payment_platform_quality.Ledger.Confirmations.{Transition-IsSound}

-- Since the query, a stored payment is as it was or has a later version.
abbrev Advances : Db → Db → Type 0
Advances db₀ db =
    (k : String) (p row : Payment)
    → find_payment k db₀ ≡ some p
    → find_payment k db ≡ some row
    → (row ≡ p) ⊎ (p.version < row.version)

-- The lookups after a transition.
Transition-found :
    (p : Payment) (db db' : Db) (tr : Transition p none db db') (k : String)
    → find_payment p.id db ≡ some p
    → find_payment k db'
      ≡ (if str_eq p.id k then some (next_payment p tr.next tr.time) else find_payment k db)
Transition-found p db db' tr k stored =
    rw tr.payments
      (find-replace (λ r. r.id) (next_payment p tr.next tr.time) k db.payments (ap is_some stored))

Advances-step :
    (p : Payment) (db₀ db db' : Db) (tr : Transition p none db db')
    → find_payment p.id db₀ ≡ some p
    → find_payment p.id db ≡ some p
    → Advances db₀ db
    → Advances db₀ db'
Advances-step p db₀ db db' tr first stored adv k q row old new =
    ground (arith, Transition-found p db db' tr k stored, eq_iff p.id k, first, adv k q row old)

-- The loaded payment of a transition that went through is the stored row.
stored_row :
    (p : Payment) (db₀ db db' : Db) (tr : Transition p none db db')
    → find_payment p.id db₀ ≡ some p
    → Advances db₀ db
    → find_payment p.id db ≡ some p
stored_row p db₀ db db' tr first adv =
    let (row, found, same) = tr.replaced in
    elim (adv p.id p row first found) [
      | inl e ↦ found ∙ ap some e
      | inr later ↦ absurd (omega (arith, same))
    ]

stays_step :
    (p : Payment) (db d : Db) (tr : Transition p none db d) (k : String) (q : Payment)
    → find_payment p.id db ≡ some p
    → tr.next.status ≡ PaymentStatus.expired
    → find_payment k db ≡ some q
    → q.status ≡ PaymentStatus.expired
    → (q' : Payment) × (find_payment k d ≡ some q') × (q'.status ≡ PaymentStatus.expired)
stays_step p db d tr k q stored gone found e = elim (Bool-cases (str_eq p.id k)) [
  | inl same ↦
      (next_payment p tr.next tr.time, rw (Transition-found p db d tr k stored, same) refl, gone)
  | inr other ↦ (q, rw (Transition-found p db d tr k stored, other) found, e)
]

-- What the loop has done to the payments: those of the batch are expired, all others are as they
-- were.
record Expires (due : List Payment) (db db' : Db) : Type 0 where
  expired :
      All
        (λ p. (q : Payment) × (find_payment p.id db' ≡ some q) × (q.status ≡ PaymentStatus.expired))
        due
  untouched :
      (k : String) → All (λ p. str_eq p.id k ≡ false) due → find_payment k db' ≡ find_payment k db
  stays_expired :
      (k : String) (q : Payment)
      → find_payment k db ≡ some q
      → q.status ≡ PaymentStatus.expired
      → (q' : Payment) × (find_payment k db' ≡ some q') × (q'.status ≡ PaymentStatus.expired)

module _ (event_ids : String → String) (now : ℕ) (db₀ : Db) where
  expire_each_effect :
      (due : List Payment) (db db' : Db)
      → All (λ p. find_payment p.id db₀ ≡ some p) due
      → Advances db₀ db
      → IsSound db
      → expire_each event_ids now due db ≡ ok db'
      → Expires due db db' × IsSound db'
  unfolding expire_each
  expire_each_effect [] db db' first adv sound h =
      let same : db ≡ db' = ok-injective h in
      (
        record {
          expired = tt;
          untouched = λ k _. ap (λ d. find_payment k d) (sym same);
          stays_expired = λ k q found e. (q, ap (λ d. find_payment k d) (sym same) ∙ found, e);
        },
        subst IsSound same sound,
      )
  expire_each_effect (p ∷ due) db db' first adv sound h =
      elim (Result-cases (apply_expiry_transition p now (event_ids p.id) db)) [
        | inr (e, failed) ↦ absurd (ground arith)
        | inl (d, moved) ↦
            let (tr, gone, _) = expiry_effect p now (event_ids p.id) db d moved in
            let stored = stored_row p db₀ db d tr first.0 adv in
            let (rest, sound') =
              expire_each_effect due d db' first.1 (Advances-step p db₀ db d tr first.0 stored adv)
                (Transition-IsSound p none db d tt stored sound tr) (ground arith) in
            let here : find_payment p.id d ≡ some (next_payment p tr.next tr.time) =
              rw (Transition-found p db d tr p.id stored, eq_refl) refl in
            (
              record {
                expired = (
                  rest.stays_expired p.id (next_payment p tr.next tr.time) here gone,
                  rest.expired,
                );
                untouched = λ k others.
                    rest.untouched k others.1
                    ∙ rw (Transition-found p db d tr k stored, others.0) refl;
                stays_expired = λ k q found e.
                    let (q', found', e') = stays_step p db d tr k q stored gone found e in
                    rest.stays_expired k q' found' e';
              },
              sound',
            )
      ]

-- The batch consists of stored payments that are due.
due_stored :
    (t limit : ℕ) (db : Db)
    → IsSound db
    → All
        (λ p. (find_payment p.id db ≡ some p) × (is_due db.receipts t p ≡ true))
        (due_payments t limit db)
unfolding due_payments
due_stored t limit db sound =
    let P = λ (p : Payment). (find_payment p.id db ≡ some p) × (is_due db.receipts t p ≡ true) in
    All-take P limit (sort_by expires_before (select (is_due db.receipts t) db.payments)) (
      All-sort_by P expires_before (select (is_due db.receipts t) db.payments) (
        All-select (λ p. find_payment p.id db ≡ some p) (is_due db.receipts t) db.payments
          (Keyed-found (λ p. p.id) db.payments sound.keyed)))

All-map_id :
    (db : Db) (due : List Payment)
    → All
        (λ p. (q : Payment) × (find_payment p.id db ≡ some q) × (q.status ≡ PaymentStatus.expired))
        due
    → All
        (λ k. (q : Payment) × (find_payment k db ≡ some q) × (q.status ≡ PaymentStatus.expired))
        (map (λ p. p.id) due)
All-map_id db [] h = tt
All-map_id db (p ∷ due) h = (h.0, All-map_id db due h.1)

All-unmap_id :
    (k : String) (due : List Payment)
    → All (λ i. str_eq i k ≡ false) (map (λ p. p.id) due)
    → All (λ p. str_eq p.id k ≡ false) due
All-unmap_id k [] h = tt
All-unmap_id k (p ∷ due) h = (h.0, All-unmap_id k due h.1)

length-due : (t limit : ℕ) (db : Db) → length (map (λ p. p.id) (due_payments t limit db)) ≤ limit
unfolding due_payments
length-due t limit db =
    go limit (sort_by expires_before (select (is_due db.receipts t) db.payments))
  where
    go : (n : ℕ) (xs : List Payment) → length (map (λ p. p.id) (take n xs)) ≤ n
    go zero xs = omega arith
    go (suc n) [] = omega arith
    go (suc n) (x ∷ xs) = omega (arith, go n xs)

-- What a run of the scheduled expiry that succeeds has done.
pub record Expired (t limit : ℕ) (db : Db) (ids : List String) (db' : Db) : Type 0 where
  pub sound : IsSound db'
  pub bounded : length ids ≤ limit
  pub expired :
      All
        (λ k. (q : Payment) × (find_payment k db' ≡ some q) × (q.status ≡ PaymentStatus.expired))
        ids
  pub others_kept :
      (k : String) → All (λ i. str_eq i k ≡ false) ids → find_payment k db' ≡ find_payment k db
  pub kept :
      (k : String) (p : Payment)
      → find_payment k db ≡ some p
      → ¬ IsDue db.receipts t p
      → find_payment k db' ≡ some p

-- A run of the scheduled expiry that succeeds keeps the invariant of payments and ledger, reports
-- at most `limit` payments, expires all that it reports, and leaves every payment as it was that it
-- does not report, so that it changes at most `limit`. It leaves every payment as it was that is
-- not due: not awaiting, not past its expiry, or protected by a receipt in time.
pub expire_due_effect :
    (event_ids : String → String) (writer : Writer) (t limit : ℕ) (db db' : Db) (ids : List String)
    → IsSound db
    → expire_due_payments event_ids writer (Reading.aware t) limit db ≡ (ok ids, db')
    → Expired t limit db ids db'
unfolding expire_due_payments require_aware_utc
expire_due_effect event_ids writer t limit db db' ids sound h =
    elim (Result-cases (expire_each event_ids t (due_payments t limit db) db)) [
      | inr (e, failed) ↦ absurd (ground arith)
      | inl (d, staged) ↦
          let due = due_payments t limit db in
          let stored = due_stored t limit db sound in
          let same : (ids ≡ map (λ p. p.id) due) × (db' ≡ d) = ground arith in
          let (done, sound') =
            expire_each_effect event_ids t db due db d (All-imp _ _ due (λ p f. f.0) stored)
              (λ k p row old new. inl (cc (old, new))) sound staged in
          subst (λ x. Expired t limit db x db') (sym same.0)
            (subst (λ x. Expired t limit db (map (λ p. p.id) due) x) (sym same.1)
              (record {
                sound = sound';
                bounded = length-due t limit db;
                expired = All-map_id d due done.expired;
                others_kept = λ k unreported. done.untouched k (All-unmap_id k due unreported);
                kept = λ k p found not_due.
                    let idle = not-IsDue db.receipts t p not_due in
                    done.untouched k (
                      All-imp _ _ due (λ q f. ground (arith, eq_iff q.id k, f.0, f.1, found, idle))
                        stored)
                    ∙ found;
              }))
    ]
