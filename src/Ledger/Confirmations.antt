-- ===== src/Ledger/Confirmations.antt =====
-- Confirmations and expiries keep the invariant of payments and ledger.
use payment_platform_quality.Prelude.{
  ℕ, ◌+ℤ◌, Bool, Option, none, some, List, [], ◌∷◌, ◌≡◌, ◌⊎◌, ◌∙◌, sym, refl, ap, inl, inr, String,
  All, arith, Bool-cases,
}
use mathlib.Core.Path.{subst}
use payment_platform_quality.Domain.Coherence.{IsCoherent}
use payment_platform_quality.Failure.{Result, ok, err, ◌>>◌, Result-cases, >>=-eq-ok, ok-injective}
use payment_platform_quality.Database.Types.{Payment, LedgerEntry}
use payment_platform_quality.Database.Rows.{ConfirmationReceipt, ConfirmationDisposition}
use payment_platform_quality.Database.Tables.{
  is_some, find, Keyed-replace, Keyed-found, find-replace,
}
use payment_platform_quality.Database.Store.{
  Db, find_payment, payment_by_reference, is_reference, insert_confirmation, insert_receipt,
  find_receipt,
}
use payment_platform_quality.Database.Inversion.{insert_confirmation_inv, insert_receipt_inv}
use payment_platform_quality.Coordination.{Writer, begin_coordinated_write}
use payment_platform_quality.Payments.Commands.{Dictionary, Reading, Fresh}
use payment_platform_quality.Payments.Effects.{next_payment}
use payment_platform_quality.Confirmations.Commands.{
  ConfirmationCommand, ConfirmationOutcome, command_of, confirmation_payload, require_aware_utc,
}
use payment_platform_quality.Confirmations.Dispositions.{
  classify, apply_disposition, apply_late, apply_expiry_transition, confirmation_entry,
}
use payment_platform_quality.Confirmations.Accept.{
  accept_confirmation, stage_receipt, new_receipt, transact,
}
use payment_platform_quality.Confirmations.Complete.{
  new_confirmation, stage_completion, complete_confirmation, process_confirmation,
  complete_accepted,
}
use payment_platform_quality.Confirmations.Effects.{Transition, expiry_effect, capture_effect}
use payment_platform_quality.Confirmations.Endings.{completion-cases}
use payment_platform_quality.Ledger.Sums.{
  delta, authorized_part, captured_part, refunded_part, authorized_of, captured_of, refunded_of,
}
use payment_platform_quality.Ledger.Sound.{IsSound, Writes, Writes-IsSound, OfPayment}
use payment_platform_quality.Ledger.Growth.{state_of_fields}

-- A transition of a stored payment keeps the invariant.
pub Transition-IsSound :
    (p : Payment) (entry : Option LedgerEntry) (db db' : Db)
    → OfPayment p entry
    → find_payment p.id db ≡ some p
    → IsSound db
    → Transition p entry db db'
    → IsSound db'
Transition-IsSound p entry db db' of_payment found sound tr =
    let q = next_payment p tr.next tr.time in
    let fields = state_of_fields p tr.current tr.was_state in
    let coherent : IsCoherent tr.current =
      subst IsCoherent (sym fields) (sound.coherent p.id p found) in
    let (a, c, r) = tr.grows coherent in
    let writes : Writes db db' q entry = record {
      found = λ k. rw tr.payments (find-replace (λ s. s.id) q k db.payments (ap is_some found));
      entered = tr.entries;
      of_payment = of_payment;
      keeps_keyed = λ k. rw tr.payments (Keyed-replace (λ s. s.id) q db.payments k);
    } in
    Writes-IsSound db db' q entry sound writes (tr.fits coherent)
      (a
        ∙ ap (λ x. delta authorized_part entry +ℤ x)
            (ap (λ s. s.authorized_amount) fields ∙ sym (ap authorized_of found)))
      (c
        ∙ ap (λ x. delta captured_part entry +ℤ x)
            (ap (λ s. s.captured_amount) fields ∙ sym (ap captured_of found)))
      (r
        ∙ ap (λ x. delta refunded_part entry +ℤ x)
            (ap (λ s. s.refunded_amount) fields ∙ sym (ap refunded_of found)))

-- What holds of every payment holds of the one that a reference finds.
by_reference_All :
    (P : Payment → Type 0) (k : String) (rows : List Payment) (p : Payment)
    → All P rows
    → payment_by_reference k rows ≡ some p
    → P p
unfolding payment_by_reference
by_reference_All P k [] p h e = cc
by_reference_All P k (q ∷ rows) p h e = elim (Bool-cases (is_reference k q.payment_reference)) [
  | inl here ↦ subst P (ground arith) h.0
  | inr there ↦ by_reference_All P k rows p h.1 (ground arith)
]

-- The invariant is about payments and ledger entries only.
SameTables-IsSound :
    (db db' : Db)
    → db'.payments ≡ db.payments
    → db'.ledger_entries ≡ db.ledger_entries
    → IsSound db
    → IsSound db'
SameTables-IsSound db db' p e h = record {
  keyed = rw p h.keyed;
  coherent = λ k q f. h.coherent k q (rw (← p) f);
  authorized = λ k. rw (p, e) (h.authorized k);
  captured = λ k. rw (p, e) (h.captured k);
  refunded = λ k. rw (p, e) (h.refunded k);
}

late-IsSound :
    (p : Payment) (t : ℕ) (fresh : Fresh) (db db' : Db)
    → find_payment p.id db ≡ some p
    → IsSound db
    → apply_late p t fresh db ≡ ok db'
    → IsSound db'
unfolding apply_late
late-IsSound p t fresh db db' found sound h =
    elim (Result-cases (apply_expiry_transition p t fresh.event_id db)) [
      | inr (e, failed) ↦ subst IsSound (ground arith) sound
      | inl (d, expired) ↦
          let end : (db' ≡ db) ⊎ (db' ≡ d) = ground arith in
          elim end [
            | inl same ↦ rw same sound
            | inr moved ↦ rw moved (
                Transition-IsSound p none db d tt found sound
                  (expiry_effect p t fresh.event_id db d expired).0)
          ]
    ]

disposition-IsSound :
    (payment : Option Payment) (command : ConfirmationCommand)
    (disposition : ConfirmationDisposition) (t : ℕ) (fresh : Fresh) (db db' : Db)
    → ((p : Payment) → payment ≡ some p → find_payment p.id db ≡ some p)
    → IsSound db
    → apply_disposition payment command disposition t fresh db ≡ ok db'
    → IsSound db'
unfolding apply_disposition
disposition-IsSound none command disposition t fresh db db' found sound h =
    subst IsSound (ok-injective h) sound
disposition-IsSound (some p) command ConfirmationDisposition.applied t fresh db db' found sound h =
    Transition-IsSound p (some (confirmation_entry p command t fresh)) db db' refl (found p refl)
      sound (capture_effect p command t fresh db db' h)
disposition-IsSound (some p) command ConfirmationDisposition.late t fresh db db' found sound h =
    late-IsSound p t fresh db db' (found p refl) sound h
disposition-IsSound (some p) command _ t fresh db db' found sound h =
    subst IsSound (ok-injective h) sound

stage_completion-IsSound :
    (fingerprint : String) (r : ConfirmationReceipt) (fresh : Fresh) (db : Db)
    (o : ConfirmationOutcome) (db' : Db)
    → IsSound db
    → stage_completion fingerprint r fresh db ≡ ok (o, db')
    → IsSound db'
unfolding stage_completion
stage_completion-IsSound fingerprint r fresh db o db' sound h =
    let payment = payment_by_reference r.payment_reference db.payments in
    let (disposition, decided, h₁) =
      >>=-eq-ok (classify payment (command_of r) r.received_at) _ h in
    let c = new_confirmation fingerprint r payment disposition in
    let (d, inserted, h₂) = >>=-eq-ok (insert_confirmation c db) _ h₁ in
    let (d', applied, same) =
      >>=-eq-ok (apply_disposition payment (command_of r) disposition r.received_at fresh d) _ h₂ in
    let inv = insert_confirmation_inv c db d inserted in
    let payments : d.payments ≡ db.payments = ap (λ x. x.payments) inv.0 in
    let stored = λ (p : Payment) (e : payment ≡ some p).
      ap (λ rows. find (λ q. q.id) p.id rows) payments
      ∙ by_reference_All (λ q. find_payment q.id db ≡ some q) r.payment_reference db.payments p
          (Keyed-found (λ q. q.id) db.payments sound.keyed) e in
    let sound' =
      disposition-IsSound payment (command_of r) disposition r.received_at fresh d d' stored
        (SameTables-IsSound db d payments (ap (λ x. x.ledger_entries) inv.0) sound) applied in
    SameTables-IsSound d' db' (sym (ap (λ x. x.1.payments) (ok-injective same)))
      (sym (ap (λ x. x.1.ledger_entries) (ok-injective same))) sound'

-- Completing a confirmation keeps the invariant, whatever it answers.
pub complete-IsSound :
    (digest : Dictionary → String) (writer : Writer) (k : String) (fresh : Fresh) (db : Db)
    → IsSound db
    → IsSound (complete_confirmation digest writer k fresh db).1
complete-IsSound digest writer k fresh db sound = elim (completion-cases digest k fresh db writer) [
  | inl (same, _) ↦ rw same sound
  | inr (r, o, found, new, staged, answer) ↦
      stage_completion-IsSound (digest (confirmation_payload (command_of r))) r fresh db o
        (complete_confirmation digest writer k fresh db).1 sound staged
]

accept-IsSound :
    (digest : Dictionary → String) (writer : Writer) (command : ConfirmationCommand)
    (clock : Reading) (db : Db)
    → IsSound db
    → IsSound (accept_confirmation digest writer command clock db).1
unfolding accept_confirmation
accept-IsSound digest writer command clock db sound =
    go (find_receipt command.confirmation_id db) (begin_coordinated_write writer) clock
  where
    print : String
    print = digest (confirmation_payload command)

    go :
        (m : Option ConfirmationReceipt) (b : Result (Unit {0})) (c : Reading)
        → IsSound (transact db (b >> stage_receipt m print command c db)).1
    go m (err e) c = sound
    go (some r) (ok _) c = subst IsSound {x = db} (unfold stage_receipt in ground arith) sound
    go none (ok _) (Reading.naive t) =
        subst IsSound {x = db} (unfold stage_receipt require_aware_utc in ground arith) sound
    go none (ok _) (Reading.aware t) =
        elim (Result-cases (insert_receipt (new_receipt print command t) db)) [
          | inr (e, failed) ↦
              subst IsSound {x = db} (unfold stage_receipt require_aware_utc in ground arith) sound
          | inl (d, inserted) ↦
              let inv = insert_receipt_inv (new_receipt print command t) db d inserted in
              let sound' : IsSound d =
                SameTables-IsSound db d (ap (λ x. x.payments) inv.0)
                  (ap (λ x. x.ledger_entries) inv.0) sound in
              subst IsSound {x = d} (unfold stage_receipt require_aware_utc in ground arith) sound'
        ]

-- Whatever the processing of a confirmation answers, and whatever other sessions that keep the
-- invariant do between its two transactions, it keeps the invariant.
pub process-IsSound :
    (digest : Dictionary → String) (others : Db → Db) (accepting completing : Writer)
    (command : ConfirmationCommand) (clock : Reading) (fresh : Fresh) (db : Db)
    → ((d : Db) → IsSound d → IsSound (others d))
    → IsSound db
    → IsSound (process_confirmation digest others accepting completing command clock fresh db).1
unfolding process_confirmation
process-IsSound digest others accepting completing command clock fresh db keep sound =
    go (accept_confirmation digest accepting command clock db)
      (accept-IsSound digest accepting command clock db sound)
  where
    go :
        (a : Result Bool × Db)
        → IsSound a.1
        → IsSound (complete_accepted digest others completing command fresh a).1
    go (err e, d) s = s
    go (ok known, d) s =
        subst IsSound
          {x = (complete_confirmation digest completing command.confirmation_id fresh (others d)).1}
          (ground arith)
          (complete-IsSound digest completing command.confirmation_id fresh (others d) (keep d s))
