-- ===== src/Reporting/Told.antt =====
-- The outcome of a delayed payment in services/confirmation_reporting.py, said by its events.
use payment_platform_quality.Prelude.{
  ℕ, Bool, false, ◌&&◌, ◌||◌, List, [], ◌∷◌, select, sort_by, insert_sorted, map, leb, str_eq,
  if◌then◌else◌, ◌≡◌, refl, ◌∙◌, arith, ap,
}
use payment_platform_quality.Domain.Types.{PaymentStatus, same_status}
use payment_platform_quality.Database.Types.{Payment, WebhookEvent}
use payment_platform_quality.Database.Store.{Db}
use payment_platform_quality.Reporting.Counters.{
  PaymentOutcome, is_confirmed, any_status, outcome_of, statuses_until,
}

-- Some event of the payment through the cutoff tells a status that passes the test.
abbrev pub tells : (PaymentStatus → Bool) → ℕ → Payment → List WebhookEvent → Bool
tells test cutoff p [] = false
tells test cutoff p (e ∷ events) =
    (str_eq e.payment_id p.id && leb e.created_at cutoff && test e.payload.payment.status)
    || tells test cutoff p events

-- Confirmed if an event tells so, else cancelled, else expired, else pending.
abbrev pub told_outcome : ℕ → List WebhookEvent → Payment → PaymentOutcome
told_outcome cutoff events p =
    if tells is_confirmed cutoff p events
    then PaymentOutcome.confirmed_on_time
    else if tells (same_status PaymentStatus.cancelled) cutoff p events
    then PaymentOutcome.cancelled_unconfirmed
    else if tells (same_status PaymentStatus.expired) cutoff p events
    then PaymentOutcome.expired_without_on_time_confirmation
    else PaymentOutcome.pending

abbrev statuses : List WebhookEvent → List PaymentStatus
statuses events = map (λ e. e.payload.payment.status) events

any_status-insert_sorted :
    (test : PaymentStatus → Bool) (before : WebhookEvent → WebhookEvent → Bool) (e : WebhookEvent)
    (events : List WebhookEvent)
    → any_status test (statuses (insert_sorted before e events))
      ≡ any_status test (statuses (e ∷ events))
any_status-insert_sorted test before e [] = refl
any_status-insert_sorted test before e (x ∷ events) =
    ground (arith, any_status-insert_sorted test before e events)

any_status-sort_by :
    (test : PaymentStatus → Bool) (before : WebhookEvent → WebhookEvent → Bool)
    (events : List WebhookEvent)
    → any_status test (statuses (sort_by before events)) ≡ any_status test (statuses events)
unfolding sort_by
any_status-sort_by test before [] = refl
any_status-sort_by test before (e ∷ events) =
    any_status-insert_sorted test before e (sort_by before events)
    ∙ ap (λ b. test e.payload.payment.status || b) (any_status-sort_by test before events)

any_status-select :
    (test : PaymentStatus → Bool) (cutoff : ℕ) (p : Payment) (events : List WebhookEvent)
    → any_status test
        (statuses (select (λ e. str_eq e.payment_id p.id && leb e.created_at cutoff) events))
      ≡ tells test cutoff p events
any_status-select test cutoff p [] = refl
any_status-select test cutoff p (e ∷ events) =
    ground (arith, any_status-select test cutoff p events)

any_status-statuses_until :
    (test : PaymentStatus → Bool) (cutoff : ℕ) (db : Db) (p : Payment)
    → any_status test (statuses_until cutoff db p) ≡ tells test cutoff p db.webhook_events
unfolding statuses_until
any_status-statuses_until test cutoff db p =
    any_status-sort_by test (λ a b. leb a.aggregate_version b.aggregate_version)
      (select (λ e. str_eq e.payment_id p.id && leb e.created_at cutoff) db.webhook_events)
    ∙ any_status-select test cutoff p db.webhook_events

pub outcome_of-statuses_until :
    (cutoff : ℕ) (db : Db) (p : Payment)
    → outcome_of (statuses_until cutoff db p) ≡ told_outcome cutoff db.webhook_events p
unfolding outcome_of
outcome_of-statuses_until cutoff db p =
    rw
      (
        any_status-statuses_until is_confirmed cutoff db p,
        any_status-statuses_until (same_status PaymentStatus.cancelled) cutoff db p,
        any_status-statuses_until (same_status PaymentStatus.expired) cutoff db p,
      )
      refl
