-- ===== src/Api/Retries.antt =====
-- What a client of `create_payment` in api/routes.py sees when it sends a request again.
use payment_platform_quality.Prelude.{ℕ, true, false, ◌&&◌, none, Bool, String, ◌≡◌, refl}
use payment_platform_quality.Database.Types.{Payment}
use payment_platform_quality.Database.Store.{Db, find_claim}
use payment_platform_quality.Webhooks.Outbox.{from_payment}
use payment_platform_quality.Payments.Commands.{
  AuthorizationCommand, Dictionary, Reading, read_clock, Fresh,
}
use payment_platform_quality.Payments.Authorize.{authorize_payment}
use payment_platform_quality.Payments.Replay.{authorize_replays}
use payment_platform_quality.Payments.Progress.{Unhindered, authorize_succeeds}
use payment_platform_quality.Api.Payments.{
  Answer, request_fits, key_fits, resolve_failure_point, create_payment,
}

-- A request that its schema accepts, with nothing in its way: the first call answers 201 with the
-- new payment. Whatever happens then that keeps the record of the key, changes of the payment
-- included, a later call with this key and request, without an injected failure, answers 200 with
-- the payment of the first answer, marked as a replay, and writes nothing.
pub create_payment_retries :
    (digest : Dictionary → String) (enabled : Bool) (others later_others between : Db → Db)
    (command : AuthorizationCommand) (key : String) (now later_now : ℕ) (fresh later : Fresh)
    (db : Db)
    → (request_fits command && key_fits key) ≡ true
    → Unhindered key command (record fresh { now = now }) db (others db)
    → ((d : Db) → find_claim key (between d) ≡ find_claim key d)
    → (p : Payment) × (db' : Db) × (create_payment digest enabled others command key none
          (Reading.aware now)
          fresh
          db
        ≡ (Answer.answered 201 false (from_payment p), db'))
      × (create_payment digest enabled later_others command key none
            (Reading.aware later_now)
            later
            (between db')
          ≡ (Answer.answered 200 true (from_payment p), between db'))
unfolding create_payment authorize_payment read_clock resolve_failure_point
create_payment_retries digest enabled others later_others between command key now later_now fresh
      later db fits free keeps =
    let clocked = record fresh { now = now } in
    let (p, db', done, found, same, kept) =
      authorize_succeeds digest others command key clocked db free in
    let again =
      authorize_replays digest others key clocked db command db' (between db') p done (keeps db')
        later_others none (record later { now = later_now }) in
    (p, db', rw (fits, done) refl, rw (fits, again) refl)
