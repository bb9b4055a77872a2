-- ===== src/Tests/Api.antt =====
-- Examples for the theorems on the endpoints.
use payment_platform_quality.Prelude.{Bool, none, [], String, ◌≡◌, refl, arith}
use payment_platform_quality.Failure.{Failure}
use payment_platform_quality.Database.Store.{Db, empty_db, payment_by_reference, version_taken}
use payment_platform_quality.Database.Types.{Payment}
use payment_platform_quality.Database.Tables.{find}
use payment_platform_quality.Webhooks.Outbox.{from_payment}
use payment_platform_quality.Payments.Commands.{AuthorizationCommand, Reading}
use payment_platform_quality.Payments.Progress.{Unhindered}
use payment_platform_quality.Api.Payments.{Answer, create_payment}
use payment_platform_quality.Api.Retries.{create_payment_retries}
use payment_platform_quality.Tests.Data.{alone, third_text, order, fresh}

abbrev command : AuthorizationCommand
command = order "order-9"

abbrev key : String
key = "key-order-9"

command-Unhindered : Unhindered key command (fresh 90 "pay-9" "e9") empty_db empty_db
unfolding find payment_by_reference version_taken
command-Unhindered = record {
  positive = ground arith;
  unclaimed = refl;
  still_unclaimed = refl;
  new_id = refl;
  new_reference = refl;
  new_entry = refl;
  new_event = refl;
  new_version = refl;
}

-- All payments are gone, the records of the keys are kept.
abbrev emptied : Db → Db
emptied d = record d { payments = []; ledger_entries = []; webhook_events = [] }

create_payment_retries_example :
    (p : Payment) × (db' : Db) × (create_payment third_text Bool.false alone command key none
        (Reading.aware 90)
        (fresh 0 "pay-9" "e9")
        empty_db
      ≡ (Answer.answered 201 Bool.false (from_payment p), db'))
    × (create_payment third_text Bool.false alone command key none
          (Reading.aware 95)
          (fresh 0 "pay-10" "e10")
          (emptied db')
        ≡ (Answer.answered 200 Bool.true (from_payment p), emptied db'))
create_payment_retries_example =
    create_payment_retries third_text Bool.false alone alone emptied command key 90 95
      (fresh 0 "pay-9" "e9") (fresh 0 "pay-10" "e10") empty_db refl command-Unhindered (λ d. refl)
