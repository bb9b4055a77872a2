-- ===== src/Api/Queries.antt =====
-- The reads that the endpoints of api/routes.py make: of services/payments.py, of
-- services/webhooks.py and of services/confirmations.py.
use payment_platform_quality.Prelude.{
  Bool, ◌&&◌, ◌||◌, List, [], String, str_eq, str_leb, ltb, leb, ◌==◌, select, sort_by,
}
use payment_platform_quality.Failure.{
  Result, ok, confirmation_not_found, merchant_projection_not_found, webhook_event_not_found, ◌>>=◌,
  or_raise,
}
use payment_platform_quality.Database.Types.{LedgerEntry, WebhookEvent}
use payment_platform_quality.Database.Rows.{
  ConfirmationReceipt, DeliveryAttempt, MerchantProjection, PaymentConfirmation,
}
use payment_platform_quality.Database.Store.{Db, find_event, find_receipt, find_confirmation}
use payment_platform_quality.Payments.Lifecycle.{get_payment}
use payment_platform_quality.Reconciliation.Sources.{entries_of}
use payment_platform_quality.Webhooks.Consumer.{find_projection}

unfoldable pub get_ledger_entries : String → Db → Result (List LedgerEntry)
get_ledger_entries payment_id db = do
  payment ← get_payment [] payment_id db
  ok (entries_of payment_id db)

-- `ORDER BY created_at, id`
abbrev pub event_order : WebhookEvent → WebhookEvent → Bool
event_order a b =
    ltb a.created_at b.created_at || ((a.created_at == b.created_at) && str_leb a.id b.id)

unfoldable pub get_webhook_events : Db → List WebhookEvent
get_webhook_events db = sort_by event_order db.webhook_events

unfoldable pub get_delivery_attempts : String → Db → Result (List DeliveryAttempt)
get_delivery_attempts event_id db = do
  event ← or_raise (find_event event_id db) (webhook_event_not_found event_id)
  ok (
      sort_by (λ a b. leb a.attempt_number b.attempt_number)
        (select (λ a. str_eq a.event_id event_id) db.delivery_attempts))

unfoldable pub require_merchant_projection : String → Db → Result MerchantProjection
require_merchant_projection payment_id db =
    or_raise (find_projection payment_id db) (merchant_projection_not_found payment_id)

unfoldable pub get_confirmation : String → Db → Result PaymentConfirmation
get_confirmation confirmation_id db =
    or_raise (find_confirmation confirmation_id db) (confirmation_not_found confirmation_id)

unfoldable pub retrieve_confirmation_receipt : String → Db → Result ConfirmationReceipt
retrieve_confirmation_receipt confirmation_id db =
    or_raise (find_receipt confirmation_id db) (confirmation_not_found confirmation_id)
