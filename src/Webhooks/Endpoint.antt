-- ===== src/Webhooks/Endpoint.antt =====
-- `consume_webhook` of services/webhooks.py from the bytes of a request on, and the two endpoints
-- of api/routes.py that call it: `receive_webhook` and `deliver_webhook_event`.
use payment_platform_quality.Prelude.{ℕ, pos, Bool, false, Option, String, ◌≡◌}
use payment_platform_quality.Failure.{Result, ok, err, ◌>>◌}
use payment_platform_quality.Database.Types.{EventPayload}
use payment_platform_quality.Database.Store.{Db}
use payment_platform_quality.Json.{Json, Dict, Body, Builtins}
use payment_platform_quality.Webhooks.Delivery.{
  DeliveryFault, DeliveryResult, Reply, Receiver, dispatch_webhook,
}
use payment_platform_quality.Webhooks.Signature.{
  Hmac, sign_webhook, verify_webhook_signature, tolerance_seconds,
}
use payment_platform_quality.Webhooks.Parse.{parse_webhook_payload}
use payment_platform_quality.Webhooks.Body.{event_body}
use payment_platform_quality.Webhooks.Consumer.{ConsumerOutcome, consume_webhook}

-- `_canonical_json` with its encoding, `json.loads`, and the SHA-256 of a body in hexadecimal.
pub record Wire : Type 0 where
  pub dumps : Dict → String
  pub loads : String → Body
  pub sha256 : String → String

-- What the services rely on: the text of an event is read back.
abbrev pub ReadsBack : Builtins → Wire → EventPayload → Type 0
ReadsBack py wire e =
    wire.loads (wire.dumps (event_body py e)) ≡ Body.json (Json.object (event_body py e))

-- An exception before the reads leaves the tables as they are.
unfoldable pub consume_parsed :
    (Db → Db) → String → ℕ → Bool → Db → Result EventPayload → Result ConsumerOutcome × Db
consume_parsed others payload_hash now fail_after_inbox db (err e) = (err e, db)
consume_parsed others payload_hash now fail_after_inbox db (ok e) =
    consume_webhook others payload_hash e now fail_after_inbox db

module _ (py : Builtins) (hmac : Hmac) (wire : Wire) where
  -- The signature is checked before the body is parsed.
  unfoldable pub accept_body : String → String → String → ℕ → Result EventPayload
  accept_body payload signature_header secret now =
      verify_webhook_signature py hmac payload signature_header secret now tolerance_seconds
      >> parse_webhook_payload py (wire.loads payload)

  -- The whole `consume_webhook`, as `receive_webhook` calls it.
  unfoldable pub receive_webhook :
      (Db → Db) → String → String → String → ℕ → Bool → Db → Result ConsumerOutcome × Db
  receive_webhook others payload signature_header secret now fail_after_inbox db =
      consume_parsed others (wire.sha256 payload) now fail_after_inbox db
        (accept_body payload signature_header secret now)

  abbrev pub reply_of : Result ConsumerOutcome × Db → Reply × Db
  reply_of (ok outcome, db) = (Reply.status 200, db)
  reply_of (err e, db) = (Reply.raises e, db)

  -- The receiver of `deliver_webhook_event`.
  unfoldable pub in_process_receiver : String → Receiver
  in_process_receiver secret payload signature received_at db =
      reply_of (receive_webhook (λ d. d) payload signature secret received_at false db)

  unfoldable pub deliver_webhook_event :
      String → String → String → String → ℕ → Option DeliveryFault → Db → Result DeliveryResult × Db
  deliver_webhook_event event_id secret lease_token attempt_id now fault db =
      dispatch_webhook (λ e. wire.dumps (event_body py e))
        (λ payload key timestamp. sign_webhook py hmac payload key (pos timestamp))
        (in_process_receiver secret) event_id secret lease_token attempt_id now fault db
