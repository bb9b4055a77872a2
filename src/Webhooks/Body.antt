-- ===== src/Webhooks/Body.antt =====
-- `_payment_payload` and the dictionary of `create_outbox_event` in services/webhooks.py.
use payment_platform_quality.Prelude.{ℕ, pos, Option, none, some, String}
use payment_platform_quality.Domain.Types.{currency_value, status_value, flow_value}
use payment_platform_quality.Database.Types.{PaymentSnapshot, EventPayload}
use payment_platform_quality.Json.{Json, Dict, Builtins}
use payment_platform_quality.Payments.Snapshot.{optional_text, reason_text}
use payment_platform_quality.Webhooks.Parse.{event_value}

module _ (py : Builtins) where
  -- `_format_datetime`
  abbrev pub format_datetime : ℕ → String
  format_datetime t = py.replace_text "+00:00" "Z" (py.isoformat t)

  abbrev pub format_optional : Option ℕ → Json
  format_optional none = Json.null
  format_optional (some t) = Json.text (format_datetime t)

  -- `_payment_payload`, in the order of the keys, by which `_canonical_json` sorts
  unfoldable pub payment_payload : PaymentSnapshot → Dict
  payment_payload p = Dict.entry "amount" (Json.int p.amount) (
      Dict.entry "authorized_amount" (Json.int p.authorized_amount) (
        Dict.entry "captured_amount" (Json.int p.captured_amount) (
          Dict.entry "created_at" (Json.text (format_datetime p.created_at)) (
            Dict.entry "currency" (Json.text (currency_value p.currency)) (
              Dict.entry "decline_reason" (optional_text (reason_text p.decline_reason)) (
                Dict.entry "expires_at" (format_optional p.expires_at) (
                  Dict.entry "id" (Json.text p.id) (
                    Dict.entry "merchant_reference" (Json.text p.merchant_reference) (
                      Dict.entry "payment_flow" (Json.text (flow_value p.payment_flow)) (
                        Dict.entry "payment_reference" (optional_text p.payment_reference) (
                          Dict.entry "refunded_amount" (Json.int p.refunded_amount) (
                            Dict.entry "status" (Json.text (status_value p.status)) (
                              Dict.entry "updated_at" (Json.text (format_datetime p.updated_at)) (
                                Dict.entry "version" (Json.int (pos p.version))
                                  Dict.end))))))))))))))

  -- The dictionary that `create_outbox_event` serializes.
  unfoldable pub event_body : EventPayload → Dict
  event_body e = Dict.entry "aggregate_version" (Json.int (pos e.aggregate_version)) (
      Dict.entry "created_at" (Json.text (format_datetime e.created_at)) (
        Dict.entry "id" (Json.text e.id) (
          Dict.entry "payment" (Json.object (payment_payload e.payment))
            (Dict.entry "type" (Json.text (event_value e.event_type)) Dict.end))))
