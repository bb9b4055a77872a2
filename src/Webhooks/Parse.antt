-- ===== src/Webhooks/Parse.antt =====
-- `parse_webhook_payload` of services/webhooks.py, and the dictionary that the outbox serializes.
use payment_platform_quality.Prelude.{
  ℕ, ℤ, pos, negsuc, Bool, true, false, not, ◌&&◌, ◌||◌, Option, none, some, List, [], ◌∷◌, String,
  str_eq, ltb_ℤ, leb_ℤ, eqb_ℤ, if◌then◌else◌,
}
use payment_platform_quality.Domain.Types.{
  Currency, PaymentStatus, same_status, PaymentFlow, DeclineReason, currency_value, status_value,
  flow_value,
}
use payment_platform_quality.Domain.Operations.{payment_state}
use payment_platform_quality.Failure.{
  Result, ok, err, invalid_webhook_payload, overflow_error, ◌>>=◌, ◌>>◌, raise_if, or_raise,
}
use payment_platform_quality.Database.Types.{PaymentSnapshot, WebhookEventType, EventPayload}
use payment_platform_quality.Database.Tables.{is_some}
use payment_platform_quality.Json.{Json, Dict, get, Body, Builtins}
use payment_platform_quality.Payments.Snapshot.{reason_of, member}

abbrev pub event_value : WebhookEventType → String
event_value WebhookEventType.authorized = "payment.authorized"
event_value WebhookEventType.confirmation_requested = "payment.confirmation_requested"
event_value WebhookEventType.declined = "payment.declined"
event_value WebhookEventType.captured = "payment.captured"
event_value WebhookEventType.cancelled = "payment.cancelled"
event_value WebhookEventType.refunded = "payment.refunded"
event_value WebhookEventType.expired = "payment.expired"

abbrev pub event_types : List WebhookEventType
event_types =
    WebhookEventType.authorized ∷ WebhookEventType.confirmation_requested
    ∷ WebhookEventType.declined ∷ WebhookEventType.captured ∷ WebhookEventType.cancelled
    ∷ WebhookEventType.refunded ∷ WebhookEventType.expired ∷ []

abbrev pub statuses : List PaymentStatus
statuses =
    PaymentStatus.authorized ∷ PaymentStatus.awaiting_payment ∷ PaymentStatus.declined
    ∷ PaymentStatus.captured ∷ PaymentStatus.partially_refunded ∷ PaymentStatus.refunded
    ∷ PaymentStatus.cancelled ∷ PaymentStatus.expired ∷ []

unfoldable pub event_type_of : String → Option WebhookEventType
event_type_of s = member event_value event_types s

unfoldable pub currency_of : String → Option Currency
currency_of s = member currency_value (Currency.usd ∷ Currency.jpy ∷ []) s

unfoldable pub status_of : String → Option PaymentStatus
status_of s = member status_value statuses s

unfoldable pub flow_of : String → Option PaymentFlow
flow_of s =
    member flow_value (PaymentFlow.synchronous ∷ PaymentFlow.asynchronous_confirmation ∷ []) s

-- `InvalidWebhookPayloadError`; the name of the field stands for the rest of its message.
abbrev pub invalid : {A : Type 0} → String → Result A
invalid message = err (invalid_webhook_payload message)

abbrev pub required_mapping : Option Json → String → Result Dict
required_mapping (some (Json.object values)) name = ok values
required_mapping _ name = invalid name

abbrev pub filled : String → String → Result String
filled s name = if str_eq s "" then invalid name else ok s

abbrev pub string_value : Option Json → String → Result String
string_value (some (Json.text s)) name = filled s name
string_value _ name = invalid name

abbrev pub required_string : Dict → String → Result String
required_string values name = string_value (get name values) name

abbrev pub integer_value : Option Json → String → Result ℤ
integer_value (some (Json.int x)) name = ok x
integer_value _ name = invalid name

-- A Boolean is refused before the test for an integer.
abbrev pub required_integer : Dict → String → Result ℤ
required_integer values name = integer_value (get name values) name

abbrev pub optional_string : Option Json → String → Result (Option String)
optional_string none name = ok none
optional_string (some Json.null) name = ok none
optional_string v name = string_value v name >>= λ s. ok (some s)

-- `_decline_reason`: the key has to be there.
abbrev pub decline_reason_value : Option Json → Result (Option DeclineReason)
decline_reason_value (some Json.null) = ok none
decline_reason_value (some (Json.text s)) =
    or_raise (reason_of s) (invalid_webhook_payload "decline_reason") >>= λ r. ok (some r)
decline_reason_value _ = invalid "decline_reason"

-- `payment_values.get("payment_flow", PaymentFlow.SYNCHRONOUS.value)`, which has to be a text
abbrev pub flow_field : Option Json → Result String
flow_field none = ok "SYNCHRONOUS"
flow_field (some (Json.text s)) = ok s
flow_field (some _) = invalid "payment_flow"

-- The metadata that the flow wants.
abbrev pub metadata_fits : PaymentFlow → Bool → Bool → Bool
metadata_fits PaymentFlow.synchronous has_reference has_expiry = not has_reference && not has_expiry
metadata_fits PaymentFlow.asynchronous_confirmation has_reference has_expiry =
    has_reference && has_expiry

abbrev pub is_asynchronous : PaymentFlow → Bool
is_asynchronous PaymentFlow.synchronous = false
is_asynchronous PaymentFlow.asynchronous_confirmation = true

abbrev pub is_confirmation_request : WebhookEventType → Bool
is_confirmation_request WebhookEventType.confirmation_requested = true
is_confirmation_request _ = false

abbrev pub is_zero : ℤ → Bool
is_zero x = eqb_ℤ x (pos 0)

-- The tests of the `try` block that are not conversions of a text.
unfoldable pub snapshot_fits :
    WebhookEventType → PaymentStatus → PaymentFlow → Bool → Bool → Bool → ℤ → ℤ → ℤ → Bool
snapshot_fits event_type status flow has_reason has_reference has_expiry authorized captured
      refunded =
    elim (same_status status PaymentStatus.declined) [ true ↦ has_reason | false ↦ not has_reason ]
    && metadata_fits flow has_reference has_expiry
    && (not (same_status status PaymentStatus.awaiting_payment)
        || (is_asynchronous flow && is_zero authorized && is_zero captured && is_zero refunded))
    && (not (is_confirmation_request event_type)
        || same_status status PaymentStatus.awaiting_payment)

-- `except ValueError`
abbrev pub as_invalid : {A : Type 0} → Result A → Result A
as_invalid (ok a) = ok a
as_invalid (err e) = invalid "Payment snapshot is invalid"

-- The version of an accepted event is positive.
abbrev pub count_of : ℤ → ℕ
count_of (pos n) = n
count_of (negsuc n) = 0

-- The three enumerations of the `try` block, in its order, and its tests.
unfoldable pub check_snapshot :
    WebhookEventType
    → String
    → String
    → String
    → Bool
    → Bool
    → Bool
    → ℤ
    → ℤ
    → ℤ
    → Result (Currency × PaymentStatus × PaymentFlow)
check_snapshot event_type currency_text status_text flow_text has_reason has_reference has_expiry
      authorized captured refunded =
    do
      currency ← or_raise (currency_of currency_text) (invalid_webhook_payload "currency")
      status ← or_raise (status_of status_text) (invalid_webhook_payload "status")
      flow ← or_raise (flow_of flow_text) (invalid_webhook_payload "payment_flow")
      raise_if
          (not (
            snapshot_fits event_type status flow has_reason has_reference has_expiry authorized
              captured refunded))
          (invalid_webhook_payload "Payment snapshot is invalid")
      state ← payment_state status authorized captured refunded
      ok (currency, status, flow)

module _ (py : Builtins) where
  -- `_as_utc(datetime.fromisoformat(value.replace("Z", "+00:00")))`: the handler is for ValueError,
  -- and the conversion to UTC raises OverflowError.
  abbrev pub parse_time : String → String → Result ℕ
  parse_time s name = do
    t ← or_raise (py.fromisoformat (py.replace_text "Z" "+00:00" s)) (invalid_webhook_payload name)
    raise_if (py.overflows (py.replace_text "Z" "+00:00" s)) overflow_error
    ok t

  abbrev pub required_datetime : Dict → String → Result ℕ
  required_datetime values name = required_string values name >>= λ s. parse_time s name

  abbrev pub optional_datetime : Option Json → String → Result (Option ℕ)
  optional_datetime none name = ok none
  optional_datetime (some Json.null) name = ok none
  optional_datetime v name = string_value v name >>= λ s. parse_time s name >>= λ t. ok (some t)

  -- The tests of the fields that were read, and the rest of the payment.
  unfoldable pub build_payment :
      WebhookEventType
      → ℤ
      → Dict
      → String
      → ℤ
      → ℤ
      → ℤ
      → ℤ
      → ℤ
      → String
      → String
      → String
      → Option String
      → Option ℕ
      → Option DeclineReason
      → Result PaymentSnapshot
  build_payment event_type aggregate_version values id amount authorized captured refunded version
        currency_text status_text flow_text payment_reference expires_at decline_reason =
      do
        raise_if (leb_ℤ amount (pos 0) || ltb_ℤ amount authorized)
            (invalid_webhook_payload "Payment amounts are inconsistent")
        raise_if (ltb_ℤ aggregate_version (pos 1) || not (eqb_ℤ version aggregate_version))
            (invalid_webhook_payload "Payment version does not match the event")
        members ← as_invalid (
            check_snapshot event_type currency_text status_text flow_text (is_some decline_reason)
              (is_some payment_reference) (is_some expires_at) authorized captured refunded)
        merchant_reference ← required_string values "merchant_reference"
        created_at ← required_datetime values "created_at"
        updated_at ← required_datetime values "updated_at"
        ok (record {
          id = id;
          merchant_reference = merchant_reference;
          amount = amount;
          currency = members.0;
          status = members.1;
          payment_flow = members.2;
          payment_reference = payment_reference;
          expires_at = expires_at;
          decline_reason = decline_reason;
          authorized_amount = authorized;
          captured_amount = captured;
          refunded_amount = refunded;
          version = count_of version;
          created_at = created_at;
          updated_at = updated_at;
        })

  -- The payment of an event of this type and version.
  unfoldable pub parse_payment : WebhookEventType → ℤ → Dict → Result PaymentSnapshot
  parse_payment event_type aggregate_version values = do
    id ← required_string values "id"
    amount ← required_integer values "amount"
    authorized ← required_integer values "authorized_amount"
    captured ← required_integer values "captured_amount"
    refunded ← required_integer values "refunded_amount"
    version ← required_integer values "version"
    currency_text ← required_string values "currency"
    status_text ← required_string values "status"
    flow_text ← flow_field (get "payment_flow" values)
    payment_reference ← optional_string (get "payment_reference" values) "payment_reference"
    expires_at ← optional_datetime (get "expires_at" values) "expires_at"
    decline_reason ← decline_reason_value (get "decline_reason" values)
    build_payment event_type aggregate_version values id amount authorized captured refunded version
        currency_text status_text flow_text payment_reference expires_at decline_reason

  unfoldable pub parse_envelope : Dict → Result EventPayload
  parse_envelope values = do
    id ← required_string values "id"
    type_text ← required_string values "type"
    event_type ← or_raise (event_type_of type_text) (invalid_webhook_payload "type")
    aggregate_version ← required_integer values "aggregate_version"
    created_at ← required_datetime values "created_at"
    payment_values ← required_mapping (get "payment" values) "payment"
    payment ← parse_payment event_type aggregate_version payment_values
    ok (record {
      id = id;
      event_type = event_type;
      aggregate_version = count_of aggregate_version;
      created_at = created_at;
      payment = payment;
    })

  unfoldable pub parse_webhook_payload : Body → Result EventPayload
  parse_webhook_payload Body.malformed = invalid "Webhook body must be valid JSON"
  parse_webhook_payload (Body.json v) = required_mapping (some v) "webhook" >>= parse_envelope
