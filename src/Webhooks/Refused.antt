-- ===== src/Webhooks/Refused.antt =====
-- The exceptions of `parse_webhook_payload` and `consume_webhook` in services/webhooks.py.
use payment_platform_quality.Prelude.{
  ℕ, ℤ, pos, leb_ℤ, ltb_ℤ, eqb_ℤ, not, ◌||◌, Bool, Option, none, some, String, str_eq, ◌≡◌, ◌⊎◌,
  inl, inr, refl, Bool-cases,
}
use payment_platform_quality.Failure.{
  Failure, Result, ok, err, invalid_webhook_payload, overflow_error, RaisesOnly, >>=-RaisesOnly,
  err-RaisesOnly, ok-RaisesOnly, raise_if-RaisesOnly, or_raise-RaisesOnly, ◌>>=◌, raise_if,
  or_raise,
}
use payment_platform_quality.Domain.Types.{DeclineReason}
use payment_platform_quality.Database.Types.{WebhookEventType}
use payment_platform_quality.Database.Tables.{is_some}
use payment_platform_quality.Json.{Json, Dict, get, Body, Builtins}
use payment_platform_quality.Payments.Snapshot.{reason_of}
use payment_platform_quality.Webhooks.Parse.{
  invalid, required_mapping, filled, string_value, required_string, integer_value, required_integer,
  optional_string, decline_reason_value, flow_field, as_invalid, event_type_of, parse_time,
  required_datetime, optional_datetime, check_snapshot, build_payment, parse_payment,
  parse_envelope, parse_webhook_payload,
}

abbrev pub IsPayloadFailure : Failure → Type 0
IsPayloadFailure e = ((m : String) × (e ≡ invalid_webhook_payload m)) ⊎ (e ≡ overflow_error)

-- A parser that raises nothing else.
abbrev pub IsStrict : {A : Type 0} → Result A → Type 0
IsStrict m = RaisesOnly IsPayloadFailure m

invalid-IsStrict : (A : Type 0) (m : String) → IsStrict {A = A} (invalid m)
invalid-IsStrict A m = err-RaisesOnly A IsPayloadFailure (invalid_webhook_payload m) (inl (m, refl))

then-IsStrict :
    {A B : Type 0} (first : Result A) (next : A → Result B)
    → IsStrict first
    → ((a : A) → IsStrict (next a))
    → IsStrict (first >>= next)
then-IsStrict first next h k = >>=-RaisesOnly IsPayloadFailure first next h k

ok-IsStrict : {A : Type 0} (a : A) → IsStrict (ok a)
ok-IsStrict a = ok-RaisesOnly IsPayloadFailure a

raise_if-IsStrict :
    (test : Bool) (m : String) → IsStrict (raise_if test (invalid_webhook_payload m))
raise_if-IsStrict test m =
    raise_if-RaisesOnly IsPayloadFailure test (invalid_webhook_payload m) (inl (m, refl))

or_raise-IsStrict :
    {A : Type 0} (o : Option A) (m : String) → IsStrict (or_raise o (invalid_webhook_payload m))
or_raise-IsStrict o m =
    or_raise-RaisesOnly IsPayloadFailure o (invalid_webhook_payload m) (inl (m, refl))

required_mapping-IsStrict : (v : Option Json) (name : String) → IsStrict (required_mapping v name)
required_mapping-IsStrict (some (Json.object values)) name = ok-IsStrict values
required_mapping-IsStrict none name = invalid-IsStrict _ name
required_mapping-IsStrict (some _) name = invalid-IsStrict _ name

filled-IsStrict : (s name : String) → IsStrict (filled s name)
filled-IsStrict s name = elim (Bool-cases (str_eq s "")) [
  | inl empty ↦ rw empty (invalid-IsStrict _ name)
  | inr full ↦ rw full (ok-IsStrict s)
]

string_value-IsStrict : (v : Option Json) (name : String) → IsStrict (string_value v name)
string_value-IsStrict (some (Json.text s)) name = filled-IsStrict s name
string_value-IsStrict none name = invalid-IsStrict _ name
string_value-IsStrict (some _) name = invalid-IsStrict _ name

integer_value-IsStrict : (v : Option Json) (name : String) → IsStrict (integer_value v name)
integer_value-IsStrict (some (Json.int x)) name = ok-IsStrict x
integer_value-IsStrict none name = invalid-IsStrict _ name
integer_value-IsStrict (some _) name = invalid-IsStrict _ name

optional_string-IsStrict : (v : Option Json) (name : String) → IsStrict (optional_string v name)
optional_string-IsStrict none name = ok-IsStrict none
optional_string-IsStrict (some Json.null) name = ok-IsStrict none
optional_string-IsStrict (some (Json.text s)) name =
    then-IsStrict (filled s name) _ (filled-IsStrict s name) (λ t. ok-IsStrict (some t))
optional_string-IsStrict (some _) name = invalid-IsStrict _ name

decline_reason_value-IsStrict : (v : Option Json) → IsStrict (decline_reason_value v)
decline_reason_value-IsStrict (some Json.null) = ok-IsStrict none
decline_reason_value-IsStrict (some (Json.text s)) =
    then-IsStrict (or_raise (reason_of s) (invalid_webhook_payload "decline_reason")) _
      (or_raise-IsStrict (reason_of s) "decline_reason") (λ r. ok-IsStrict (some r))
decline_reason_value-IsStrict none = invalid-IsStrict _ "decline_reason"
decline_reason_value-IsStrict (some _) = invalid-IsStrict _ "decline_reason"

flow_field-IsStrict : (v : Option Json) → IsStrict (flow_field v)
flow_field-IsStrict none = ok-IsStrict "SYNCHRONOUS"
flow_field-IsStrict (some (Json.text s)) = ok-IsStrict s
flow_field-IsStrict (some _) = invalid-IsStrict _ "payment_flow"

as_invalid-IsStrict : {A : Type 0} (m : Result A) → IsStrict (as_invalid m)
as_invalid-IsStrict (ok a) = ok-IsStrict a
as_invalid-IsStrict (err e) = invalid-IsStrict _ "Payment snapshot is invalid"

module _ (py : Builtins) where
  parse_time-IsStrict : (s name : String) → IsStrict (parse_time py s name)
  parse_time-IsStrict s name =
      let u = py.replace_text "Z" "+00:00" s in
      then-IsStrict (or_raise (py.fromisoformat u) (invalid_webhook_payload name)) _
        (or_raise-IsStrict (py.fromisoformat u) name)
        (λ t.
          then-IsStrict (raise_if (py.overflows u) overflow_error) _
            (raise_if-RaisesOnly IsPayloadFailure (py.overflows u) overflow_error (inr refl))
            (λ done. ok-IsStrict t))

  required_datetime-IsStrict :
      (values : Dict) (name : String) → IsStrict (required_datetime py values name)
  required_datetime-IsStrict values name =
      then-IsStrict (required_string values name) _ (string_value-IsStrict (get name values) name)
        (λ s. parse_time-IsStrict s name)

  optional_datetime-IsStrict :
      (v : Option Json) (name : String) → IsStrict (optional_datetime py v name)
  optional_datetime-IsStrict none name = ok-IsStrict none
  optional_datetime-IsStrict (some Json.null) name = ok-IsStrict none
  optional_datetime-IsStrict (some (Json.text s)) name =
      then-IsStrict (filled s name) _ (filled-IsStrict s name) (λ u.
        then-IsStrict (parse_time py u name) _ (parse_time-IsStrict u name)
          (λ t. ok-IsStrict (some t)))
  optional_datetime-IsStrict (some _) name = invalid-IsStrict _ name

  build_payment-IsStrict :
      (t : WebhookEventType) (n : ℤ) (values : Dict) (id : String)
      (amount authorized captured refunded version : ℤ) (currency status flow : String)
      (reference : Option String) (expiry : Option ℕ) (reason : Option DeclineReason)
      → IsStrict (
          build_payment py t n values id amount authorized captured refunded version currency status
            flow reference expiry reason)
  unfolding build_payment
  build_payment-IsStrict t n values id amount authorized captured refunded version currency status
        flow reference expiry reason =
      let amount_test = leb_ℤ amount (pos 0) || ltb_ℤ amount authorized in
      let version_test = ltb_ℤ n (pos 1) || not (eqb_ℤ version n) in
      let inconsistent : String = "Payment amounts are inconsistent" in
      let other_version : String = "Payment version does not match the event" in
      let check =
        check_snapshot t currency status flow (is_some reason) (is_some reference) (is_some expiry)
          authorized captured refunded in
      then-IsStrict (raise_if amount_test (invalid_webhook_payload inconsistent)) _
        (raise_if-IsStrict amount_test inconsistent)
        (λ amounts.
          then-IsStrict (raise_if version_test (invalid_webhook_payload other_version)) _
            (raise_if-IsStrict version_test other_version)
            (λ versions. then-IsStrict (as_invalid check) _ (as_invalid-IsStrict check) (λ members.
              then-IsStrict (required_string values "merchant_reference") _
                (string_value-IsStrict (get "merchant_reference" values) "merchant_reference")
                (λ merchant.
                  then-IsStrict (required_datetime py values "created_at") _
                    (required_datetime-IsStrict values "created_at")
                    (λ created.
                      then-IsStrict (required_datetime py values "updated_at") _
                        (required_datetime-IsStrict values "updated_at")
                        (λ updated. ok-IsStrict _))))))

  integer-IsStrict : (values : Dict) (name : String) → IsStrict (required_integer values name)
  integer-IsStrict values name = integer_value-IsStrict (get name values) name

  string-IsStrict : (values : Dict) (name : String) → IsStrict (required_string values name)
  string-IsStrict values name = string_value-IsStrict (get name values) name

  parse_payment-IsStrict :
      (t : WebhookEventType) (n : ℤ) (values : Dict) → IsStrict (parse_payment py t n values)
  unfolding parse_payment
  parse_payment-IsStrict t n values =
      let number = (λ (name : String). integer-IsStrict values name) in
      let reference = optional_string (get "payment_reference" values) "payment_reference" in
      let expiry = optional_datetime py (get "expires_at" values) "expires_at" in
      then-IsStrict (required_string values "id") _ (string-IsStrict values "id") (λ id.
        then-IsStrict (required_integer values "amount") _ (number "amount") (λ amount.
          then-IsStrict (required_integer values "authorized_amount") _ (number "authorized_amount")
            (λ authorized.
              then-IsStrict (required_integer values "captured_amount") _ (number "captured_amount")
                (λ captured.
                  then-IsStrict (required_integer values "refunded_amount") _
                    (number "refunded_amount")
                    (λ refunded.
                      then-IsStrict (required_integer values "version") _ (number "version")
                        (λ version.
                          then-IsStrict (required_string values "currency") _
                            (string-IsStrict values "currency")
                            (λ currency.
                              then-IsStrict (required_string values "status") _
                                (string-IsStrict values "status")
                                (λ status.
                                  then-IsStrict (flow_field (get "payment_flow" values)) _
                                    (flow_field-IsStrict (get "payment_flow" values))
                                    (λ flow.
                                      then-IsStrict reference _
                                        (optional_string-IsStrict (get "payment_reference" values)
                                          "payment_reference")
                                        (λ paid.
                                          then-IsStrict expiry _
                                            (optional_datetime-IsStrict (get "expires_at" values)
                                              "expires_at")
                                            (λ due.
                                              then-IsStrict
                                                (decline_reason_value (get "decline_reason" values))
                                                _
                                                (decline_reason_value-IsStrict
                                                  (get "decline_reason" values))
                                                (λ reason.
                                                  build_payment-IsStrict t n values id amount
                                                    authorized captured refunded version currency
                                                    status flow paid due reason))))))))))))

  parse_envelope-IsStrict : (values : Dict) → IsStrict (parse_envelope py values)
  unfolding parse_envelope
  parse_envelope-IsStrict values =
      then-IsStrict (required_string values "id") _ (string-IsStrict values "id") (λ id.
        then-IsStrict (required_string values "type") _ (string-IsStrict values "type") (λ kind.
          then-IsStrict (or_raise (event_type_of kind) (invalid_webhook_payload "type")) _
            (or_raise-IsStrict (event_type_of kind) "type")
            (λ event_type.
              then-IsStrict (required_integer values "aggregate_version") _
                (integer-IsStrict values "aggregate_version")
                (λ version.
                  then-IsStrict (required_datetime py values "created_at") _
                    (required_datetime-IsStrict values "created_at")
                    (λ created.
                      then-IsStrict (required_mapping (get "payment" values) "payment") _
                        (required_mapping-IsStrict (get "payment" values) "payment")
                        (λ inner.
                          then-IsStrict (parse_payment py event_type version inner) _
                            (parse_payment-IsStrict event_type version inner)
                            (λ payment. ok-IsStrict _)))))))

  -- Whatever the body holds, parsing it raises InvalidWebhookPayloadError or OverflowError alone.
  pub parse_webhook_payload-IsStrict : (b : Body) → IsStrict (parse_webhook_payload py b)
  unfolding parse_webhook_payload
  parse_webhook_payload-IsStrict Body.malformed =
      invalid-IsStrict _ "Webhook body must be valid JSON"
  parse_webhook_payload-IsStrict (Body.json v) =
      then-IsStrict (required_mapping (some v) "webhook") _
        (required_mapping-IsStrict (some v) "webhook") (λ values. parse_envelope-IsStrict values)
