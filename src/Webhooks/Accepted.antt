-- ===== src/Webhooks/Accepted.antt =====
-- `parse_webhook_payload` of services/webhooks.py accepts valid events alone.
use payment_platform_quality.Prelude.{
  ℕ, ℤ, pos, negsuc, ◌≤◌, ◌≤ℤ◌, Bool, true, false, not, ◌||◌, Option, none, some, String, str_eq,
  ◌≡◌, refl, ap, sym, ◌∙◌, arith, ltb_ℤ, leb_ℤ, eqb_ℤ,
}
use mathlib.Core.Path.{subst}
use payment_platform_quality.Domain.Types.{Currency, PaymentStatus, PaymentFlow, DeclineReason}
use payment_platform_quality.Failure.{
  Failure, Result, ok, err, invalid_webhook_payload, >>=-eq-ok, ok-injective, raise_if, or_raise,
}
use payment_platform_quality.Domain.Operations.{payment_state}
use payment_platform_quality.Database.Types.{PaymentSnapshot, WebhookEventType, EventPayload}
use payment_platform_quality.Database.Tables.{is_some}
use payment_platform_quality.Json.{Json, Dict, get, Body, Builtins}
use payment_platform_quality.Webhooks.Parse.{
  string_value, required_string, required_integer, flow_field, optional_datetime, required_datetime,
  event_type_of, decline_reason_value, currency_of, status_of, flow_of, optional_string,
  required_mapping, as_invalid, check_snapshot, count_of, snapshot_fits, build_payment,
  parse_payment, parse_envelope, parse_webhook_payload,
}
use payment_platform_quality.Webhooks.Valid.{
  IsFilled, IsValidSnapshot, IsValidEvent, fits, fits_metadata, fits_reason, fits_awaiting,
  fits_requested, state_balances,
}

string_value-ok :
    (v : Option Json) (name u : String) → string_value v name ≡ ok u → str_eq u "" ≡ false
string_value-ok none name u h = cc
string_value-ok (some (Json.text s)) name u h = ground arith
string_value-ok (some _) name u h = cc

optional_string-ok :
    (v : Option Json) (name : String) (o : Option String)
    → optional_string v name ≡ ok o
    → IsFilled o
optional_string-ok none name o h = ground arith
optional_string-ok (some Json.null) name o h = ground arith
optional_string-ok (some (Json.text s)) name o h = ground arith
optional_string-ok (some _) name o h = cc

as_invalid-ok : {A : Type 0} (m : Result A) (a : A) → as_invalid m ≡ ok a → m ≡ ok a
as_invalid-ok (ok b) a h = h
as_invalid-ok (err e) a h = cc

raise_if-passes : (b : Bool) (e : Failure) → raise_if (not b) e ≡ ok tt → b ≡ true
raise_if-passes true e h = refl
raise_if-passes false e h = cc

-- What a check that passed has found.
check_snapshot-ok :
    (t : WebhookEventType) (c s f : String) (reason reference expiry : Bool)
    (authorized captured refunded : ℤ) (m : Currency × PaymentStatus × PaymentFlow)
    → check_snapshot t c s f reason reference expiry authorized captured refunded ≡ ok m
    → (snapshot_fits t m.1 m.2 reason reference expiry authorized captured refunded ≡ true)
      × ((pos 0 ≤ℤ refunded) × (refunded ≤ℤ captured) × (captured ≤ℤ authorized))
unfolding check_snapshot
check_snapshot-ok t c s f reason reference expiry authorized captured refunded m h =
    let c' = >>=-eq-ok (or_raise (currency_of c) (invalid_webhook_payload "currency")) _ h in
    let s' = >>=-eq-ok (or_raise (status_of s) (invalid_webhook_payload "status")) _ c'.2 in
    let f' = >>=-eq-ok (or_raise (flow_of f) (invalid_webhook_payload "payment_flow")) _ s'.2 in
    let found = snapshot_fits t s'.0 f'.0 reason reference expiry authorized captured refunded in
    let fit =
      >>=-eq-ok (raise_if (not found) (invalid_webhook_payload "Payment snapshot is invalid")) _
        f'.2 in
    let state = >>=-eq-ok (payment_state s'.0 authorized captured refunded) _ fit.2 in
    let same = ok-injective state.2 in
    (
      ap (λ m. snapshot_fits t m.1 m.2 reason reference expiry authorized captured refunded)
            (sym same)
          ∙ raise_if-passes found _ fit.1,
      state_balances s'.0 authorized captured refunded state.0 state.1,
    )

count_back :
    (n v : ℤ) (k : ℕ)
    → (ltb_ℤ n (pos 1) || not (eqb_ℤ v n)) ≡ false
    → k ≡ count_of v
    → (1 ≤ k) × (n ≡ pos k)
count_back (pos n) (pos v) k h e = (ground (arith, h, e), ground (arith, h, e))
count_back (pos n) (negsuc v) k h e = ground (arith, h)
count_back (negsuc n) v k h e = ground (arith, h)

-- What the checks of a payment make of its fields.
checked-IsValidSnapshot :
    (t : WebhookEventType) (n v : ℤ) (p : PaymentSnapshot)
    → (str_eq p.id "" ≡ false) × (str_eq p.merchant_reference "" ≡ false)
    → IsFilled p.payment_reference
    → (leb_ℤ p.amount (pos 0) || ltb_ℤ p.amount p.authorized_amount) ≡ false
    → (ltb_ℤ n (pos 1) || not (eqb_ℤ v n)) ≡ false
    → p.version ≡ count_of v
    → fits t p ≡ true
    → (pos 0 ≤ℤ p.refunded_amount)
      × (p.refunded_amount ≤ℤ p.captured_amount)
      × (p.captured_amount ≤ℤ p.authorized_amount)
    → IsValidSnapshot t p × (n ≡ pos p.version)
checked-IsValidSnapshot t n v p named reference amounts versions version fine balances = (
  record {
    named = named;
    reference_filled = reference;
    amount_positive = ground (arith, amounts);
    within = ground (arith, amounts);
    balances = balances;
    version_positive = (count_back n v p.version versions version).0;
    metadata = fits_metadata t p fine;
    reason = fits_reason t p fine;
    awaiting = fits_awaiting t p fine;
    requested = fits_requested t p fine;
  },
  (count_back n v p.version versions version).1,
)

raise_if-not : (b : Bool) (e : Failure) → raise_if b e ≡ ok tt → b ≡ false
raise_if-not true e h = cc
raise_if-not false e h = refl

build_payment-ok :
    (py : Builtins) (t : WebhookEventType) (n : ℤ) (values : Dict) (id : String)
    (amount authorized captured refunded version : ℤ) (currency status flow : String)
    (reference : Option String) (expiry : Option ℕ) (reason : Option DeclineReason)
    (p : PaymentSnapshot)
    → str_eq id "" ≡ false
    → IsFilled reference
    → build_payment py t n values id amount authorized captured refunded version currency status
        flow reference expiry reason
      ≡ ok p
    → IsValidSnapshot t p × (n ≡ pos p.version)
unfolding build_payment
build_payment-ok py t n values id amount authorized captured refunded version currency status flow
      reference expiry reason p named filled_reference h =
    let amount_test = leb_ℤ amount (pos 0) || ltb_ℤ amount authorized in
    let version_test = ltb_ℤ n (pos 1) || not (eqb_ℤ version n) in
    let amounts =
      >>=-eq-ok (raise_if amount_test (invalid_webhook_payload "Payment amounts are inconsistent"))
        _ h in
    let versions =
      >>=-eq-ok
        (raise_if version_test (invalid_webhook_payload "Payment version does not match the event"))
        _ amounts.2 in
    let check =
      check_snapshot t currency status flow (is_some reason) (is_some reference) (is_some expiry)
        authorized captured refunded in
    let members = >>=-eq-ok (as_invalid check) _ versions.2 in
    let merchant = >>=-eq-ok (required_string values "merchant_reference") _ members.2 in
    let created = >>=-eq-ok (required_datetime py values "created_at") _ merchant.2 in
    let updated = >>=-eq-ok (required_datetime py values "updated_at") _ created.2 in
    let found =
      check_snapshot-ok t currency status flow (is_some reason) (is_some reference) (is_some expiry)
        authorized captured refunded members.0 (as_invalid-ok check members.0 members.1) in
    subst (λ q. IsValidSnapshot t q × (n ≡ pos q.version)) (ok-injective updated.2)
      (checked-IsValidSnapshot t n version _
        (
          named,
          string_value-ok (get "merchant_reference" values) "merchant_reference" merchant.0
              merchant.1,
        )
        filled_reference (raise_if-not amount_test _ amounts.1)
        (raise_if-not version_test _ versions.1) refl found.0 found.1)

parse_payment-ok :
    (py : Builtins) (t : WebhookEventType) (n : ℤ) (values : Dict) (p : PaymentSnapshot)
    → parse_payment py t n values ≡ ok p
    → IsValidSnapshot t p × (n ≡ pos p.version)
unfolding parse_payment
parse_payment-ok py t n values p h =
    let id = >>=-eq-ok (required_string values "id") _ h in
    let amount = >>=-eq-ok (required_integer values "amount") _ id.2 in
    let authorized = >>=-eq-ok (required_integer values "authorized_amount") _ amount.2 in
    let captured = >>=-eq-ok (required_integer values "captured_amount") _ authorized.2 in
    let refunded = >>=-eq-ok (required_integer values "refunded_amount") _ captured.2 in
    let version = >>=-eq-ok (required_integer values "version") _ refunded.2 in
    let currency = >>=-eq-ok (required_string values "currency") _ version.2 in
    let status = >>=-eq-ok (required_string values "status") _ currency.2 in
    let flow = >>=-eq-ok (flow_field (get "payment_flow" values)) _ status.2 in
    let reference =
      >>=-eq-ok (optional_string (get "payment_reference" values) "payment_reference") _ flow.2 in
    let expiry =
      >>=-eq-ok (optional_datetime py (get "expires_at" values) "expires_at") _ reference.2 in
    let reason = >>=-eq-ok (decline_reason_value (get "decline_reason" values)) _ expiry.2 in
    build_payment-ok py t n values id.0 amount.0 authorized.0 captured.0 refunded.0 version.0
      currency.0 status.0 flow.0 reference.0 expiry.0 reason.0 p
      (string_value-ok (get "id" values) "id" id.0 id.1)
      (optional_string-ok (get "payment_reference" values) "payment_reference" reference.0
        reference.1)
      reason.2

-- The consumer accepts valid events alone: whatever the body of a request holds, what it is parsed
-- as has an id, the version of its payment, and a payment that satisfies every rule of an event.
pub parse_webhook_payload-IsValidEvent :
    (py : Builtins) (b : Body) (e : EventPayload)
    → parse_webhook_payload py b ≡ ok e
    → IsValidEvent e
unfolding parse_webhook_payload parse_envelope
parse_webhook_payload-IsValidEvent py Body.malformed e h = cc
parse_webhook_payload-IsValidEvent py (Body.json v) e h =
    let values = >>=-eq-ok (required_mapping (some v) "webhook") _ h in
    let id = >>=-eq-ok (required_string values.0 "id") _ values.2 in
    let kind = >>=-eq-ok (required_string values.0 "type") _ id.2 in
    let event_type =
      >>=-eq-ok (or_raise (event_type_of kind.0) (invalid_webhook_payload "type")) _ kind.2 in
    let version = >>=-eq-ok (required_integer values.0 "aggregate_version") _ event_type.2 in
    let created = >>=-eq-ok (required_datetime py values.0 "created_at") _ version.2 in
    let inner = >>=-eq-ok (required_mapping (get "payment" values.0) "payment") _ created.2 in
    let payment = >>=-eq-ok (parse_payment py event_type.0 version.0 inner.0) _ inner.2 in
    let valid = parse_payment-ok py event_type.0 version.0 inner.0 payment.0 payment.1 in
    subst IsValidEvent (ok-injective payment.2) (record {
      named = string_value-ok (get "id" values.0) "id" id.0 id.1;
      same_version = sym (ap count_of valid.1);
      snapshot = valid.0;
    })
