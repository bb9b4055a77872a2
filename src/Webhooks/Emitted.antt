-- ===== src/Webhooks/Emitted.antt =====
-- What services/webhooks.py emits, its consumer reads back.
use payment_platform_quality.Prelude.{
  ℕ, pos, false, not, ◌||◌, Option, none, some, String, str_eq, ◌≡◌, refl, ap, sym, ◌∙◌, arith,
  ltb_ℤ, leb_ℤ, eqb_ℤ,
}
use payment_platform_quality.Domain.Types.{
  Currency, PaymentStatus, PaymentFlow, DeclineReason, currency_value, status_value, flow_value,
}
use payment_platform_quality.Failure.{ok}
use payment_platform_quality.Database.Types.{PaymentSnapshot, WebhookEventType, EventPayload}
use payment_platform_quality.Database.Tables.{is_some}
use payment_platform_quality.Json.{Json, get, Body, Builtins, Documented}
use payment_platform_quality.Payments.Snapshot.{optional_text, reason_text, reason_of, member}
use payment_platform_quality.Webhooks.Parse.{
  event_value, event_type_of, currency_of, status_of, flow_of, filled, optional_string,
  decline_reason_value, optional_datetime, required_datetime, check_snapshot, build_payment,
  parse_payment, parse_envelope, parse_webhook_payload,
}
use payment_platform_quality.Webhooks.Body.{format_optional, payment_payload, event_body}
use payment_platform_quality.Webhooks.Valid.{
  IsFilled, IsValidSnapshot, IsValidEvent, valid_fits, valid_state,
}

event_type_back :
    (t : WebhookEventType)
    → (event_type_of (event_value t) ≡ some t)
      × (filled (event_value t) "type" ≡ ok (event_value t))
unfolding event_type_of member
event_type_back WebhookEventType.authorized = (refl, refl)
event_type_back WebhookEventType.confirmation_requested = (refl, refl)
event_type_back WebhookEventType.declined = (refl, refl)
event_type_back WebhookEventType.captured = (refl, refl)
event_type_back WebhookEventType.cancelled = (refl, refl)
event_type_back WebhookEventType.refunded = (refl, refl)
event_type_back WebhookEventType.expired = (refl, refl)

currency_back :
    (c : Currency)
    → (currency_of (currency_value c) ≡ some c)
      × (filled (currency_value c) "currency" ≡ ok (currency_value c))
unfolding currency_of member
currency_back Currency.usd = (refl, refl)
currency_back Currency.jpy = (refl, refl)

status_back :
    (s : PaymentStatus)
    → (status_of (status_value s) ≡ some s)
      × (filled (status_value s) "status" ≡ ok (status_value s))
unfolding status_of member
status_back PaymentStatus.authorized = (refl, refl)
status_back PaymentStatus.awaiting_payment = (refl, refl)
status_back PaymentStatus.declined = (refl, refl)
status_back PaymentStatus.captured = (refl, refl)
status_back PaymentStatus.partially_refunded = (refl, refl)
status_back PaymentStatus.refunded = (refl, refl)
status_back PaymentStatus.cancelled = (refl, refl)
status_back PaymentStatus.expired = (refl, refl)

pub flow_back : (f : PaymentFlow) → flow_of (flow_value f) ≡ some f
unfolding flow_of member
flow_back PaymentFlow.synchronous = refl
flow_back PaymentFlow.asynchronous_confirmation = refl

reason_back :
    (r : Option DeclineReason) → decline_reason_value (some (optional_text (reason_text r))) ≡ ok r
unfolding reason_of member
reason_back none = refl
reason_back (some DeclineReason.insufficient_funds) = refl
reason_back (some DeclineReason.limit_exceeded) = refl
reason_back (some DeclineReason.expired_payment_method) = refl
reason_back (some DeclineReason.verification_failed) = refl
reason_back (some DeclineReason.invalid_payment_method) = refl
reason_back (some DeclineReason.unknown) = refl

reference_back :
    (o : Option String)
    → IsFilled o
    → optional_string (some (optional_text o)) "payment_reference" ≡ ok o
reference_back none h = refl
reference_back (some s) h = rw h refl

filled_back : (s name : String) → str_eq s "" ≡ false → filled s name ≡ ok s
filled_back s name h = rw h refl

check_back :
    (t : WebhookEventType) (p : PaymentSnapshot)
    → IsValidSnapshot t p
    → check_snapshot t
        (currency_value p.currency)
        (status_value p.status)
        (flow_value p.payment_flow)
        (is_some p.decline_reason)
        (is_some p.payment_reference)
        (is_some p.expires_at)
        p.authorized_amount
        p.captured_amount
        p.refunded_amount
      ≡ ok (p.currency, p.status, p.payment_flow)
unfolding check_snapshot
check_back t p v =
    rw
      (
        (currency_back p.currency).0,
        (status_back p.status).0,
        flow_back p.payment_flow,
        valid_fits t p v,
        valid_state t p v,
      )
      refl

amounts_pass :
    (t : WebhookEventType) (p : PaymentSnapshot)
    → IsValidSnapshot t p
    → ((leb_ℤ p.amount (pos 0) || ltb_ℤ p.amount p.authorized_amount) ≡ false)
      × ((ltb_ℤ (pos p.version) (pos 1) || not (eqb_ℤ (pos p.version) (pos p.version))) ≡ false)
amounts_pass t p v =
    (ground (arith, v.amount_positive, v.within), ground (arith, v.version_positive))

module _ (py : Builtins) (doc : Documented py) where
  expiry_back :
      (o : Option ℕ) → optional_datetime py (some (format_optional py o)) "expires_at" ≡ ok o
  expiry_back none = refl
  expiry_back (some t) =
      rw (doc.not_empty t, doc.offset_back t, doc.reads_back t, doc.in_range t) refl

  times_back :
      (p : PaymentSnapshot)
      → (required_datetime py (payment_payload py p) "created_at" ≡ ok p.created_at)
        × (required_datetime py (payment_payload py p) "updated_at" ≡ ok p.updated_at)
  unfolding payment_payload get
  times_back p = (
    rw
        (
          doc.not_empty p.created_at,
          doc.offset_back p.created_at,
          doc.reads_back p.created_at,
          doc.in_range p.created_at,
        )
        refl,
    rw
        (
          doc.not_empty p.updated_at,
          doc.offset_back p.updated_at,
          doc.reads_back p.updated_at,
          doc.in_range p.updated_at,
        )
        refl,
  )

  parse_payment-payload :
      (t : WebhookEventType) (p : PaymentSnapshot)
      → IsValidSnapshot t p
      → parse_payment py t (pos p.version) (payment_payload py p) ≡ ok p
  unfolding parse_payment build_payment payment_payload get
  parse_payment-payload t p v =
      let fine = amounts_pass t p v in
      simp (
        v.named.0,
        v.named.1,
        (currency_back p.currency).1,
        (status_back p.status).1,
        reference_back p.payment_reference v.reference_filled,
        expiry_back p.expires_at,
        reason_back p.decline_reason,
        fine.0,
        fine.1,
        check_back t p v,
        (times_back p).0,
        (times_back p).1,
      )

  created_back :
      (e : EventPayload) → required_datetime py (event_body py e) "created_at" ≡ ok e.created_at
  unfolding event_body get
  created_back e =
      rw
        (
          doc.not_empty e.created_at,
          doc.offset_back e.created_at,
          doc.reads_back e.created_at,
          doc.in_range e.created_at,
        )
        refl

  -- With the documented behaviour of the standard library, the consumer reads the dictionary of
  -- every valid event back as that event.
  pub parse-event_body :
      (e : EventPayload)
      → IsValidEvent e
      → parse_webhook_payload py (Body.json (Json.object (event_body py e))) ≡ ok e
  unfolding parse_webhook_payload parse_envelope event_body get
  parse-event_body e v =
      let same : e.payment.version ≡ e.aggregate_version = v.same_version in
      let paid =
        ap (λ n. parse_payment py e.event_type (pos n) (payment_payload py e.payment)) (sym same)
        ∙ parse_payment-payload e.event_type e.payment v.snapshot in
      simp (
        v.named,
        (event_type_back e.event_type).0,
        (event_type_back e.event_type).1,
        created_back e,
        paid,
      )
