-- ===== src/Webhooks/Valid.antt =====
-- Which events `parse_webhook_payload` of services/webhooks.py means to accept, said without its
-- tests.
use payment_platform_quality.Prelude.{
  ℕ, ℤ, pos, ◌≤◌, ◌≤ℤ◌, ◌<ℤ◌, Bool, true, false, Option, none, some, String, str_eq, ◌≡◌, ◌↔◌,
  arith,
}
use payment_platform_quality.Domain.Types.{PaymentStatus, PaymentFlow, PaymentState}
use payment_platform_quality.Domain.Operations.{payment_state}
use payment_platform_quality.Failure.{ok}
use payment_platform_quality.Database.Types.{PaymentSnapshot, WebhookEventType, EventPayload}
use payment_platform_quality.Database.Tables.{is_some}
use payment_platform_quality.Webhooks.Parse.{snapshot_fits}

-- A delayed payment has a reference and an expiry, another one has neither.
abbrev pub HasMetadata : PaymentFlow → Option String → Option ℕ → Type 0
HasMetadata PaymentFlow.synchronous reference expiry = (reference ≡ none) × (expiry ≡ none)
HasMetadata PaymentFlow.asynchronous_confirmation reference expiry =
    (is_some reference ≡ true) × (is_some expiry ≡ true)

-- A reference that is there is not empty.
abbrev pub IsFilled : Option String → Type 0
IsFilled none = Unit
IsFilled (some s) = str_eq s "" ≡ false

-- The payment of an event of type `t`.
pub record IsValidSnapshot (t : WebhookEventType) (p : PaymentSnapshot) : Type 0 where
  pub named : (str_eq p.id "" ≡ false) × (str_eq p.merchant_reference "" ≡ false)
  pub reference_filled : IsFilled p.payment_reference
  pub amount_positive : pos 0 <ℤ p.amount
  pub within : p.authorized_amount ≤ℤ p.amount
  pub balances :
      (pos 0 ≤ℤ p.refunded_amount)
      × (p.refunded_amount ≤ℤ p.captured_amount)
      × (p.captured_amount ≤ℤ p.authorized_amount)
  pub version_positive : 1 ≤ p.version
  pub metadata : HasMetadata p.payment_flow p.payment_reference p.expires_at
  pub reason : (p.status ≡ PaymentStatus.declined) ↔ (is_some p.decline_reason ≡ true)
  pub awaiting :
      p.status ≡ PaymentStatus.awaiting_payment
      → (p.payment_flow ≡ PaymentFlow.asynchronous_confirmation)
        × (p.authorized_amount ≡ pos 0)
        × (p.captured_amount ≡ pos 0)
        × (p.refunded_amount ≡ pos 0)
  pub requested :
      t ≡ WebhookEventType.confirmation_requested → p.status ≡ PaymentStatus.awaiting_payment

pub record IsValidEvent (e : EventPayload) : Type 0 where
  pub named : str_eq e.id "" ≡ false
  pub same_version : e.payment.version ≡ e.aggregate_version
  pub snapshot : IsValidSnapshot e.event_type e.payment

abbrev pub fits : WebhookEventType → PaymentSnapshot → Bool
fits t p =
    snapshot_fits t p.status p.payment_flow (is_some p.decline_reason) (is_some p.payment_reference)
      (is_some p.expires_at) p.authorized_amount p.captured_amount p.refunded_amount

module _ (t : WebhookEventType) (p : PaymentSnapshot) where
  pub fits_metadata : fits t p ≡ true → HasMetadata p.payment_flow p.payment_reference p.expires_at
  unfolding snapshot_fits
  fits_metadata h = ground arith

  pub fits_reason :
      fits t p ≡ true → (p.status ≡ PaymentStatus.declined) ↔ (is_some p.decline_reason ≡ true)
  unfolding snapshot_fits
  fits_reason h = (λ e. ground arith, λ e. ground arith)

  pub fits_awaiting :
      fits t p ≡ true
      → p.status ≡ PaymentStatus.awaiting_payment
      → (p.payment_flow ≡ PaymentFlow.asynchronous_confirmation)
        × (p.authorized_amount ≡ pos 0)
        × (p.captured_amount ≡ pos 0)
        × (p.refunded_amount ≡ pos 0)
  unfolding snapshot_fits
  fits_awaiting h e = ground arith

  pub fits_requested :
      fits t p ≡ true
      → t ≡ WebhookEventType.confirmation_requested
      → p.status ≡ PaymentStatus.awaiting_payment
  unfolding snapshot_fits
  fits_requested h e = ground arith

  pub valid_fits : IsValidSnapshot t p → fits t p ≡ true
  unfolding snapshot_fits
  valid_fits v = ground (arith, v.metadata, v.reason, v.awaiting, v.requested)

  pub valid_state :
      IsValidSnapshot t p
      → payment_state p.status p.authorized_amount p.captured_amount p.refunded_amount
        ≡ ok (record {
          status = p.status;
          authorized_amount = p.authorized_amount;
          captured_amount = p.captured_amount;
          refunded_amount = p.refunded_amount;
        })
  unfolding payment_state
  valid_state v = ground (arith, v.balances)

pub state_balances :
    (status : PaymentStatus) (a c r : ℤ) (s : PaymentState)
    → payment_state status a c r ≡ ok s
    → (pos 0 ≤ℤ r) × (r ≤ℤ c) × (c ≤ℤ a)
unfolding payment_state
state_balances status a c r s h = ground arith
