-- ===== src/Failure.antt =====
-- The exceptions of the program as values, and the result of code that may raise one. A message
-- is kept where the exception carries no other value.
use payment_platform_quality.Prelude.{
  ℤ, Bool, true, false, Option, none, some, String, ◌≡◌, ◌⊎◌, inl, inr, refl,
}
use mathlib.Core.Path.{subst}
use payment_platform_quality.Domain.Types.{PaymentOperation, PaymentStatus}

-- The transaction boundaries at which services/payments.py can be told to fail.
pub data FailurePoint : Type 0 where
  before_commit after_commit : FailurePoint

pub data Failure : Type 0 where
  value_error runtime_error lookup_error : String → Failure
  key_error index_error type_error overflow_error integrity_error stale_data operational_error
        assertion_error :
      Failure
  invalid_transition : PaymentOperation → PaymentStatus → Failure
  refund_amount_exceeded : ℤ → ℤ → Failure
  payment_not_found concurrent_payment_update : String → Failure
  idempotency_conflict confirmation_pending cancellation_unavailable : Failure
  simulated_timeout : FailurePoint → Failure
  confirmation_not_found invalid_confirmation_signature : String → Failure
  invalid_confirmation_payload merchant_projection_not_found : String → Failure
  failure_injection_disabled : Failure
  confirmation_id_conflict confirmation_processing_unavailable : Failure
  invalid_webhook_signature invalid_webhook_payload : String → Failure
  webhook_event_not_found webhook_delivery_not_ready webhook_event_collision : String → Failure
  webhook_version_conflict concurrent_webhook_consumer : String → Failure
  simulated_consumer_persistence : Failure
  settlement_batch_not_found settlement_payment_not_found : String → Failure
  settlement_payment_outside_cutoff : String → Failure

pub data Result {ℓ} (A : Type ℓ) : Type ℓ where
  ok : A → Result A
  err : Failure → Result A

-- `if test: raise failure`
abbrev pub raise_if : Bool → Failure → Result (Unit {0})
raise_if false failure = ok tt
raise_if true failure = err failure

-- A lookup that raises where nothing is found.
abbrev pub or_raise {ℓ} : {A : Type ℓ} → Option A → Failure → Result A
or_raise (some found) failure = ok found
or_raise none failure = err failure

-- An exception ends the sequence of statements.
infixl 5 ◌>>=◌
abbrev pub ◌>>=◌ {ℓ κ} : {A : Type ℓ} {B : Type κ} → Result A → (A → Result B) → Result B
err failure >>= next = err failure
ok found >>= next = next found

-- A chain that succeeds has succeeded in its first step.
pub >>=-eq-ok {ℓ κ} :
    {A : Type ℓ} {B : Type κ} (first : Result A) (next : A → Result B) {out : B}
    → (first >>= next) ≡ ok out
    → (found : A) × (first ≡ ok found) × (next found ≡ ok out)
>>=-eq-ok (err failure) next h = cc
>>=-eq-ok (ok found) next h = (found, refl, h)

-- A statement without a result, before the rest of the block.
infixl 5 ◌>>◌
abbrev pub ◌>>◌ {ℓ} : {B : Type ℓ} → Result (Unit {0}) → Result B → Result B
check >> rest = check >>= λ done. rest

-- To split on a computed result and keep the equation.
pub Result-cases {ℓ} :
    {A : Type ℓ} (r : Result A) → ((a : A) × (r ≡ ok a)) ⊎ ((e : Failure) × (r ≡ err e))
Result-cases (ok a) = inl (a, refl)
Result-cases (err e) = inr (e, refl)

pub ok-injective {ℓ} : {A : Type ℓ} {a b : A} → ok a ≡ ok b → a ≡ b
ok-injective e = cc

pub err-injective {ℓ} : {A : Type ℓ} {e f : Failure} → ◌≡◌ {A = Result A} (err e) (err f) → e ≡ f
err-injective e = cc

-- Every exception of the code satisfies the predicate.
abbrev pub RaisesOnly {ℓ} : {A : Type ℓ} → (Failure → Type 0) → Result A → Type ℓ
RaisesOnly P m = (e : Failure) → m ≡ err e → P e

pub >>=-RaisesOnly {ℓ κ} :
    {A : Type ℓ} {B : Type κ} (P : Failure → Type 0) (first : Result A) (next : A → Result B)
    → RaisesOnly P first
    → ((a : A) → RaisesOnly P (next a))
    → RaisesOnly P (first >>= next)
>>=-RaisesOnly P (err failure) next h k e q = h e (rw (err-injective q) refl)
>>=-RaisesOnly P (ok found) next h k e q = k found e q

pub err-RaisesOnly {ℓ} :
    (A : Type ℓ) (P : Failure → Type 0) (failure : Failure)
    → P failure
    → RaisesOnly {A = A} P (err failure)
err-RaisesOnly A P failure p e q = subst P (err-injective q) p

pub ok-RaisesOnly {ℓ} : {A : Type ℓ} (P : Failure → Type 0) (a : A) → RaisesOnly P (ok a)
ok-RaisesOnly P a e q = cc

pub raise_if-RaisesOnly :
    (P : Failure → Type 0) (test : Bool) (failure : Failure)
    → P failure
    → RaisesOnly P (raise_if test failure)
raise_if-RaisesOnly P true failure p = err-RaisesOnly _ P failure p
raise_if-RaisesOnly P false failure p = ok-RaisesOnly P tt

pub or_raise-RaisesOnly {ℓ} :
    {A : Type ℓ} (P : Failure → Type 0) (o : Option A) (failure : Failure)
    → P failure
    → RaisesOnly P (or_raise o failure)
or_raise-RaisesOnly P none failure p = err-RaisesOnly _ P failure p
or_raise-RaisesOnly P (some a) failure p = ok-RaisesOnly P a
