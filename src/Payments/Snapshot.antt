-- ===== src/Payments/Snapshot.antt =====
-- `PaymentSnapshot.serialize` and `deserialize` of services/payments.py.
use payment_platform_quality.Prelude.{
  ℕ, ℤ, pos, Option, none, some, List, [], ◌∷◌, String, str_eq, if◌then◌else◌, ◌≡◌, refl,
}
use payment_platform_quality.Domain.Types.{
  DeclineReason, reason_value, status_value, flow_value, currency_value,
}
use payment_platform_quality.Failure.{
  Result, ok, err, value_error, key_error, type_error, ◌>>=◌, or_raise,
}
use payment_platform_quality.Database.Types.{PaymentSnapshot}
use payment_platform_quality.Json.{Json, Dict, get, Builtins, Documented}

-- The fields of `PaymentSnapshot` with their own types: enumerations are texts there.
pub record SnapshotTexts : Type 0 where
  pub id : String
  pub merchant_reference : String
  pub amount : ℤ
  pub currency : String
  pub status : String
  pub payment_flow : String
  pub payment_reference : Option String
  pub expires_at : Option ℕ
  pub decline_reason : Option String
  pub authorized_amount : ℤ
  pub captured_amount : ℤ
  pub refunded_amount : ℤ
  pub version : ℤ
  pub created_at : ℕ
  pub updated_at : ℕ

abbrev pub optional_text : Option String → Json
optional_text none = Json.null
optional_text (some s) = Json.text s

abbrev pub reason_text : Option DeclineReason → Option String
reason_text none = none
reason_text (some r) = some (reason_value r)

-- The texts of a snapshot, as the columns hold them.
abbrev pub texts_of : PaymentSnapshot → SnapshotTexts
texts_of s = record {
  id = s.id;
  merchant_reference = s.merchant_reference;
  amount = s.amount;
  currency = currency_value s.currency;
  status = status_value s.status;
  payment_flow = flow_value s.payment_flow;
  payment_reference = s.payment_reference;
  expires_at = s.expires_at;
  decline_reason = reason_text s.decline_reason;
  authorized_amount = s.authorized_amount;
  captured_amount = s.captured_amount;
  refunded_amount = s.refunded_amount;
  version = pos s.version;
  created_at = s.created_at;
  updated_at = s.updated_at;
}

abbrev pub reasons : List DeclineReason
reasons =
    DeclineReason.insufficient_funds ∷ DeclineReason.limit_exceeded
    ∷ DeclineReason.expired_payment_method ∷ DeclineReason.verification_failed
    ∷ DeclineReason.invalid_payment_method ∷ DeclineReason.unknown ∷ []

-- `Enumeration(value)`: the member with this text, if there is one
unfoldable pub member : {A : Type 0} → (A → String) → List A → String → Option A
member value [] s = none
member value (a ∷ rest) s = if str_eq (value a) s then some a else member value rest s

unfoldable pub reason_of : String → Option DeclineReason
reason_of s = member reason_value reasons s

-- `values[name]`
abbrev pub at : String → Dict → Result Json
at name values = or_raise (get name values) key_error

-- `values.get(name) is not None`, and then the value
abbrev pub present : Option Json → Option Json
present none = none
present (some Json.null) = none
present (some v) = some v

module _ (py : Builtins) where
  abbrev pub optional_time : Option ℕ → Json
  optional_time none = Json.null
  optional_time (some t) = Json.text (py.isoformat t)

  unfoldable pub serialize : SnapshotTexts → Dict
  serialize s = Dict.entry "amount" (Json.int s.amount) (
      Dict.entry "authorized_amount" (Json.int s.authorized_amount) (
        Dict.entry "captured_amount" (Json.int s.captured_amount) (
          Dict.entry "created_at" (Json.text (py.isoformat s.created_at)) (
            Dict.entry "currency" (Json.text s.currency) (
              Dict.entry "decline_reason" (optional_text s.decline_reason) (
                Dict.entry "id" (Json.text s.id) (
                  Dict.entry "merchant_reference" (Json.text s.merchant_reference) (
                    Dict.entry "payment_flow" (Json.text s.payment_flow) (
                      Dict.entry "payment_reference" (optional_text s.payment_reference) (
                        Dict.entry "refunded_amount" (Json.int s.refunded_amount) (
                          Dict.entry "status" (Json.text s.status) (
                            Dict.entry "expires_at" (optional_time s.expires_at) (
                              Dict.entry "updated_at" (Json.text (py.isoformat s.updated_at))
                                (Dict.entry "version" (Json.int s.version) Dict.end))))))))))))))

  -- `int(value)`
  abbrev pub number : Json → Result ℤ
  number v = or_raise (py.int_of v) (value_error "invalid literal for int()")

  -- `str(values[name])` and `int(values[name])`
  abbrev pub text_at : String → Dict → Result String
  text_at name values = at name values >>= λ v. ok (py.str_of v)

  abbrev pub number_at : String → Dict → Result ℤ
  number_at name values = at name values >>= number

  -- `datetime.fromisoformat(text)`
  abbrev pub time_of : String → Result ℕ
  time_of s = or_raise (py.fromisoformat s) (value_error "Invalid isoformat string")

  -- `datetime.fromisoformat(values[name])`, which wants a text
  abbrev pub strict_time : Json → Result ℕ
  strict_time (Json.text s) = time_of s
  strict_time _ = err type_error

  -- `read(str(values[name])) if values.get(name) is not None else None`
  abbrev pub if_present : {A : Type 0} → (String → Result A) → Option Json → Result (Option A)
  if_present read none = ok none
  if_present read (some v) = read (py.str_of v) >>= λ a. ok (some a)

  -- `DeclineReason(text).value`
  unfoldable pub known_reason : String → Result String
  known_reason s = do
    reason ← or_raise (reason_of s) (value_error "not a valid DeclineReason")
    ok (reason_value reason)

  -- `values.get("payment_flow", PaymentFlow.SYNCHRONOUS.value)`
  abbrev pub flow_text : Option Json → String
  flow_text none = "SYNCHRONOUS"
  flow_text (some v) = py.str_of v

  unfoldable pub restore : Dict → Result SnapshotTexts
  restore values = do
    id ← text_at "id" values
    merchant_reference ← text_at "merchant_reference" values
    amount ← number_at "amount" values
    currency ← text_at "currency" values
    status ← text_at "status" values
    payment_reference ← if_present ok (present (get "payment_reference" values))
    expires_at ← if_present time_of (present (get "expires_at" values))
    decline_reason ← if_present known_reason (present (get "decline_reason" values))
    authorized_amount ← number_at "authorized_amount" values
    captured_amount ← number_at "captured_amount" values
    refunded_amount ← number_at "refunded_amount" values
    version ← number_at "version" values
    created_at ← at "created_at" values >>= strict_time
    updated_at ← at "updated_at" values >>= strict_time
    ok (record {
      id = id;
      merchant_reference = merchant_reference;
      amount = amount;
      currency = currency;
      status = status;
      payment_flow = flow_text (get "payment_flow" values);
      payment_reference = payment_reference;
      expires_at = expires_at;
      decline_reason = decline_reason;
      authorized_amount = authorized_amount;
      captured_amount = captured_amount;
      refunded_amount = refunded_amount;
      version = version;
      created_at = created_at;
      updated_at = updated_at;
    })

  -- `deserialize`, on the value that `json.loads` gives: only an object has string keys.
  unfoldable pub deserialize : Json → Result SnapshotTexts
  deserialize (Json.object values) = restore values
  deserialize _ = err type_error

  -- A reason that is a member's text is kept.
  member-known : (r : DeclineReason) → known_reason (reason_value r) ≡ ok (reason_value r)
  unfolding known_reason reason_of member
  member-known DeclineReason.insufficient_funds = refl
  member-known DeclineReason.limit_exceeded = refl
  member-known DeclineReason.expired_payment_method = refl
  member-known DeclineReason.verification_failed = refl
  member-known DeclineReason.invalid_payment_method = refl
  member-known DeclineReason.unknown = refl

  module _ (doc : Documented py) where
    number-int : (x : ℤ) → number (Json.int x) ≡ ok x
    number-int x = rw (doc.int-int x) refl

    reference_back : (o : Option String) → if_present ok (present (some (optional_text o))) ≡ ok o
    reference_back none = refl
    reference_back (some s) = rw (doc.str-text s) refl

    time_back : (o : Option ℕ) → if_present time_of (present (some (optional_time o))) ≡ ok o
    time_back none = refl
    time_back (some t) = rw (doc.str-text (py.isoformat t), doc.reads_back t) refl

    reason_back :
        (o : Option DeclineReason)
        → if_present known_reason (present (some (optional_text (reason_text o))))
          ≡ ok (reason_text o)
    reason_back none = refl
    reason_back (some r) = rw (doc.str-text (reason_value r), member-known r) refl

    -- With the documented behaviour of the standard library, the copy that a commit stores for
    -- replays is restored exactly, for every snapshot of a payment.
    pub deserialize-serialize :
        (s : PaymentSnapshot) → deserialize (Json.object (serialize (texts_of s))) ≡ ok (texts_of s)
    unfolding deserialize restore serialize get
    deserialize-serialize s = simp (
      number-int,
      reference_back s.payment_reference,
      time_back s.expires_at,
      reason_back s.decline_reason,
      doc.str-text,
      doc.reads_back,
    )
