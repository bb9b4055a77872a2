-- ===== src/Webhooks/Signature.antt =====
-- `sign_webhook` and `verify_webhook_signature` of services/webhooks.py, and
-- `verify_confirmation_signature` of services/confirmations.py.
use payment_platform_quality.Prelude.{
  ℕ, suc, ◌/◌, ℤ, pos, negsuc, ◌-ℤ◌, Bool, not, ◌&&◌, Option, none, some, List, [], ◌∷◌, String,
  str_eq, ltb, ◌==◌, ◌≡◌, true, if◌then◌else◌,
}
use payment_platform_quality.Failure.{
  Failure, Result, ok, err, value_error, invalid_webhook_signature, invalid_confirmation_signature,
  ◌>>=◌, ◌>>◌, raise_if, or_raise,
}
use payment_platform_quality.Texts.{append, text_length, is_ascii, lacks, split, cut_at}
use payment_platform_quality.Json.{Json, Builtins}
use payment_platform_quality.Webhooks.Delivery.{second}

-- `hmac.new(secret, message, hashlib.sha256).hexdigest()`
abbrev pub Hmac : Type 0
Hmac = String → String → String

-- What the services rely on: the decimal text of a number is read back and holds neither separator
-- of the header, and a digest is 64 ASCII characters without them.
pub record DocumentedHmac (py : Builtins) (hmac : Hmac) : Type 0 where
  pub int-str : (x : ℤ) → py.int_of (Json.text (py.str_of (Json.int x))) ≡ some x
  pub str-lacks :
      (x : ℤ)
      → (lacks b',' (py.str_of (Json.int x)) ≡ true) × (lacks b'=' (py.str_of (Json.int x)) ≡ true)
  pub digest_length : (k m : String) → text_length (hmac k m) ≡ 64
  pub digest_ascii : (k m : String) → is_ascii (hmac k m) ≡ true
  pub digest-lacks : (k m : String) → lacks b',' (hmac k m) ≡ true

abbrev pub tolerance_seconds : ℕ
tolerance_seconds = 300

-- `abs`
abbrev pub abs_ℤ : ℤ → ℕ
abs_ℤ (pos n) = n
abs_ℤ (negsuc n) = suc n

-- `f"t={timestamp},v1={digest}"`
abbrev pub header_of : String → String → String
header_of timestamp digest = append "t=" (append timestamp (append ",v1=" digest))

-- `dict(item.split("=", 1) for item in ...)`: an item without the separator raises.
unfoldable pub pairs_of : List String → Result (List (String × String))
pairs_of [] = ok []
pairs_of (item ∷ items) = do
  pair ← or_raise (cut_at b'=' item) (value_error "dictionary update sequence")
  rest ← pairs_of items
  ok (pair ∷ rest)

-- `parts[key]`, where a later pair has replaced an earlier one
unfoldable pub last_value : String → List (String × String) → Option String
last_value key [] = none
last_value key ((k, v) ∷ rest) = elim (last_value key rest) [
  | some w ↦ some w
  | none ↦ if str_eq k key then some v else none
]

-- `except (KeyError, ValueError)`, which are all that the block raises
abbrev pub as_malformed : {A : Type 0} → Result A → Result A
as_malformed (ok a) = ok a
as_malformed (err e) = err (invalid_webhook_signature "Malformed webhook signature")

-- `split("=", 2)[2]`
abbrev pub third_part : Option (String × String) → Result String
third_part none = err Failure.index_error
third_part (some (first, rest)) = or_raise (cut_at b'=' rest) Failure.index_error >>= λ p. ok p.1

-- `hmac.compare_digest` of two texts, which has to be given ASCII
abbrev pub compare_digest : String → String → Result Bool
compare_digest a b = if is_ascii a && is_ascii b then ok (str_eq a b) else err Failure.type_error

module _ (py : Builtins) where
  abbrev pub str_of_int : ℤ → String
  str_of_int x = py.str_of (Json.int x)

  -- The `try` block on the header: its timestamp and its digest.
  unfoldable pub read_signature : String → Result (ℤ × String)
  read_signature signature_header = do
    parts ← pairs_of (split b',' signature_header)
    t ← or_raise (last_value "t" parts) Failure.key_error
    timestamp ← or_raise (py.int_of (Json.text t)) (value_error "invalid literal for int()")
    supplied ← or_raise (last_value "v1" parts) Failure.key_error
    ok (timestamp, supplied)

module _ (py : Builtins) (hmac : Hmac) where
  -- The digest of the timestamp and the payload.
  abbrev pub digest_of : String → String → ℤ → String
  digest_of payload secret timestamp =
      hmac secret (append (str_of_int py timestamp) (append "." payload))

  unfoldable pub sign_webhook : String → String → ℤ → Result String
  sign_webhook payload secret timestamp = do
    raise_if (str_eq secret "") (value_error "Webhook signing secret must not be empty")
    ok (header_of (str_of_int py timestamp) (digest_of payload secret timestamp))

  -- The tests of a timestamp and a digest that were read.
  unfoldable pub check_signature : String → String → ℕ → ℕ → ℤ → String → Result (Unit {0})
  check_signature payload secret now tolerance timestamp supplied = do
    raise_if (not (text_length supplied == 64))
        (invalid_webhook_signature "Malformed webhook signature")
    raise_if (ltb tolerance (abs_ℤ (pos (now / second) -ℤ timestamp)))
        (invalid_webhook_signature "Webhook signature timestamp is outside tolerance")
    signed ← sign_webhook payload secret timestamp
    expected ← third_part (cut_at b'=' signed)
    same ← compare_digest expected supplied
    raise_if (not same) (invalid_webhook_signature "Webhook signature does not match")

  unfoldable pub verify_webhook_signature : String → String → String → ℕ → ℕ → Result (Unit {0})
  verify_webhook_signature payload signature_header secret now tolerance = do
    parts ← as_malformed (read_signature py signature_header)
    check_signature payload secret now tolerance parts.0 parts.1

  -- `except InvalidWebhookSignatureError`
  abbrev pub as_confirmation_failure : Result (Unit {0}) → Result (Unit {0})
  as_confirmation_failure (err (Failure.invalid_webhook_signature m)) =
      err (invalid_confirmation_signature "Confirmation signature could not be verified")
  as_confirmation_failure r = r

  -- A missing header and an empty one are refused alike.
  unfoldable pub verify_confirmation_signature :
      String → Option String → String → ℕ → Result (Unit {0})
  verify_confirmation_signature payload none secret received_at =
      err (invalid_confirmation_signature "Missing confirmation signature")
  verify_confirmation_signature payload (some header) secret received_at =
      if str_eq header ""
      then err (invalid_confirmation_signature "Missing confirmation signature")
      else as_confirmation_failure
          (verify_webhook_signature payload header secret received_at tolerance_seconds)
