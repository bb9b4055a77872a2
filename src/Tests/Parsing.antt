-- ===== src/Tests/Parsing.antt =====
-- A small standard library, and examples for the theorems on bodies, signatures and deliveries.
use Prim.Native.Char.{code}
use text.Mathlib.TextLemmas.{cons≢nil}
use payment_platform_quality.Prelude.{
  ℕ, zero, suc, ◌≤◌, ◌-ℤ◌, ℤ, pos, negsuc, Bool, true, Option, none, some, ◌∷◌, String, str_eq,
  ◌==◌, ◌≡◌, eq_iff, ◌⊎◌, inl, inr, Bool-cases, refl, ap, arith, if◌then◌else◌,
}
use payment_platform_quality.Texts.{append, text_length, is_ascii, lacks, split, cut_at}
use payment_platform_quality.Failure.{Failure, ok, err, invalid_webhook_signature}
use payment_platform_quality.Json.{Json, Body, Builtins, Documented}
use payment_platform_quality.Database.Types.{WebhookEvent, WebhookEventType, WebhookStatus}
use payment_platform_quality.Database.Rows.{DeliveryOutcome}
use payment_platform_quality.Database.Checks.{payment_checks}
use payment_platform_quality.Database.Store.{Db, empty_db, find_event}
use payment_platform_quality.Database.Tables.{find}
use payment_platform_quality.Payments.Snapshot.{
  texts_of, serialize, deserialize, deserialize-serialize,
}
use payment_platform_quality.Webhooks.Outbox.{outbox_event}
use payment_platform_quality.Webhooks.Delivery.{DeliveryResult, attempt_taken}
use payment_platform_quality.Webhooks.Parse.{parse_webhook_payload}
use payment_platform_quality.Webhooks.Body.{event_body}
use payment_platform_quality.Webhooks.Valid.{IsValidEvent}
use payment_platform_quality.Webhooks.Emitted.{parse-event_body}
use payment_platform_quality.Webhooks.Accepted.{parse_webhook_payload-IsValidEvent}
use payment_platform_quality.Webhooks.Published.{outbox_event-IsValidEvent}
use payment_platform_quality.Webhooks.Signature.{
  Hmac, DocumentedHmac, abs_ℤ, header_of, digest_of, pairs_of, last_value, sign_webhook,
  read_signature, check_signature, verify_webhook_signature, tolerance_seconds,
}
use payment_platform_quality.Webhooks.Signed.{
  IsUnreadable, verify-sign_webhook, verify_webhook_signature_authentic,
  verify_webhook_signature_raises,
}
use payment_platform_quality.Webhooks.Consumer.{find_projection, projection_of}
use payment_platform_quality.Webhooks.Inbox.{version_of}
use payment_platform_quality.Webhooks.Endpoint.{Wire, receive_webhook, deliver_webhook_event}
use payment_platform_quality.Webhooks.EndToEnd.{receive_monotone, deliver_projects}
use payment_platform_quality.Tests.Data.{authorized_row}

-- A number in unary, behind a sign.
abbrev unary : ℕ → String
unary zero = ""
unary (suc n) = append "1" (unary n)

abbrev signed_text : ℤ → String
signed_text (pos n) = append "+" (unary n)
signed_text (negsuc n) = append "-" (unary n)

abbrev read_number : String → Option ℤ
read_number String.[] = none
read_number (String.◌∷◌ c s) =
    if code c == b'+' then some (pos (text_length s)) else some (negsuc (text_length s))

abbrev read_time : String → Option ℕ
read_time String.[] = none
read_time (String.◌∷◌ c s) = some (text_length s)

abbrev text_of_json : Json → String
text_of_json (Json.text s) = s
text_of_json (Json.int x) = signed_text x
text_of_json _ = ""

abbrev number_of_json : Json → Option ℤ
number_of_json (Json.text s) = read_number s
number_of_json (Json.int x) = some x
number_of_json _ = none

abbrev pub py : Builtins
py = record {
  isoformat = λ t. append "+" (unary t);
  fromisoformat = read_time;
  overflows = λ s. Bool.false;
  replace_text = λ old new s. s;
  str_of = text_of_json;
  int_of = number_of_json;
}

text_length-unary : (n : ℕ) → text_length (unary n) ≡ n
text_length-unary zero = refl
text_length-unary (suc n) = ap suc (text_length-unary n)

unary-lacks : (n : ℕ) → (lacks b',' (unary n) ≡ true) × (lacks b'=' (unary n) ≡ true)
unary-lacks zero = (refl, refl)
unary-lacks (suc n) = unary-lacks n

signed_filled : (t : ℕ) → str_eq (append "+" (unary t)) "" ≡ Bool.false
signed_filled t = elim (Bool-cases (str_eq (append "+" (unary t)) "")) [
  | inl empty ↦ absurd (cons≢nil ((eq_iff (append "+" (unary t)) "").0 empty))
  | inr filled ↦ filled
]

py-Documented : Documented py
py-Documented = record {
  reads_back = λ t. ap some (text_length-unary t);
  in_range = λ t. refl;
  offset_back = λ t. refl;
  not_empty = signed_filled;
  str-text = λ s. refl;
  int-int = λ x. refl;
}

-- Digests that tell whether the secret is "s1".
abbrev digest_text : Bool → String
digest_text true = "aaaaaaaaaaaaaaaaaaaaaaaaaaaaaaaaaaaaaaaaaaaaaaaaaaaaaaaaaaaaaaaa"
digest_text Bool.false = "bbbbbbbbbbbbbbbbbbbbbbbbbbbbbbbbbbbbbbbbbbbbbbbbbbbbbbbbbbbbbbbb"

abbrev pub hmac : Hmac
hmac key message = digest_text (str_eq key "s1")

int-str : (x : ℤ) → read_number (signed_text x) ≡ some x
int-str (pos n) = rw text_length-unary refl
int-str (negsuc n) = rw text_length-unary refl

str-lacks : (x : ℤ) → (lacks b',' (signed_text x) ≡ true) × (lacks b'=' (signed_text x) ≡ true)
str-lacks (pos n) = unary-lacks n
str-lacks (negsuc n) = unary-lacks n

digests :
    (b : Bool)
    → (text_length (digest_text b) ≡ 64)
      × (is_ascii (digest_text b) ≡ true)
      × (lacks b',' (digest_text b) ≡ true)
digests true = (refl, refl, refl)
digests Bool.false = (refl, refl, refl)

pub hmac-Documented : DocumentedHmac py hmac
hmac-Documented = record {
  int-str = int-str;
  str-lacks = str-lacks;
  digest_length = λ k m. (digests (str_eq k "s1")).0;
  digest_ascii = λ k m. (digests (str_eq k "s1")).1;
  digest-lacks = λ k m. (digests (str_eq k "s1")).2;
}

-- The event of an authorization, which is valid.
abbrev event : WebhookEvent
event = outbox_event "e1" authorized_row WebhookEventType.authorized

event-IsValidEvent : IsValidEvent event.payload
unfolding payment_checks
event-IsValidEvent =
    outbox_event-IsValidEvent "e1" authorized_row WebhookEventType.authorized refl refl
      (refl, refl, tt) (λ e. ground arith) (λ e. ground arith)

deserialize-serialize_example :
    deserialize py (Json.object (serialize py (texts_of event.payload.payment)))
    ≡ ok (texts_of event.payload.payment)
deserialize-serialize_example = deserialize-serialize py py-Documented event.payload.payment

parse-event_body_example :
    parse_webhook_payload py (Body.json (Json.object (event_body py event.payload)))
    ≡ ok event.payload
parse-event_body_example = parse-event_body py py-Documented event.payload event-IsValidEvent

event_parsed :
    parse_webhook_payload py (Body.json (Json.object (event_body py event.payload)))
    ≡ ok event.payload
event_parsed = parse-event_body py py-Documented event.payload event-IsValidEvent

parse_webhook_payload-IsValidEvent_example : IsValidEvent event.payload
parse_webhook_payload-IsValidEvent_example =
    parse_webhook_payload-IsValidEvent py (Body.json (Json.object (event_body py event.payload)))
      event.payload event_parsed

-- A header of the producer at the time 0.
abbrev header : String
header = header_of "+" (digest_text true)

header_signed : sign_webhook py hmac "body" "s1" (pos 0) ≡ ok header
unfolding sign_webhook
header_signed = refl

verify-sign_webhook_example :
    verify_webhook_signature py hmac "body" header "s1" 7_000_000 tolerance_seconds ≡ ok tt
verify-sign_webhook_example =
    verify-sign_webhook py hmac hmac-Documented "body" "s1" (pos 0) header 7_000_000
      tolerance_seconds header_signed (unfold ◌-ℤ◌ in ground arith)

header_verified :
    verify_webhook_signature py hmac "body" header "s1" 7_000_000 tolerance_seconds ≡ ok tt
header_verified =
    verify-sign_webhook py hmac hmac-Documented "body" "s1" (pos 0) header 7_000_000
      tolerance_seconds header_signed (unfold ◌-ℤ◌ in ground arith)

verify_webhook_signature_authentic_example :
    (timestamp : ℤ) × (read_signature py header
      ≡ ok (timestamp, digest_of py hmac "body" "s1" timestamp))
    × (abs_ℤ (pos 7 -ℤ timestamp) ≤ tolerance_seconds)
    × (str_eq "s1" "" ≡ Bool.false)
verify_webhook_signature_authentic_example =
    verify_webhook_signature_authentic py hmac hmac-Documented "body" header "s1" 7_000_000
      tolerance_seconds header_verified

short_refused :
    verify_webhook_signature py hmac "body" "t=+,v1=ab" "s1" 0 tolerance_seconds
    ≡ err (invalid_webhook_signature "Malformed webhook signature")
unfolding verify_webhook_signature read_signature pairs_of last_value split cut_at check_signature
short_refused = refl

verify_webhook_signature_raises_example :
    ((m : String) × (invalid_webhook_signature "Malformed webhook signature"
        ≡ invalid_webhook_signature m))
    ⊎ ((invalid_webhook_signature "Malformed webhook signature" ≡ Failure.type_error)
        × IsUnreadable py "t=+,v1=ab" "s1" 0 tolerance_seconds)
verify_webhook_signature_raises_example =
    verify_webhook_signature_raises py hmac hmac-Documented "body" "t=+,v1=ab" "s1" 0
      tolerance_seconds (invalid_webhook_signature "Malformed webhook signature") refl short_refused

-- The text of the event is the only one that is exchanged.
abbrev pub wire : Wire
wire = record {
  dumps = λ values. "body";
  loads = λ body. Body.json (Json.object (event_body py event.payload));
  sha256 = λ body. body;
}

receive_monotone_example :
    version_of (find_projection "pay-1" empty_db)
    ≤ version_of (
        find_projection "pay-1"
          (receive_webhook py hmac wire (λ d. d) "body" header "s1" 0 Bool.false empty_db).1)
receive_monotone_example =
    receive_monotone py hmac wire "body" header "s1" 0 Bool.false "pay-1" empty_db

-- A database that holds the event alone.
abbrev outbox : Db
outbox = record empty_db { webhook_events = event ∷ empty_db.webhook_events }

outbox_found : find_event "e1" outbox ≡ some event
unfolding find
outbox_found = refl

nothing_there :
    (find (λ r. r.event_id) "e1" outbox.processed_webhooks ≡ none)
    × (find (λ a. a.id) "att_1" outbox.delivery_attempts ≡ none)
    × (version_of (find_projection "pay-1" outbox) ≡ 0)
    × (attempt_taken "e1" 1 outbox.delivery_attempts ≡ Bool.false)
unfolding find attempt_taken
nothing_there = (refl, refl, refl, refl)

deliver_projects_example :
    (r : DeliveryResult) × (db' : Db) × (deliver_webhook_event py hmac wire "e1" "s1" "lease_1"
        "att_1" 20 none outbox
      ≡ (ok r, db'))
    × (r.status ≡ WebhookStatus.delivered)
    × (r.outcome ≡ DeliveryOutcome.success)
    × ((x : WebhookEvent) × (find_event "e1" db' ≡ some x) × (x.status ≡ WebhookStatus.delivered))
    × (find_projection "pay-1" db' ≡ some (projection_of "e1" event.payload.payment))
deliver_projects_example =
    deliver_projects py hmac wire py-Documented hmac-Documented "e1" "s1" "lease_1" "att_1" 20
      outbox event refl outbox_found (ground arith, refl, refl) refl refl event-IsValidEvent
      (refl, refl) nothing_there.0 (rw (nothing_there.2) (omega arith)) nothing_there.3
      nothing_there.1
