-- ===== src/Webhooks/Signed.antt =====
-- What the signatures of services/webhooks.py guarantee.
use payment_platform_quality.Prelude.{
  ℕ, ◌/◌, ℤ, pos, ◌-ℤ◌, Bool, true, false, not, some, [], ◌∷◌, String, str_eq, eq_iff, eq_refl, ltb,
  ◌==◌, ◌≤◌, ◌≡◌, ◌⊎◌, inl, inr, refl, if◌then◌else◌, sym, ◌∙◌, arith,
}
use payment_platform_quality.Failure.{
  Failure, Result, ok, err, value_error, invalid_webhook_signature, Result-cases,
}
use payment_platform_quality.Texts.{
  append, append_assoc, lacks-append, text_length, is_ascii, lacks, split, cut_at, split-lacks,
  split-append, cut_at-append,
}
use payment_platform_quality.Json.{Json, Builtins}
use payment_platform_quality.Webhooks.Delivery.{second}
use payment_platform_quality.Webhooks.Signature.{
  Hmac, DocumentedHmac, abs_ℤ, header_of, pairs_of, last_value, third_part, str_of_int, digest_of,
  sign_webhook, read_signature, check_signature, verify_webhook_signature,
}

split_header :
    (t d : String)
    → lacks b',' t ≡ true
    → lacks b',' d ≡ true
    → split b',' (header_of t d) ≡ append "t=" t ∷ append "v1=" d ∷ []
split_header t d ht hd =
    rw
      (
        split-append b',' (append "t=" t) (append "v1=" d) _ refl ht,
        split-lacks b',' (append "v1=" d) hd,
      )
      refl

cut_at_equals :
    (p s : String) → lacks b'=' p ≡ true → cut_at b'=' (append p (append "=" s)) ≡ some (p, s)
cut_at_equals p s h = cut_at-append b'=' p s _ refl h

-- What makes the verification of a digest end in a TypeError.
abbrev pub IsUnreadable : Builtins → String → String → ℕ → ℕ → Type 0
IsUnreadable py header secret now tolerance =
    (timestamp : ℤ) × (supplied : String) × (read_signature py header ≡ ok (timestamp, supplied))
    × (text_length supplied ≡ 64)
    × (abs_ℤ (pos (now / second) -ℤ timestamp) ≤ tolerance)
    × (str_eq secret "" ≡ false)
    × (is_ascii supplied ≡ false)

module _ (py : Builtins) (hmac : Hmac) (doc : DocumentedHmac py hmac) where
  -- A header that is written is read back, whatever its digest is.
  pub read_signature-header_of :
      (timestamp : ℤ) (supplied : String)
      → lacks b',' supplied ≡ true
      → read_signature py (header_of (str_of_int py timestamp) supplied) ≡ ok (timestamp, supplied)
  unfolding read_signature pairs_of last_value cut_at
  read_signature-header_of timestamp supplied h = simp (
    split_header (py.str_of (Json.int timestamp)) supplied (doc.str-lacks timestamp).0 h,
    doc.int-str timestamp,
  )

  third_part-header_of :
      (timestamp : ℤ) (digest : String)
      → third_part (cut_at b'=' (header_of (str_of_int py timestamp) digest)) ≡ ok digest
  unfolding cut_at
  third_part-header_of timestamp digest =
      let t = py.str_of (Json.int timestamp) in
      let plain = lacks-append b'=' t ",v1" (doc.str-lacks timestamp).1 refl in
      rw
        (
          sym (append_assoc t ",v1" (append "=" digest)),
          cut_at_equals (append t ",v1") digest plain,
        )
        refl

  -- The answer to a timestamp and a digest, by the outcome of each test.
  abbrev verdict : Bool → Bool → Bool → Bool → Bool → Result (Unit {0})
  verdict full late unsigned ascii same =
      if not full
      then err (invalid_webhook_signature "Malformed webhook signature")
      else if late
      then err (invalid_webhook_signature "Webhook signature timestamp is outside tolerance")
      else if unsigned
      then err (value_error "Webhook signing secret must not be empty")
      else if not ascii
      then err Failure.type_error
      else if same
      then ok tt
      else err (invalid_webhook_signature "Webhook signature does not match")

  check_signature-verdict :
      (payload secret : String) (now tolerance : ℕ) (timestamp : ℤ) (supplied : String)
      → check_signature py hmac payload secret now tolerance timestamp supplied
        ≡ verdict
            (text_length supplied == 64)
            (ltb tolerance (abs_ℤ (pos (now / second) -ℤ timestamp)))
            (str_eq secret "")
            (is_ascii supplied)
            (str_eq (digest_of py hmac payload secret timestamp) supplied)
  unfolding check_signature sign_webhook
  check_signature-verdict payload secret now tolerance timestamp supplied =
      let digest = digest_of py hmac payload secret timestamp in
      ground (
        arith,
        third_part-header_of timestamp digest,
        doc.digest_ascii secret (append (str_of_int py timestamp) (append "." payload)),
      )

  sign_webhook-digest :
      (payload secret : String) (timestamp : ℤ) (header : String)
      → sign_webhook py hmac payload secret timestamp ≡ ok header
      → (str_eq secret "" ≡ false)
        × (header_of (str_of_int py timestamp) (digest_of py hmac payload secret timestamp)
            ≡ header)
  unfolding sign_webhook
  sign_webhook-digest payload secret timestamp header h = (ground (arith, h), ground (arith, h))

  -- A header that was signed is verified with the same payload and secret as long as the receiver's
  -- clock is no more than the tolerance away from the timestamp, in either direction.
  pub verify-sign_webhook :
      (payload secret : String) (timestamp : ℤ) (header : String) (now tolerance : ℕ)
      → sign_webhook py hmac payload secret timestamp ≡ ok header
      → abs_ℤ (pos (now / second) -ℤ timestamp) ≤ tolerance
      → verify_webhook_signature py hmac payload header secret now tolerance ≡ ok tt
  unfolding verify_webhook_signature
  verify-sign_webhook payload secret timestamp header now tolerance h near =
      let signed = sign_webhook-digest payload secret timestamp header h in
      let digest = digest_of py hmac payload secret timestamp in
      let message = append (str_of_int py timestamp) (append "." payload) in
      let back = read_signature-header_of timestamp digest (doc.digest-lacks secret message) in
      let verdict_of = check_signature-verdict payload secret now tolerance timestamp digest in
      let timely : ltb tolerance (abs_ℤ (pos (now / second) -ℤ timestamp)) ≡ false =
        ground (arith, near) in
      rw
        (
          sym signed.1,
          back,
          verdict_of,
          doc.digest_length secret message,
          timely,
          signed.0,
          doc.digest_ascii secret message,
          eq_refl digest,
        )
        refl

  verdict_ok :
      (full late unsigned ascii same : Bool)
      → verdict full late unsigned ascii same ≡ ok tt
      → (late ≡ false) × (unsigned ≡ false) × (same ≡ true)
  verdict_ok full late unsigned ascii same h = ground (arith, h)

  -- A request whose signature is verified carries the digest of exactly this payload under a secret
  -- that is not empty, for a timestamp that its header states and that lies within the tolerance.
  pub verify_webhook_signature_authentic :
      (payload header secret : String) (now tolerance : ℕ)
      → verify_webhook_signature py hmac payload header secret now tolerance ≡ ok tt
      → (timestamp : ℤ) × (read_signature py header
          ≡ ok (timestamp, digest_of py hmac payload secret timestamp))
        × (abs_ℤ (pos (now / second) -ℤ timestamp) ≤ tolerance)
        × (str_eq secret "" ≡ false)
  unfolding verify_webhook_signature
  verify_webhook_signature_authentic payload header secret now tolerance h =
      elim (Result-cases (read_signature py header)) [
        | inr (e, raised) ↦ absurd (ground (arith, h, raised))
        | inl ((timestamp, supplied), read) ↦
            let digest = digest_of py hmac payload secret timestamp in
            let checked : check_signature py hmac payload secret now tolerance timestamp supplied
                ≡ ok tt =
              ground (arith, h, read) in
            let passed = verdict_ok _ _ _ _ _ (
              sym (check_signature-verdict payload secret now tolerance timestamp supplied)
              ∙ checked) in
            let same = (eq_iff digest supplied).0 passed.2 in
            (timestamp, rw (same, read) refl, ground (arith, passed.0), passed.1)
      ]

  verdict_err :
      (full late unsigned ascii same : Bool) (e : Failure)
      → unsigned ≡ false
      → verdict full late unsigned ascii same ≡ err e
      → ((m : String) × (e ≡ invalid_webhook_signature m))
        ⊎ ((e ≡ Failure.type_error) × (full ≡ true) × (late ≡ false) × (ascii ≡ false))
  verdict_err false late unsigned ascii same e s h =
      inl ("Malformed webhook signature", ground (arith, h))
  verdict_err true true unsigned ascii same e s h =
      inl ("Webhook signature timestamp is outside tolerance", ground (arith, h))
  verdict_err true false true ascii same e s h = cc
  verdict_err true false false false same e s h = inr (ground (arith, h), refl, refl, refl)
  verdict_err true false false true false e s h =
      inl ("Webhook signature does not match", ground (arith, h))
  verdict_err true false false true true e s h = cc

  -- With a secret, a verification that fails raises InvalidWebhookSignatureError for every header,
  -- with one exception: a timely digest of the right length that is not ASCII raises TypeError.
  pub verify_webhook_signature_raises :
      (payload header secret : String) (now tolerance : ℕ) (e : Failure)
      → str_eq secret "" ≡ false
      → verify_webhook_signature py hmac payload header secret now tolerance ≡ err e
      → ((m : String) × (e ≡ invalid_webhook_signature m))
        ⊎ ((e ≡ Failure.type_error) × IsUnreadable py header secret now tolerance)
  unfolding verify_webhook_signature
  verify_webhook_signature_raises payload header secret now tolerance e some_secret h =
      elim (Result-cases (read_signature py header)) [
        | inr (f, raised) ↦ inl ("Malformed webhook signature", ground (arith, h, raised))
        | inl ((timestamp, supplied), read) ↦
            let checked : check_signature py hmac payload secret now tolerance timestamp supplied
                ≡ err e =
              ground (arith, h, read) in
            elim (verdict_err _ _ _ _ _ e some_secret (
              sym (check_signature-verdict payload secret now tolerance timestamp supplied)
              ∙ checked)) [
                | inl invalid ↦ inl invalid
                | inr (kind, full, timely, plain) ↦ inr (
                  kind,
                  (
                    timestamp,
                    supplied,
                    read,
                    ground (arith, full),
                    ground (arith, timely),
                    some_secret,
                    plain,
                  ),
                )
              ]
      ]
