-- ===== src/Webhook/Signed.antt =====
-- internal/domain/webhook/verify.go: which requests are signed, in the words of the providers, and that
-- the verifiers accept exactly these.
use vibewarden.Prelude.{
  ◌≡◌, ◌≢◌, ◌↔◌, ◌∙◌, inl, inr, refl, sym, ap, arith, true, List, [], ◌∷◌, ◌++◌, none, some_of, Any,
  Bool-cases,
}
use mathlib.Core.Path.{subst}
use vibewarden.Prelude.Text.{
  Text, text_of, text_eq, text_eq_iff, has_prefix, drop_prefix, has_prefix-append,
  has_prefix-drop_prefix,
}
use vibewarden.Prelude.Split.{split}
use vibewarden.Webhook.{
  Provider, stripe, github, slack, twilio, generic, other_provider, VerifyConfig, FormParams,
  Headers, add_fields, found_fields, parse_stripe_sig, build_twilio_payload, compare_signature,
  match_any, verify_stripe, verify_github, verify_slack, verify_twilio, verify_generic, verify_as,
  verify,
}
use vibewarden.Webhook.Stripe.{LastTimestamp, add_fields-timestamp_iff, add_fields-signed_iff}

drop_prefix-append : (p s : Text) → drop_prefix p (p ++ s) ≡ s
unfolding drop_prefix
drop_prefix-append [] s = refl
drop_prefix-append (a ∷ p) s = drop_prefix-append p s

some_of-equal_iff :
    (c : Text) (xs : List Text) → (some_of (text_eq c) xs ≡ true) ↔ Any (λ s. s ≡ c) xs
unfolding some_of
some_of-equal_iff c [] = (λ h. cc, λ h. absurd h)
some_of-equal_iff c (x ∷ xs) = ground (arith, some_of-equal_iff c xs, text_eq_iff c x)

compare_signature_iff :
    (computed received : Text)
    → (compare_signature computed received ≡ none) ↔ (received ≡ computed)
unfolding compare_signature
compare_signature_iff computed received = ground (arith, text_eq_iff computed received)

-- A prefix and a signature that is right behind it.
prefixed_iff :
    (prefix sig computed : Text)
    → ((has_prefix prefix sig ≡ true) × (drop_prefix prefix sig ≡ computed))
      ↔ (sig ≡ prefix ++ computed)
prefixed_iff prefix sig computed = (
  λ (h, e). sym (has_prefix-drop_prefix prefix sig h) ∙ ap (λ rest. prefix ++ rest) e,
  λ e. rw e (has_prefix-append prefix computed, drop_prefix-append prefix computed),
)

module _ (hmac_sha256_hex hmac_sha1_base64 : Text → Text → Text) where
  -- The header names a timestamp, the last one if there are several, and among its v1 signatures is that of
  -- the timestamp and the body.
  abbrev IsStripeSigned : Text → Text → Text → Type 0
  IsStripeSigned secret sig body =
      (t : Text) × (t ≢ [])
      × LastTimestamp (split b',' sig) t
      × Any (λ part. part ≡ text_of "v1=" ++ hmac_sha256_hex secret (t ++ b'.' ∷ body))
          (split b',' sig)

  abbrev pub IsSignedAs : Provider → VerifyConfig → Headers → Text → Text → FormParams → Type 0
  IsSignedAs stripe cfg headers body full_url params =
      IsStripeSigned cfg.secret (headers (text_of "Stripe-Signature")) body
  IsSignedAs github cfg headers body full_url params =
      headers (text_of "X-Hub-Signature-256") ≡ text_of "sha256=" ++ hmac_sha256_hex cfg.secret body
  IsSignedAs slack cfg headers body full_url params =
      (headers (text_of "X-Slack-Request-Timestamp") ≢ [])
      × (headers (text_of "X-Slack-Signature")
          ≡ text_of "v0="
            ++ hmac_sha256_hex cfg.secret
                (text_of "v0:" ++ headers (text_of "X-Slack-Request-Timestamp") ++ b':' ∷ body))
  IsSignedAs twilio cfg headers body full_url params =
      (headers (text_of "X-Twilio-Signature") ≢ [])
      × (headers (text_of "X-Twilio-Signature")
          ≡ hmac_sha1_base64 cfg.secret (build_twilio_payload full_url params))
  IsSignedAs generic cfg headers body full_url params =
      (cfg.header ≢ [])
      × (headers cfg.header ≢ [])
      × (headers cfg.header ≡ hmac_sha256_hex cfg.secret body)
  IsSignedAs (other_provider name) cfg headers body full_url params = ⊥

  match_any-found_iff :
      (secret body : Text) (t : Text) (ss : List Text)
      → (match_any hmac_sha256_hex hmac_sha1_base64 secret body (found_fields (t, ss)) ≡ none)
        ↔ ((t ≢ []) × Any (λ s. s ≡ hmac_sha256_hex secret (t ++ b'.' ∷ body)) ss)
  unfolding match_any found_fields
  match_any-found_iff secret body t [] = ground (arith, text_eq_iff t [])
  match_any-found_iff secret body t (s ∷ ss) = ground (
    arith,
    text_eq_iff t [],
    some_of-equal_iff (hmac_sha256_hex secret (t ++ b'.' ∷ body)) (s ∷ ss),
  )

  not_signed_empty : (secret body : Text) → IsStripeSigned secret [] body → ⊥
  unfolding split
  not_signed_empty secret body (t, ne, last, any) = ground arith

  verify_stripe_iff :
      (secret : Text) (headers : Headers) (body : Text)
      → (verify_stripe hmac_sha256_hex hmac_sha1_base64 secret headers body ≡ none)
        ↔ IsStripeSigned secret (headers (text_of "Stripe-Signature")) body
  unfolding verify_stripe parse_stripe_sig
  verify_stripe_iff secret headers body =
      let sig = headers (text_of "Stripe-Signature") in
      let parts = split b',' sig in
      let found = add_fields parts ([], []) in
      let matched = match_any-found_iff secret body found.0 found.1 in
      elim (Bool-cases (text_eq sig [])) [
        | inl empty ↦ rw empty (
          λ h. cc,
          λ signed. absurd (
              not_signed_empty secret body
                (subst (λ s. IsStripeSigned secret s body) ((text_eq_iff sig []).0 empty) signed)),
        )
        | inr full ↦ rw full (
          λ h.
              let (ne, any) = matched.0 h in
              let signed =
                add_fields-signed_iff parts ([], [])
                  (hmac_sha256_hex secret (found.0 ++ b'.' ∷ body)) in
              (
                found.0,
                ne,
                (add_fields-timestamp_iff parts [] found.0 ne).0 refl,
                elim (signed.0 any) [ inl none_yet ↦ absurd none_yet | inr part ↦ part ],
              ),
          λ (t, ne, last, any).
              let signed =
                add_fields-signed_iff parts ([], []) (hmac_sha256_hex secret (t ++ b'.' ∷ body)) in
              let e = (add_fields-timestamp_iff parts [] t ne).1 last in
              matched.1 (rw e ne, rw e (signed.1 (inr any))),
        )
      ]

  verify_github_iff :
      (secret : Text) (headers : Headers) (body : Text)
      → (verify_github hmac_sha256_hex hmac_sha1_base64 secret headers body ≡ none) ↔ (
          headers (text_of "X-Hub-Signature-256")
          ≡ text_of "sha256=" ++ hmac_sha256_hex secret body)
  unfolding verify_github
  verify_github_iff secret headers body =
      let sig = headers (text_of "X-Hub-Signature-256") in
      let computed = hmac_sha256_hex secret body in
      let received = drop_prefix (text_of "sha256=") sig in
      ground (
        arith,
        text_eq_iff sig [],
        prefixed_iff (text_of "sha256=") sig computed,
        compare_signature_iff computed received,
      )

  verify_slack_iff :
      (secret : Text) (headers : Headers) (body : Text)
      → (verify_slack hmac_sha256_hex hmac_sha1_base64 secret headers body ≡ none) ↔ (
          (headers (text_of "X-Slack-Request-Timestamp") ≢ [])
          × (headers (text_of "X-Slack-Signature")
              ≡ text_of "v0="
                ++ hmac_sha256_hex secret (
                    text_of "v0:" ++ headers (text_of "X-Slack-Request-Timestamp") ++ b':' ∷ body)))
  unfolding verify_slack
  verify_slack_iff secret headers body =
      let sig = headers (text_of "X-Slack-Signature") in
      let timestamp = headers (text_of "X-Slack-Request-Timestamp") in
      let computed = hmac_sha256_hex secret (text_of "v0:" ++ timestamp ++ b':' ∷ body) in
      let received = drop_prefix (text_of "v0=") sig in
      ground (
        arith,
        text_eq_iff sig [],
        text_eq_iff timestamp [],
        prefixed_iff (text_of "v0=") sig computed,
        compare_signature_iff computed received,
      )

  verify_twilio_iff :
      (secret : Text) (headers : Headers) (full_url : Text) (params : FormParams)
      → (verify_twilio hmac_sha256_hex hmac_sha1_base64 secret headers full_url params ≡ none) ↔ (
          (headers (text_of "X-Twilio-Signature") ≢ [])
          × (headers (text_of "X-Twilio-Signature")
              ≡ hmac_sha1_base64 secret (build_twilio_payload full_url params)))
  unfolding verify_twilio
  verify_twilio_iff secret headers full_url params =
      let sig = headers (text_of "X-Twilio-Signature") in
      ground (
        arith,
        text_eq_iff sig [],
        compare_signature_iff (hmac_sha1_base64 secret (build_twilio_payload full_url params)) sig,
      )

  verify_generic_iff :
      (secret : Text) (headers : Headers) (body header_name : Text)
      → (verify_generic hmac_sha256_hex hmac_sha1_base64 secret headers body header_name ≡ none) ↔ (
          (header_name ≢ [])
          × (headers header_name ≢ [])
          × (headers header_name ≡ hmac_sha256_hex secret body))
  unfolding verify_generic
  verify_generic_iff secret headers body header_name = ground (
    arith,
    text_eq_iff header_name [],
    text_eq_iff (headers header_name) [],
    compare_signature_iff (hmac_sha256_hex secret body) (headers header_name),
  )

  verify_as_iff :
      (p : Provider) (cfg : VerifyConfig) (headers : Headers) (body full_url : Text)
      (params : FormParams)
      → (verify_as hmac_sha256_hex hmac_sha1_base64 p cfg headers body full_url params ≡ none)
        ↔ IsSignedAs p cfg headers body full_url params
  unfolding verify_as
  verify_as_iff stripe cfg headers body full_url params = verify_stripe_iff cfg.secret headers body
  verify_as_iff github cfg headers body full_url params = verify_github_iff cfg.secret headers body
  verify_as_iff slack cfg headers body full_url params = verify_slack_iff cfg.secret headers body
  verify_as_iff twilio cfg headers body full_url params =
      verify_twilio_iff cfg.secret headers full_url params
  verify_as_iff generic cfg headers body full_url params =
      verify_generic_iff cfg.secret headers body cfg.header
  verify_as_iff (other_provider name) cfg headers body full_url params = (λ h. cc, λ h. absurd h)

  -- A verifier accepts a request exactly if it is signed in the way of the provider.
  pub verify_iff :
      (cfg : VerifyConfig) (headers : Headers) (body full_url : Text) (params : FormParams)
      → (verify hmac_sha256_hex hmac_sha1_base64 cfg headers body full_url params ≡ none)
        ↔ IsSignedAs cfg.provider cfg headers body full_url params
  unfolding verify
  verify_iff cfg headers body full_url params =
      verify_as_iff cfg.provider cfg headers body full_url params
