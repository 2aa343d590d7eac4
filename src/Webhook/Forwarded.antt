-- ===== src/Webhook/Forwarded.antt =====
-- internal/middleware/webhook_signature.go: which requests reach the application.
use vibewarden.Prelude.{
  ◌≡◌, ◌↔◌, ◌⊎◌, inl, inr, refl, sym, arith, List, Option, none, some, Option-cases,
}
use mathlib.Core.Path.{subst}
use mathlib.Core.Option.{some-injective}
use vibewarden.Prelude.Text.{Text}
use vibewarden.Webhook.{Provider, VerifyError, VerifyConfig, FormParams, verify}
use vibewarden.Webhook.Signed.{IsSignedAs, verify_iff}
use vibewarden.Webhook.Middleware.{
  WebhookSignatureRule, Request, forward, index, build_full_url, form_params, answer, check_body,
  check_rule, webhook_signature_middleware,
}

answer-forward_iff :
    (p : Provider) (o : Option VerifyError) → ((answer p o).1 ≡ forward) ↔ (o ≡ none)
unfolding answer
answer-forward_iff p none = ground arith
answer-forward_iff p (some e) = ground arith

module _ (hmac_sha256_hex hmac_sha1_base64 : Text → Text → Text)
    (parse_query : Text → Option FormParams) where
  -- The body can be read, and the headers sign it.
  abbrev pub IsAuthentic : VerifyConfig → Request → Type 0
  IsAuthentic cfg r =
      (body : Text) × (r.body ≡ some body)
      × IsSignedAs hmac_sha256_hex hmac_sha1_base64 cfg.provider cfg r.headers body
          (build_full_url r) (form_params parse_query cfg.provider body)

  check_body_iff :
      (cfg : VerifyConfig) (r : Request) (body : Option Text)
      → ((check_body hmac_sha256_hex hmac_sha1_base64 parse_query cfg r body).1 ≡ forward) ↔ (
          (text : Text) × (body ≡ some text)
          × IsSignedAs hmac_sha256_hex hmac_sha1_base64 cfg.provider cfg r.headers text
              (build_full_url r)
              (form_params parse_query cfg.provider text))
  unfolding check_body
  check_body_iff cfg r none = (λ h. cc, λ (text, e, signed). cc)
  check_body_iff cfg r (some body) =
      let full_url = build_full_url r in
      let verified =
        verify_iff hmac_sha256_hex hmac_sha1_base64 cfg r.headers body full_url
          (form_params parse_query cfg.provider body) in
      let answered = answer-forward_iff cfg.provider (
        verify hmac_sha256_hex hmac_sha1_base64 cfg r.headers body full_url
          (form_params parse_query cfg.provider body)) in
      (
        λ h. (body, refl, verified.0 (answered.0 h)),
        λ (text, e, signed). answered.1 (
            verified.1 (
              subst
                (λ t.
                  IsSignedAs hmac_sha256_hex hmac_sha1_base64 cfg.provider cfg r.headers t full_url
                    (form_params parse_query cfg.provider t))
                (sym (some-injective body text e)) signed)),
      )

  -- A request goes on to the application exactly if no rule stands for its path, or its body can be read and
  -- the headers carry a signature of it that the provider of the last rule for the path prescribes.
  pub webhook_signature_middleware-forward_iff :
      (rules : List WebhookSignatureRule) (r : Request)
      → ((webhook_signature_middleware hmac_sha256_hex hmac_sha1_base64 parse_query rules r).1
          ≡ forward)
        ↔ ((index rules r.path ≡ none)
            ⊎ ((cfg : VerifyConfig) × (index rules r.path ≡ some cfg) × IsAuthentic cfg r))
  unfolding webhook_signature_middleware check_rule
  webhook_signature_middleware-forward_iff rules r = elim (Option-cases (index rules r.path)) [
    | inl e ↦ rw e (λ _. inl refl, λ _. refl)
    | inr (cfg, e) ↦ rw e (
      λ h. inr (cfg, refl, (check_body_iff cfg r r.body).0 h),
      λ s. elim s [
        | inl n ↦ cc
        | inr (c, q, authentic) ↦
            (check_body_iff cfg r r.body).1
              (subst (λ k. IsAuthentic k r) (sym (some-injective cfg c q)) authentic)
      ],
    )
  ]
