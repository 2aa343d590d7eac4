-- ===== src/Webhook/Tests.antt =====
-- The signatures of webhooks at concrete requests, with a hash that puts the secret before the message.
use mathlib.Core.List.{Permᴰ}
use vibewarden.Prelude.{
  ◌≡◌, ◌↔◌, ◌⊎◌, refl, true, List, [], ◌∷◌, ◌++◌, Option, none, some, String, some_of,
  if◌then◌else◌,
}
use vibewarden.Prelude.Text.{Text, text_of, text_eq}
use vibewarden.Prelude.Split.{split, onto_first, cut}
use vibewarden.Webhook.{
  stripe, VerifyConfig, FormParams, Headers, invalid_signature, verify, verify_as, verify_stripe,
  match_any, parse_stripe_sig, found_fields, add_fields, add_field, build_twilio_payload,
}
use vibewarden.Webhook.Payload.{payload-Perm}
use vibewarden.Webhook.Middleware.{
  WebhookSignatureRule, Request, signature_valid, signature_invalid, refused, forward, unauthorized,
  index, form_params, answer, check_body, check_rule, no_params, webhook_signature_middleware,
}
use vibewarden.Webhook.Forwarded.{IsAuthentic, webhook_signature_middleware-forward_iff}

abbrev toy_hash : Text → Text → Text
toy_hash secret message = secret ++ message

abbrev no_query : Text → Option FormParams
no_query query = none

abbrev pay : WebhookSignatureRule
pay = record {
  path = text_of "/pay";
  config = record { provider = stripe; secret = text_of "s"; header = [] };
}

abbrev with_signature : String → Headers
with_signature sig key = if text_eq key (text_of "Stripe-Signature") then text_of sig else []

abbrev paid : String → Request
paid sig = record {
  path = text_of "/pay";
  headers = with_signature sig;
  body = some (text_of "b");
  tls = true;
  host = text_of "shop";
  request_uri = text_of "/pay";
}

-- One of two signatures is the right one, behind a field that is not looked at.
stripe_is_accepted :
    webhook_signature_middleware toy_hash toy_hash no_query
      (pay ∷ [])
      (paid "t=5,v0=x,v1=no,v1=s5.b")
    ≡ (signature_valid stripe ∷ [], forward)
unfolding webhook_signature_middleware check_rule check_body index answer verify verify_as
    verify_stripe match_any parse_stripe_sig found_fields add_fields add_field split onto_first cut
    text_eq some_of form_params no_params
stripe_is_accepted = refl

wrong_timestamp_is_refused :
    webhook_signature_middleware toy_hash toy_hash no_query (pay ∷ []) (paid "t=6,v1=s5.b")
    ≡ (signature_invalid stripe (refused invalid_signature) ∷ [], unauthorized)
unfolding webhook_signature_middleware check_rule check_body index answer verify verify_as
    verify_stripe match_any parse_stripe_sig found_fields add_fields add_field split onto_first cut
    text_eq some_of form_params no_params
wrong_timestamp_is_refused = refl

webhook_signature_middleware-forward_iff_example :
    let r = paid "t=5,v1=s5.b" in
    ((webhook_signature_middleware toy_hash toy_hash no_query (pay ∷ []) r).1 ≡ forward) ↔ (
      (index (pay ∷ []) r.path ≡ none)
      ⊎ ((cfg : VerifyConfig) × (index (pay ∷ []) r.path ≡ some cfg)
          × IsAuthentic toy_hash toy_hash no_query cfg r))
webhook_signature_middleware-forward_iff_example =
    webhook_signature_middleware-forward_iff toy_hash toy_hash no_query (pay ∷ [])
      (paid "t=5,v1=s5.b")

abbrev to_and_from : List Text
to_and_from = text_of "To" ∷ text_of "From" ∷ []

abbrev from_and_to : List Text
from_and_to = text_of "From" ∷ text_of "To" ∷ []

payload-Perm_example :
    build_twilio_payload (text_of "https://shop/") (record { keys = to_and_from; get = λ key. key })
    ≡ build_twilio_payload
        (text_of "https://shop/")
        (record { keys = from_and_to; get = λ key. key })
payload-Perm_example =
    payload-Perm (text_of "https://shop/") (λ key. key) to_and_from from_and_to
      (Permᴰ.swap refl refl)
