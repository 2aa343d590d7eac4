-- ===== src/Webhook/Middleware.antt =====
-- internal/middleware/webhook_signature.go: the check of the signatures on the configured paths. What
-- reading the body and url.ParseQuery give are parameters; an event has the reason of the refusal.
use vibewarden.Prelude.{Bool, List, [], ◌∷◌, ◌++◌, Option, none, some, if◌then◌else◌}
use vibewarden.Prelude.Text.{Text, text_of, text_eq}
use vibewarden.Webhook.{Provider, twilio, VerifyError, VerifyConfig, FormParams, Headers, verify}

pub record WebhookSignatureRule : Type 0 where
  pub path : Text
  pub config : VerifyConfig

-- The body is `none` where reading it fails.
pub record Request : Type 0 where
  pub path : Text
  pub headers : Headers
  pub body : Option Text
  pub tls : Bool
  pub host : Text
  pub request_uri : Text

pub data Reason : Type 0 where
  unreadable_body : Reason
  refused : VerifyError → Reason

pub data Event : Type 0 where
  signature_valid : Provider → Event
  signature_invalid : Provider → Reason → Event

pub data Outcome : Type 0 where
  forward unauthorized : Outcome

-- The map from paths to configs: of two rules with one path the later one counts.
unfoldable pub index : List WebhookSignatureRule → Text → Option VerifyConfig
index [] path = none
index (r ∷ rules) path = elim (index rules path) [
  | some cfg ↦ some cfg
  | none ↦ if text_eq r.path path then some r.config else none
]

unfoldable pub build_full_url : Request → Text
build_full_url r =
    let scheme = if r.tls then text_of "https" else text_of "http" in
    scheme ++ text_of "://" ++ r.host ++ r.request_uri

unfoldable pub no_params : FormParams
no_params = record { keys = []; get = λ key. [] }

unfoldable pub answer : Provider → Option VerifyError → List Event × Outcome
answer provider (some e) = (signature_invalid provider (refused e) ∷ [], unauthorized)
answer provider none = (signature_valid provider ∷ [], forward)

-- The parameters of the form, which only the signature of Twilio covers.
unfoldable pub form_params : (Text → Option FormParams) → Provider → Text → FormParams
unfolding no_params
form_params parse_query twilio body = elim (parse_query body) [
  | some params ↦ params
  | none ↦ no_params
]
form_params parse_query _ body = no_params

module _ (hmac_sha256_hex hmac_sha1_base64 : Text → Text → Text)
    (parse_query : Text → Option FormParams) where
  unfoldable pub check_body : VerifyConfig → Request → Option Text → List Event × Outcome
  unfolding form_params answer build_full_url
  check_body cfg r none = (signature_invalid cfg.provider unreadable_body ∷ [], unauthorized)
  check_body cfg r (some body) = answer cfg.provider (
      verify hmac_sha256_hex hmac_sha1_base64 cfg r.headers body (build_full_url r)
        (form_params parse_query cfg.provider body))

  unfoldable pub check_rule : Option VerifyConfig → Request → List Event × Outcome
  unfolding check_body
  check_rule none r = ([], forward)
  check_rule (some cfg) r = check_body cfg r r.body

  unfoldable pub webhook_signature_middleware :
      List WebhookSignatureRule → Request → List Event × Outcome
  unfolding check_rule index
  webhook_signature_middleware rules r = check_rule (index rules r.path) r
