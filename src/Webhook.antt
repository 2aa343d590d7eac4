-- ===== src/Webhook.antt =====
-- internal/domain/webhook/verify.go: the signatures of webhook requests. The two keyed hashes with their
-- encodings are parameters, and the headers are a function; texts are lists of code points. A Go map of
-- form parameters is its keys, in the order in which a range loop meets them, with its Get.
pub mod Stripe
pub mod Signed
pub mod Payload
pub mod Middleware
pub mod Forwarded
mod Tests
use vibewarden.Prelude.{
  ◌==◌, ltb, Bool, true, false, not, String, List, [], ◌∷◌, ◌++◌, Option, none, some, some_of,
  Result, ok, err, if◌then◌else◌,
}
use vibewarden.Prelude.Text.{Text, text_of, text_eq, has_prefix, drop_prefix}
use vibewarden.Prelude.Split.{split, cut}

pub data Provider : Type 0 where
  stripe github slack twilio generic : Provider
  other_provider : Text → Provider

-- The errors by their kind, without the texts that wrap them.
pub data VerifyError : Type 0 where
  missing_signature invalid_signature invalid_format unknown_provider : VerifyError

pub record VerifyConfig : Type 0 where
  pub provider : Provider
  pub secret : Text
  pub header : Text

pub record FormParams : Type 0 where
  pub keys : List Text
  pub get : Text → Text

abbrev pub Headers : Type 0
Headers = Text → Text

-- One round of the loop over the fields of a Stripe-Signature header.
unfoldable pub add_field : Option (Text × Text) → Text × List Text → Text × List Text
add_field none found = found
add_field (some (key, value)) (timestamp, signatures) =
    if text_eq key (text_of "t")
    then (value, signatures)
    else if text_eq key (text_of "v1")
    then (timestamp, signatures ++ value ∷ [])
    else (timestamp, signatures)

unfoldable pub add_fields : List Text → Text × List Text → Text × List Text
add_fields [] found = found
add_fields (part ∷ parts) found = add_fields parts (add_field (cut b'=' part) found)

unfoldable pub found_fields : Text × List Text → Option (Text × List Text)
found_fields (timestamp, signatures) =
    if text_eq timestamp []
    then none
    else elim signatures [ [] ↦ none | s ∷ ss ↦ some (timestamp, s ∷ ss) ]

-- `none` is a format error.
unfoldable pub parse_stripe_sig : Text → Option (Text × List Text)
unfolding found_fields
parse_stripe_sig sig = found_fields (add_fields (split b',' sig) ([], []))

-- The byte order of the language's strings.
unfoldable pub text_lt : Text → Text → Bool
text_lt s [] = false
text_lt [] (b ∷ t) = true
text_lt (a ∷ s) (b ∷ t) = if a == b then text_lt s t else ltb a b

unfoldable pub insert_sorted : Text → List Text → List Text
insert_sorted k [] = k ∷ []
insert_sorted k (j ∷ keys) =
    let rest = insert_sorted k keys in if text_lt j k then j ∷ rest else k ∷ j ∷ keys

-- `sort.Strings`.
unfoldable pub sort_texts : List Text → List Text
sort_texts [] = []
sort_texts (k ∷ keys) = insert_sorted k (sort_texts keys)

unfoldable pub append_params : (Text → Text) → List Text → Text
append_params get [] = []
append_params get (k ∷ keys) = k ++ get k ++ append_params get keys

unfoldable pub build_twilio_payload : Text → FormParams → Text
build_twilio_payload full_url params = elim params.keys [
  | [] ↦ full_url
  | k ∷ keys ↦ full_url ++ append_params params.get (sort_texts (k ∷ keys))
]

-- The comparison after the header has been read; hmac.Equal compares the bytes.
unfoldable pub compare_signature : Text → Text → Option VerifyError
compare_signature computed received =
    if not (text_eq computed received) then some invalid_signature else none

module _ (hmac_sha256_hex hmac_sha1_base64 : Text → Text → Text) where
  unfoldable pub match_any : Text → Text → Option (Text × List Text) → Option VerifyError
  match_any secret body none = some invalid_format
  match_any secret body (some (timestamp, signatures)) =
      let computed = hmac_sha256_hex secret (timestamp ++ b'.' ∷ body) in
      if some_of (text_eq computed) signatures then none else some invalid_signature

  unfoldable pub verify_stripe : Text → Headers → Text → Option VerifyError
  unfolding match_any
  verify_stripe secret headers body =
      let sig = headers (text_of "Stripe-Signature") in
      if text_eq sig []
      then some missing_signature
      else match_any secret body (parse_stripe_sig sig)

  unfoldable pub verify_github : Text → Headers → Text → Option VerifyError
  unfolding compare_signature
  verify_github secret headers body =
      let sig = headers (text_of "X-Hub-Signature-256") in
      let prefix = text_of "sha256=" in
      if text_eq sig []
      then some missing_signature
      else if not (has_prefix prefix sig)
      then some invalid_format
      else compare_signature (hmac_sha256_hex secret body) (drop_prefix prefix sig)

  unfoldable pub verify_slack : Text → Headers → Text → Option VerifyError
  unfolding compare_signature
  verify_slack secret headers body =
      let sig = headers (text_of "X-Slack-Signature") in
      let timestamp = headers (text_of "X-Slack-Request-Timestamp") in
      let prefix = text_of "v0=" in
      if text_eq sig []
      then some missing_signature
      else if text_eq timestamp []
      then some invalid_format
      else if not (has_prefix prefix sig)
      then some invalid_format
      else compare_signature (hmac_sha256_hex secret (text_of "v0:" ++ timestamp ++ b':' ∷ body))
          (drop_prefix prefix sig)

  unfoldable pub verify_twilio : Text → Headers → Text → FormParams → Option VerifyError
  unfolding compare_signature
  verify_twilio secret headers full_url params =
      let sig = headers (text_of "X-Twilio-Signature") in
      if text_eq sig []
      then some missing_signature
      else compare_signature (hmac_sha1_base64 secret (build_twilio_payload full_url params)) sig

  unfoldable pub verify_generic : Text → Headers → Text → Text → Option VerifyError
  unfolding compare_signature
  verify_generic secret headers body header_name =
      if text_eq header_name []
      then some invalid_format
      else let sig = headers header_name in
        if text_eq sig []
        then some missing_signature
        else compare_signature (hmac_sha256_hex secret body) sig

  unfoldable pub verify_as :
      Provider → VerifyConfig → Headers → Text → Text → FormParams → Option VerifyError
  unfolding verify_stripe verify_github verify_slack verify_twilio verify_generic
  verify_as stripe cfg headers body full_url params = verify_stripe cfg.secret headers body
  verify_as github cfg headers body full_url params = verify_github cfg.secret headers body
  verify_as slack cfg headers body full_url params = verify_slack cfg.secret headers body
  verify_as twilio cfg headers body full_url params =
      verify_twilio cfg.secret headers full_url params
  verify_as generic cfg headers body full_url params =
      verify_generic cfg.secret headers body cfg.header
  verify_as (other_provider name) cfg headers body full_url params = some unknown_provider

  -- `none` is a valid signature.
  unfoldable pub verify : VerifyConfig → Headers → Text → Text → FormParams → Option VerifyError
  unfolding verify_as
  verify cfg headers body full_url params = verify_as cfg.provider cfg headers body full_url params
