-- ===== src/Inputs.antt =====
-- internal/middleware/input_validation.go: the limits on the size of a request. Texts are lists of bytes
-- here, since the limits count bytes; the headers of a request are the entries of its map.
pub mod Limits
mod Tests
use vibewarden.Prelude.{
  ℕ, ◌==◌, Bool, true, false, not, ◌&&◌, List, [], ◌∷◌, length, Option, none, some, some_of,
  if◌then◌else◌,
}
use vibewarden.Prelude.Int.{ℤ, pos, pos_part, neg_part, ltb_ℤ}
use vibewarden.Prelude.Text.{Text}
use vibewarden.Glob.{match_path, matched}
use vibewarden.Access.Paths.{matches, new_exempt_path_matcher}

pub record InputLimits : Type 0 where
  pub max_url_length : ℤ
  pub max_query_string_length : ℤ
  pub max_header_count : ℤ
  pub max_header_size : ℤ

pub record PathOverride : Type 0 where
  pub path : Text
  pub limits : InputLimits

pub record InputValidationConfig : Type 0 where
  pub enabled : Bool
  pub limits : InputLimits
  pub path_overrides : List PathOverride

pub record Request : Type 0 where
  pub path : Text
  pub request_uri : Text
  pub raw_query : Text
  pub headers : List (Text × List Text)

pub data Violation : Type 0 where
  url_too_long query_too_long too_many_headers header_too_large : Violation

pub data Outcome : Type 0 where
  forward : Outcome
  bad_request : Violation → Outcome

-- A field of an override that is not zero counts.
unfoldable pub or_global : ℤ → ℤ → ℤ
or_global limit global = if pos_part limit == 0 && neg_part limit == 0 then global else limit

unfoldable pub override_limits : InputLimits → InputLimits → InputLimits
unfolding or_global
override_limits l global = record {
  max_url_length = or_global l.max_url_length global.max_url_length;
  max_query_string_length = or_global l.max_query_string_length global.max_query_string_length;
  max_header_count = or_global l.max_header_count global.max_header_count;
  max_header_size = or_global l.max_header_size global.max_header_size;
}

-- The overrides whose patterns `path.Match` accepts.
unfoldable pub valid_overrides : List PathOverride → List PathOverride
valid_overrides [] = []
valid_overrides (o ∷ overrides) =
    let rest = valid_overrides overrides in
    elim (match_path o.path []) [ none ↦ rest | some b ↦ o ∷ rest ]

unfoldable pub resolve_from : List PathOverride → Text → InputLimits → InputLimits
resolve_from [] path global = global
resolve_from (o ∷ overrides) path global =
    let rest = resolve_from overrides path global in
    if matched (match_path o.path path) then override_limits o.limits global else rest

unfoldable pub resolve : InputValidationConfig → Text → InputLimits
unfolding resolve_from valid_overrides
resolve cfg path = resolve_from (valid_overrides cfg.path_overrides) path cfg.limits

-- A limit that is zero or less is switched off.
unfoldable pub exceeds : ℤ → ℕ → Bool
exceeds limit size = ltb_ℤ (pos 0) limit && ltb_ℤ limit (pos size)

unfoldable pub some_header_exceeds : ℤ → List (Text × List Text) → Bool
unfolding exceeds
some_header_exceeds limit headers =
    some_of (λ (name, values). some_of (λ v. exceeds limit (length v)) values) headers

-- The checks in their order.
unfoldable pub check_limits : InputLimits → Request → Outcome
unfolding exceeds some_header_exceeds
check_limits l r =
    if exceeds l.max_url_length (length r.request_uri)
    then bad_request url_too_long
    else if exceeds l.max_query_string_length (length r.raw_query)
    then bad_request query_too_long
    else if exceeds l.max_header_count (length r.headers)
    then bad_request too_many_headers
    else if some_header_exceeds l.max_header_size r.headers
    then bad_request header_too_large
    else forward

-- NewExemptPathMatcher(nil) gives no error.
unfoldable pub exempt : Text → Bool
exempt path = elim (new_exempt_path_matcher []) [ none ↦ false | some m ↦ matches m path ]

unfoldable pub input_validation : InputValidationConfig → Request → Outcome
unfolding exempt resolve check_limits
input_validation cfg r =
    if not cfg.enabled
    then forward
    else if exempt r.path
    then forward
    else check_limits (resolve cfg r.path) r
