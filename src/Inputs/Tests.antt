-- ===== src/Inputs/Tests.antt =====
-- The limits on the size of a request at concrete requests.
use vibewarden.Prelude.{◌≡◌, ◌↔◌, ◌⊎◌, refl, true, false, [], ◌∷◌, some_of}
use vibewarden.Prelude.Int.{pos, negsuc}
use vibewarden.Prelude.Text.{Text, text_of}
use vibewarden.Glob.{match_path, matched}
use vibewarden.Access.Paths.{matches, new_exempt_path_matcher}
use vibewarden.Inputs.{
  InputLimits, PathOverride, InputValidationConfig, Request, forward, bad_request, header_too_large,
  or_global, override_limits, valid_overrides, resolve_from, resolve, exceeds, some_header_exceeds,
  check_limits, exempt, input_validation,
}
use vibewarden.Inputs.Limits.{Governs, PassesLimits, input_validation-forward_iff}

abbrev narrow : InputLimits
narrow = record {
  max_url_length = pos 4;
  max_query_string_length = pos 0;
  max_header_count = pos 2;
  max_header_size = pos 3;
}

abbrev wide_url : PathOverride
wide_url = record {
  path = text_of "/up/*";
  limits = record {
    max_url_length = negsuc 0;
    max_query_string_length = pos 0;
    max_header_count = pos 0;
    max_header_size = pos 0;
  };
}

abbrev limited : InputValidationConfig
limited = record { enabled = true; limits = narrow; path_overrides = wide_url ∷ [] }

abbrev upload : Text → Request
upload value = record {
  path = text_of "/up/a";
  request_uri = text_of "/up/a";
  raw_query = [];
  headers = (text_of "X", value ∷ []) ∷ [];
}

-- An override of -1 lifts a limit, and one of 0 keeps the global one.
limits_of_upload : resolve limited (text_of "/up/a") ≡ record narrow { max_url_length = negsuc 0 }
unfolding resolve resolve_from valid_overrides override_limits or_global match_path matched
limits_of_upload = refl

long_header_is_refused :
    input_validation limited (upload (text_of "abcd")) ≡ bad_request header_too_large
unfolding input_validation check_limits exceeds some_header_exceeds some_of resolve resolve_from
    valid_overrides override_limits or_global match_path matched exempt matches
    new_exempt_path_matcher
long_header_is_refused = refl

-- The prefix of the program's own endpoints is exempt for one segment only.
one_own_segment : exempt (text_of "/_vibewarden/ready") ≡ true
unfolding exempt matches new_exempt_path_matcher match_path matched some_of
one_own_segment = refl

two_own_segments : exempt (text_of "/_vibewarden/admin/users") ≡ false
unfolding exempt matches new_exempt_path_matcher match_path matched some_of
two_own_segments = refl

input_validation-forward_iff_example :
    (input_validation limited (upload (text_of "abc")) ≡ forward) ↔ (
      (limited.enabled ≡ false)
      ⊎ (exempt (text_of "/up/a") ≡ true)
      ⊎ ((l : InputLimits) × Governs limited.path_overrides (text_of "/up/a") limited.limits l
          × PassesLimits l (upload (text_of "abc"))))
input_validation-forward_iff_example = input_validation-forward_iff limited (upload (text_of "abc"))
