-- ===== src/Egress/Tests/Handling.antt =====
-- Requests that the egress proxy handles from end to end, and the theorems about HandleRequest.
use vibewarden.Prelude.{◌≡◌, ◌⊎◌, refl, [], ◌∷◌, true, false, none, some, some_of}
use vibewarden.Prelude.Int.{pos}
use vibewarden.Prelude.Text.{text_of, text_eq, has_prefix, to_upper}
use vibewarden.Egress.Route.{
  digits_from, matches_url, matches_method, is_retryable_method, is_zero_validation,
}
use vibewarden.Glob.{match_path}
use vibewarden.Prelude.Dict.{lookup}
use vibewarden.Egress.Bodies.{
  RequestBody, plain, limited, LimitedBody, limit_body, read, read_limited, after_attempt,
  request_body_too_large,
}
use vibewarden.Egress.Resolver.{resolve}
use vibewarden.Egress.Cache.{is_cacheable}
use vibewarden.Egress.Breakers.{registry_is_open, new_registry, has_breaker}
use vibewarden.Egress.Retry.{attempts_from, should_retry_status, execute_with_retries}
use vibewarden.Egress.Proxy.{
  ProxyState, is_insecure, check_policy, check_insecure, check_breaker, check_rate, check_cache,
  cache_for, check_body, content_length_of, body_size_limit, enforce_request_body_limit,
}
use vibewarden.Egress.Handler.{
  call_upstream, forward, take_answer, answer, handle_request, handle_all,
}
use vibewarden.Egress.Guards.{Admitted, handle_request-sent}
use vibewarden.Egress.Probes.{refused_probe_blocks}
use vibewarden.Egress.Tests.{
  api_route, two_bytes, put_x, config, env_of, open_breaker, state_after_trip, resolved_x,
}
use vibewarden.Egress.Replies.{IsChecked}
use vibewarden.Egress.Validation.{handle_request-IsChecked}

refused_probe_blocks_example :
    (handle_all config ((env_of false, put_x) ∷ (env_of true, put_x) ∷ []) state_after_trip).sent
    ≡ []
unfolding has_breaker lookup is_insecure has_prefix
refused_probe_blocks_example =
    refused_probe_blocks config api_route (env_of false) put_x state_after_trip open_breaker refl
      refl refl refl resolved_x refl refl ((env_of true, put_x) ∷ []) (resolved_x, tt)

handle_request-sent_example :
    ((handle_request config (env_of true) put_x state_after_trip).0.sent ≡ [])
    ⊎ Admitted config (env_of true) put_x state_after_trip
handle_request-sent_example = handle_request-sent config (env_of true) put_x state_after_trip

abbrev closed_body : RequestBody
closed_body = plain (record { bytes = []; closes = true; closed = true })

-- The retries of a request whose body has no limit are made with a closed body.
probe_is_sent :
    (handle_request config (env_of true) put_x state_after_trip).0.sent
    ≡ two_bytes ∷ closed_body ∷ closed_body ∷ []
unfolding handle_request resolve matches_url matches_method match_path lookup check_policy
    check_insecure is_insecure has_prefix check_breaker registry_is_open check_rate check_cache
    cache_for check_body body_size_limit enforce_request_body_limit call_upstream forward
    take_answer answer execute_with_retries attempts_from is_retryable_method some_of text_eq
    to_upper should_retry_status after_attempt is_zero_validation is_cacheable
probe_is_sent = refl

abbrev state_at_start : ProxyState
state_at_start = record { registry = new_registry; caches = []; sent = []; blocked = [] }

handle_request-IsChecked_example :
    IsChecked
      (env_of true)
      put_x
      state_at_start
      (resolve config.routes put_x)
      (handle_request config (env_of true) put_x state_at_start)
handle_request-IsChecked_example =
    handle_request-IsChecked config (env_of true) put_x state_at_start

-- With a limit of one byte, a Content-Length of two is refused, and without one the reader fails at the
-- second byte.
length_is_refused :
    enforce_request_body_limit (record put_x { content_length = text_of " +2 bytes" }) (pos 1)
    ≡ none
unfolding enforce_request_body_limit content_length_of digits_from
length_is_refused = refl

abbrev limited_to_one : LimitedBody
limited_to_one = record {
  r = record { bytes = 1 ∷ 2 ∷ []; closes = true; closed = false };
  limit = 1;
  read_so_far = 0;
}

length_is_hidden :
    enforce_request_body_limit put_x (pos 1) ≡ some (record put_x { body = limited limited_to_one })
unfolding enforce_request_body_limit content_length_of limit_body
length_is_hidden = refl

read_fails_past_limit :
    (read_limited 1 limited_to_one).2 ≡ none
    × ((read_limited 2 limited_to_one).2 ≡ some request_body_too_large)
unfolding read_limited read
read_fails_past_limit = (refl, refl)
