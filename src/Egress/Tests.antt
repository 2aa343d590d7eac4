-- ===== src/Egress/Tests.antt =====
-- Routes, requests and upstreams on which the egress proxy runs.
mod Handling
mod Dialing
use vibewarden.Prelude.{
  ℕ, zero, suc, ◌+◌, ◌≤◌, ◌<◌, ◌≡◌, ◌⊎◌, refl, arith, List, [], ◌∷◌, ◌++◌, Bool, true, false, none,
  some, some_of, length, take, drop, replicate, All, ltb, ◌-◌, ◌*◌, ◌^◌, ◌↔◌, if◌then◌else◌,
}
use vibewarden.Prelude.Int.{pos, negsuc}
use vibewarden.Prelude.Text.{Text, text_of, text_eq, has_prefix, to_upper}
use vibewarden.Breaker.{CircuitBreaker, opened}
use vibewarden.Egress.Route.{
  Route, exponential, CacheConfig, matches_url, matches_method, is_retryable_method,
  is_zero_validation,
}
use vibewarden.Glob.{match_path}
use vibewarden.Prelude.Dict.{lookup}
use vibewarden.Egress.Bodies.{RequestBody, plain}
use vibewarden.Egress.Resolver.{EgressRequest, resolve, Fits, resolve_iff}
use vibewarden.Egress.Cache.{
  CacheEntry, has_key, is_cacheable, ResponseCache, new_response_cache, get, set, find_entry,
  is_expired, drop_back, no_body, stream, cacheable_response, new_cache_entry,
}
use vibewarden.Egress.CacheLaws.{
  get_call, set_call, perform_all, WithinCapacity, perform_all-WithinCapacity, get_fresh, get-set,
  set_full, cacheable_response-stream,
}
use vibewarden.Egress.Breakers.{registry_is_open, new_registry, has_breaker}
use vibewarden.Egress.Retry.{
  Upstream, response, attempts_from, should_retry_status, execute_with_retries, max_retries,
  compute_backoff, min_shift,
}
use vibewarden.Egress.Attempts.Answers.{Replied, execute_with_retries-answers}
use vibewarden.Egress.Attempts.Outcomes.{Outcome, execute_with_retries-outcome}
use vibewarden.Egress.Attempts.Backoff.{compute_backoff_iff}
use vibewarden.Egress.Proxy.{
  ProxyConfig, Env, ProxyState, deny, admits, refuses, is_insecure, check_policy, check_insecure,
  check_breaker, check_rate, check_cache, cache_for, check_body, body_size_limit,
  enforce_request_body_limit,
}
use vibewarden.Egress.Handler.{
  call_upstream, forward, take_answer, answer, handle_request, handle_all,
}
use vibewarden.Egress.Guards.{Admitted, handle_request-sent}
use vibewarden.Egress.Probes.{refused_probe_blocks}

abbrev api_route : Route
api_route = record {
  name = "api";
  pattern = text_of "https://a.io/*";
  methods = [];
  circuit_breaker = record { threshold = pos 1; reset_after = pos 10 };
  retry = record { max = pos 2; methods = []; backoff = exponential; initial_backoff = pos 5 };
  body_size_limit = pos 0;
  allow_insecure = false;
  mtls = false;
  cache = record { enabled = false; ttl = pos 0; max_size = pos 0 };
  validate_response = record { status_codes = []; content_types = [] };
}

abbrev two_bytes : RequestBody
two_bytes = plain (record { bytes = 1 ∷ 2 ∷ []; closes = true; closed = false })

abbrev put_x : EgressRequest
put_x = record {
  method = text_of "PUT";
  url = text_of "https://a.io/x";
  content_length = [];
  body = two_bytes;
}

-- An upstream that reads two bytes of every body, and is unavailable for two attempts.
abbrev flaky_status : ℕ → ℕ
flaky_status zero = 503
flaky_status (suc zero) = 503
flaky_status (suc (suc zero)) = 503
flaky_status (suc (suc (suc n))) = 200

abbrev flaky : Upstream
flaky = record {
  sends = λ n body. (response (flaky_status n), 2);
  clock = λ n. 100 + n;
  outlives_wait = λ n wait. true;
}

abbrev config : ProxyConfig
config = record {
  routes = api_route ∷ [];
  default_policy = deny;
  allow_insecure = false;
  default_body_size_limit = pos 0;
}

abbrev env_of : Bool → Env
env_of admitted = record {
  now = 50;
  answered_at = 60;
  rate = if admitted then admits else refuses;
  prepares = true;
  upstream = flaky;
  content_type_of = λ n. [];
  body_of = λ n. no_body;
}

abbrev open_breaker : CircuitBreaker
open_breaker = record {
  cfg = record { threshold = pos 1; timeout = pos 10 };
  state = opened;
  failures = 1;
  opened_at = 30;
}

abbrev state_after_trip : ProxyState
state_after_trip = record {
  registry = record { entries = ("api", open_breaker) ∷ []; events = [] };
  caches = [];
  sent = [];
  blocked = [];
}

resolved_x : resolve config.routes put_x ≡ some api_route
unfolding resolve matches_url matches_method match_path
resolved_x = refl

execute_with_retries-answers_example :
    let (t, last, result) =
      execute_with_retries flaky (text_of "PUT") two_bytes (some api_route) new_registry in
    (1 ≤ last)
    × (last ≤ 1 + max_retries (text_of "PUT") (some api_route))
    × (length t.sent ≡ last)
    × Replied flaky (1 + max_retries (text_of "PUT") (some api_route)) last t.sent result
execute_with_retries-answers_example =
    execute_with_retries-answers flaky (text_of "PUT") two_bytes (some api_route) new_registry

execute_with_retries-outcome_example :
    let (t, last, result) =
      execute_with_retries flaky (text_of "PUT") two_bytes (some api_route) new_registry in
    Outcome flaky (some api_route) new_registry t.registry last result
execute_with_retries-outcome_example =
    execute_with_retries-outcome flaky (text_of "PUT") two_bytes (some api_route) new_registry

-- A base of ten seconds doubled thirty times is a negative wait.
wait_is_negative : compute_backoff exponential 10000000000 31 ≡ negsuc 7709325833709551615
unfolding compute_backoff
wait_is_negative = refl

abbrev page : Text → CacheEntry
page url = record {
  method = text_of "GET";
  url = url;
  status_code = 200;
  body = 7 ∷ [];
  expires_at = 90;
}

perform_all-WithinCapacity_example : WithinCapacity (
    perform_all
      (set_call (page (text_of "/a")) ∷ get_call (text_of "GET") (text_of "/a") 95 ∷ [])
      (new_response_cache (pos 1)))
perform_all-WithinCapacity_example =
    perform_all-WithinCapacity (pos 1)
      (set_call (page (text_of "/a")) ∷ get_call (text_of "GET") (text_of "/a") 95 ∷ [])
