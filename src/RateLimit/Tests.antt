-- ===== src/RateLimit/Tests.antt =====
-- Runs of the rate limiter, and its theorems at concrete requests.
use vibewarden.Prelude.{
  ℕ, ◌+◌, ◌-◌, ◌*◌, ◌≤◌, ltb, ◌≡◌, ◌≢◌, ◌↔◌, ◌⊎◌, refl, arith, true, false, String, List, [], ◌∷◌,
  Option, none, some, if◌then◌else◌,
}
use vibewarden.Prelude.Int.{ℤ, pos}
use vibewarden.Prelude.Text.{Text, text_of, text_eq, trim_space}
use vibewarden.Prelude.Split.{cut}
use vibewarden.Prelude.Dict.{lookup}
use vibewarden.Access.Paths.{PathMatcher, matches}
use vibewarden.RateLimit.{RateLimitRule, RateLimitResult}
use vibewarden.RateLimit.Bucket
use vibewarden.RateLimit.Bucket.{Bucket, one_token}
use vibewarden.RateLimit.Throughput.{admitted, admitted-le}
use vibewarden.RateLimit.Memory.{Reservation, MemoryStore}
use vibewarden.RateLimit.Isolation.{own, allow_all, allow_all-own}
use vibewarden.RateLimit.Fallback
use vibewarden.RateLimit.Fallback.{FallbackStore, new_fallback_store, closed_result}
use vibewarden.RateLimit.Routing.{Step, tick, request, reached, step, run, allow-routed}
use vibewarden.RateLimit.Middleware.{
  Request, forward, rate_limit_middleware, resolve_user_id, extract_client_ip, retry_after_seconds,
}
use vibewarden.RateLimit.Admission.{rate_limit_middleware-forward_iff}

abbrev two_per_second : RateLimitRule
two_per_second = record { requests_per_second = 2; burst = 3 }

-- A burst of four at once, and one more after half a second.
abbrev burst_of_four : List ℕ
burst_of_four = 10 ∷ 10 ∷ 10 ∷ 500_010 ∷ []

four_of_five : admitted two_per_second (10 ∷ burst_of_four) none ≡ 4
unfolding admitted Bucket.run_script
four_of_five = refl

admitted-le_example :
    admitted two_per_second (10 ∷ burst_of_four) none * one_token
    ≤ 3 * one_token + (500_010 - 10) * 2
admitted-le_example =
    admitted-le two_per_second 10 burst_of_four 500_010 none (omega arith) (omega arith)

refused_waits :
    (Bucket.allow two_per_second true 10
      (some (record { tokens = 5; last_us = 10; expires_us = 60_000_010 }))).1.retry_after
    ≡ 500_000_000
unfolding Bucket.allow
refused_waits = refl

unreachable_is_open : (Bucket.allow two_per_second false 10 none).1.allowed ≡ true
unfolding Bucket.allow
unreachable_is_open = refl

-- A limiter that counts down its tokens and never refills.
abbrev take_one : ℕ → ℕ → ℕ × Reservation
take_one now left =
    if ltb 0 left
    then (left - 1, record { ok = true; delay = λ t. pos 0 })
    else (0, record { ok = true; delay = λ t. pos 1_000 })

abbrev give_back : ℕ → Reservation → ℕ → ℕ
give_back now rsv left = left

abbrev left_of : ℕ → ℕ → ℤ
left_of now left = pos left

abbrev empty_store : MemoryStore ℕ
empty_store = record { limiters = []; rule = two_per_second; entry_ttl = pos 600 }

abbrev three_calls : List (ℕ × ℕ × String)
three_calls = (1, 1, "10.0.0.1") ∷ (2, 2, "10.0.0.2") ∷ (3, 3, "10.0.0.1") ∷ []

allow_all-own_example :
    lookup "10.0.0.1"
      (allow_all (λ rule. rule.burst) take_one give_back left_of three_calls empty_store).limiters
    ≡ lookup "10.0.0.1"
        (allow_all
          (λ rule. rule.burst)
          take_one
          give_back
          left_of
          (own "10.0.0.1" three_calls)
          empty_store).limiters
allow_all-own_example =
    allow_all-own (λ rule. rule.burst) take_one give_back left_of "10.0.0.1" three_calls empty_store

abbrev permit : String → ℕ → ℕ × RateLimitResult
permit key n =
    (n + 1, record { allowed = true; remaining = 9; retry_after = 0; limit = 2; burst = 3 })

abbrev refuse : String → ℕ → ℕ × RateLimitResult
refuse key n = (
  n + 1,
  record { allowed = false; remaining = 0; retry_after = 1_500_000_000; limit = 2; burst = 3 },
)

abbrev closed : FallbackStore ℕ ℕ
closed = record { primary = 0; secondary = 0; fail_closed = true; healthy = true }

abbrev outage : List Step
outage = request "a" ∷ tick none ∷ tick (some "timeout") ∷ tick (some "timeout") ∷ []

outage_denies :
    (Fallback.allow permit permit "a" (run permit permit outage closed).0).1 ≡ closed_result
unfolding Fallback.allow run Fallback.check step
outage_denies = refl

starts_healthy : new_fallback_store 0 0 true ≡ closed
unfolding new_fallback_store
starts_healthy = refl

allow-routed_example :
    let t = (run permit permit outage closed).0 in
    Fallback.allow permit permit "a" t ≡ (
      if reached true outage
      then (record t { primary = (permit "a" t.primary).0 }, (permit "a" t.primary).1)
      else if true
      then (t, closed_result)
      else (record t { secondary = (permit "a" t.secondary).0 }, (permit "a" t.secondary).1))
allow-routed_example = allow-routed permit permit outage closed "a"

abbrev plain_request : Request
plain_request = record {
  path = text_of "/api";
  forwarded_for = text_of " 10.0.0.7 , 10.0.0.1";
  remote_addr = text_of "10.0.0.1:80";
  identity = some "u1";
  user_header = "";
}

-- A parser that knows one address.
abbrev parse_one : Text → Option String
parse_one s = if text_eq s (text_of "10.0.0.7") then some "10.0.0.7" else none

forwarded_is_trusted : extract_client_ip parse_one (λ addr. none) true plain_request ≡ "10.0.0.7"
unfolding extract_client_ip cut text_eq trim_space
forwarded_is_trusted = refl

forwarded_is_ignored : extract_client_ip parse_one (λ addr. none) false plain_request ≡ ""
unfolding extract_client_ip text_eq trim_space
forwarded_is_ignored = refl

seconds_round_up : retry_after_seconds 1_500_000_000 ≡ 2
unfolding retry_after_seconds
seconds_round_up = refl

abbrev no_exemptions : PathMatcher
no_exemptions = record { patterns = text_of "/_vibewarden/*" ∷ [] }

rate_limit_middleware-forward_iff_example :
    ((rate_limit_middleware permit refuse
        (λ r. "10.0.0.7")
        no_exemptions
        plain_request
        (record { ip_limiter = 0; user_limiter = 0 })).2
      ≡ forward)
    ↔ ((matches no_exemptions (text_of "/api") ≡ true)
        ⊎ ((◌≢◌ {A = String} "10.0.0.7" "")
            × ((permit "10.0.0.7" 0).1.allowed ≡ true)
            × ((resolve_user_id plain_request ≡ "")
                ⊎ ((refuse (resolve_user_id plain_request) 0).1.allowed ≡ true))))
rate_limit_middleware-forward_iff_example =
    rate_limit_middleware-forward_iff permit refuse (λ r. "10.0.0.7") no_exemptions plain_request
      (record { ip_limiter = 0; user_limiter = 0 })
