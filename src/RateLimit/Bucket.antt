-- ===== src/RateLimit/Bucket.antt =====
-- internal/adapters/ratelimit/redis_adapter.go: the token bucket of the Lua script, which Redis runs
-- as one step for each call, and the store around it. Tokens are counted in millionths, so that the
-- rate in tokens per microsecond, rps / 1e6, is a whole number of them; the script's floating-point
-- numbers are taken as exact. An instant is a number of microseconds.
use vibewarden.Prelude.{
  ℕ, ◌+◌, ◌-◌, ◌*◌, ◌/◌, ltb, leb, Bool, true, false, Option, none, some, if◌then◌else◌, not, ◌&&◌,
}
use vibewarden.RateLimit.{RateLimitRule, RateLimitResult}

abbrev pub one_token : ℕ
one_token = 1_000_000

-- A key in Redis, with the instant at which it expires.
pub record Bucket : Type 0 where
  pub tokens : ℕ
  pub last_us : ℕ
  pub expires_us : ℕ

-- What the script reads: the fields of a key that is not expired.
unfoldable pub read_key : ℕ → Option Bucket → Option Bucket
read_key now none = none
read_key now (some b) = if leb b.expires_us now then none else some b

-- The tokens before the request, at most the burst.
unfoldable pub refill : RateLimitRule → ℕ → Option Bucket → ℕ
refill rule now none = rule.burst * one_token
refill rule now (some b) =
    let tokens = b.tokens + (now - b.last_us) * rule.requests_per_second in
    if ltb (rule.burst * one_token) tokens then rule.burst * one_token else tokens

-- math.Ceil(float64(burst)/rps) * 2, at least 60. The code divides floating-point numbers.
unfoldable pub ttl_secs : RateLimitRule → ℕ
ttl_secs rule =
    let window = (rule.burst + rule.requests_per_second - 1) / rule.requests_per_second * 2 in
    if ltb window 60 then 60 else window

-- The script: the new value of the key, whether the request is allowed, and the whole tokens left.
unfoldable pub run_script : RateLimitRule → ℕ → Option Bucket → Bucket × Bool × ℕ
unfolding read_key refill ttl_secs
run_script rule now key =
    let tokens = refill rule now (read_key now key) in
    let expires = now + ttl_secs rule * 1_000_000 in
    if leb one_token tokens
    then (
      record { tokens = tokens - one_token; last_us = now; expires_us = expires },
      true,
      (tokens - one_token) / one_token,
    )
    else (
      record { tokens = tokens; last_us = now; expires_us = expires },
      false,
      tokens / one_token,
    )

-- RedisStore.Allow. The script may fail to run: then the key stays, and the request is let through.
unfoldable pub allow : RateLimitRule → Bool → ℕ → Option Bucket → Option Bucket × RateLimitResult
unfolding run_script
allow rule reachable now key =
    let (b, allowed, remaining) = run_script rule now key in
    if not reachable
    then (
      key,
      record {
        allowed = true;
        remaining = rule.burst;
        retry_after = 0;
        limit = rule.requests_per_second;
        burst = rule.burst;
      },
    )
    else (
      some b,
      record {
        allowed = allowed;
        remaining = remaining;
        retry_after =
            if not allowed && ltb 0 rule.requests_per_second
            then 1_000_000_000 / rule.requests_per_second
            else 0;
        limit = rule.requests_per_second;
        burst = rule.burst;
      },
    )
