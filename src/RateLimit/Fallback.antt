-- ===== src/RateLimit/Fallback.antt =====
-- internal/adapters/ratelimit/fallback_store.go: a store that turns to a second one while the first
-- cannot be reached. One goroutine probes the first store and alone writes the flag, which is atomic;
-- requests read it, so that checks and requests follow one another. The two stores are parameters
-- with their states, and a check is given the error of its probe.
use vibewarden.Prelude.{
  Bool, true, false, not, String, List, [], ◌∷◌, Option, none, some, if◌then◌else◌,
}
use vibewarden.RateLimit.{RateLimitResult}

pub record FallbackStore (P S : Type 0) : Type 0 where
  pub primary : P
  pub secondary : S
  pub fail_closed : Bool
  pub healthy : Bool

pub data Event : Type 0 where
  store_fallback : (reason : String) → Event
  store_recovered : Event

-- Whether the answer is the first store's, the second one's, or neither.
pub data Source : Type 0 where
  from_primary from_secondary denied : Source

abbrev pub closed_result : RateLimitResult
closed_result = record {
  allowed = false;
  remaining = 0;
  retry_after = 1_000_000_000;
  limit = 0;
  burst = 0;
}

module _ {P S : Type 0} where
  unfoldable pub new_fallback_store : P → S → Bool → FallbackStore P S
  new_fallback_store primary secondary fail_closed = record {
    primary = primary;
    secondary = secondary;
    fail_closed = fail_closed;
    healthy = true;
  }

  unfoldable pub check : Option String → FallbackStore P S → FallbackStore P S × List Event
  check (some e) s =
      if s.healthy then (record s { healthy = false }, store_fallback e ∷ []) else (s, [])
  check none s =
      if not s.healthy then (record s { healthy = true }, store_recovered ∷ []) else (s, [])

module _ {P S : Type 0} (allow_primary : String → P → P × RateLimitResult)
    (allow_secondary : String → S → S × RateLimitResult) where
  on_primary : P × RateLimitResult → FallbackStore P S → FallbackStore P S × RateLimitResult
  on_primary (p, result) s = (record s { primary = p }, result)

  on_secondary : S × RateLimitResult → FallbackStore P S → FallbackStore P S × RateLimitResult
  on_secondary (p, result) s = (record s { secondary = p }, result)

  unfoldable pub allow : String → FallbackStore P S → FallbackStore P S × RateLimitResult
  unfolding on_primary on_secondary
  allow key s =
      if s.healthy
      then on_primary (allow_primary key s.primary) s
      else if s.fail_closed
      then (s, closed_result)
      else on_secondary (allow_secondary key s.secondary) s
