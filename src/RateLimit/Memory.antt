-- ===== src/RateLimit/Memory.antt =====
-- internal/adapters/ratelimit/memory.go: one token bucket for each key, of golang.org/x/time/rate,
-- whose limiter is a parameter: its constructor, its reservations and its tokens, rounded down. Two
-- readings of the clock are arguments of a call: at its start, and for the delay of a refused one. The
-- reservation and its delay are taken at one instant, where the code reads the clock for each.
use vibewarden.Prelude.{
  ℕ, ltb, ◌==◌, Bool, true, false, ◌&&◌, String, [], ◌∷◌, Option, none, some, if◌then◌else◌,
}
use vibewarden.Prelude.Int.{ℤ, pos_part, neg_part, add_duration, neg_ℤ}
use vibewarden.Prelude.Dict.{Dict, lookup, insert}
use vibewarden.RateLimit.{RateLimitRule, RateLimitResult}

-- A reservation: whether it can be granted at all, and how long to wait for it at an instant.
pub record Reservation : Type 0 where
  pub ok : Bool
  pub delay : ℕ → ℤ

pub record LimiterEntry (Limiter : Type 0) : Type 0 where
  pub limiter : Limiter
  pub last_seen : ℕ

pub record MemoryStore (Limiter : Type 0) : Type 0 where
  pub limiters : Dict (LimiterEntry Limiter)
  pub rule : RateLimitRule
  pub entry_ttl : ℤ

module _ {Limiter : Type 0} (new_limiter : RateLimitRule → Limiter)
    (reserve : ℕ → Limiter → Limiter × Reservation) (cancel : ℕ → Reservation → Limiter → Limiter)
    (tokens : ℕ → Limiter → ℤ) where
  unfoldable pub get_or_create :
      ℕ → RateLimitRule → Option (LimiterEntry Limiter) → LimiterEntry Limiter
  get_or_create now rule (some entry) = entry
  get_or_create now rule none = record { limiter = new_limiter rule; last_seen = now }

  answer : ℕ → ℕ → RateLimitRule → Limiter → Reservation → Limiter × RateLimitResult
  answer now later rule limiter rsv =
      if rsv.ok && (pos_part (rsv.delay now) == 0 && neg_part (rsv.delay now) == 0)
      then (
        limiter,
        record {
          allowed = true;
          remaining = pos_part (tokens now limiter);
          retry_after = 0;
          limit = rule.requests_per_second;
          burst = rule.burst;
        },
      )
      else (
        cancel later rsv limiter,
        record {
          allowed = false;
          remaining = 0;
          retry_after = pos_part (rsv.delay later);
          limit = rule.requests_per_second;
          burst = rule.burst;
        },
      )

  -- The call on the limiter of one key.
  unfoldable pub ask_limiter :
      ℕ → ℕ → RateLimitRule → LimiterEntry Limiter → LimiterEntry Limiter × RateLimitResult
  unfolding answer
  ask_limiter now later rule entry =
      let (limiter, rsv) = reserve now entry.limiter in
      let (after, result) = answer now later rule limiter rsv in
      (record { limiter = after; last_seen = now }, result)

  put_back :
      String
      → LimiterEntry Limiter × RateLimitResult
      → MemoryStore Limiter
      → MemoryStore Limiter × RateLimitResult
  put_back key (entry, result) s = (record s { limiters = insert key entry s.limiters }, result)

  unfoldable pub allow :
      ℕ → ℕ → String → MemoryStore Limiter → MemoryStore Limiter × RateLimitResult
  unfolding put_back
  allow now later key s =
      put_back key (ask_limiter now later s.rule (get_or_create now s.rule (lookup key s.limiters)))
        s

module _ {Limiter : Type 0} where
  unfoldable pub is_stale : ℕ → ℤ → LimiterEntry Limiter → Bool
  is_stale now ttl entry = ltb entry.last_seen (add_duration now (neg_ℤ ttl))

  unfoldable pub evict_from : ℕ → ℤ → Dict (LimiterEntry Limiter) → Dict (LimiterEntry Limiter)
  unfolding is_stale
  evict_from now ttl [] = []
  evict_from now ttl ((key, entry) ∷ limiters) =
      let rest = evict_from now ttl limiters in
      if is_stale now ttl entry then rest else (key, entry) ∷ rest

  unfoldable pub evict : ℕ → MemoryStore Limiter → MemoryStore Limiter
  unfolding evict_from
  evict now s = record s { limiters = evict_from now s.entry_ttl s.limiters }
