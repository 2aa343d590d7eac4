-- ===== src/RateLimit.antt =====
-- internal/ports/ratelimit.go: what the stores of the rate limiter share. A sustained rate is a whole
-- number of requests per second here.
pub mod Bucket
pub mod Throughput
pub mod Memory
pub mod Isolation
pub mod Fallback
pub mod Routing
pub mod Middleware
pub mod Admission
mod Tests
use vibewarden.Prelude.{ℕ, Bool}

pub record RateLimitRule : Type 0 where
  pub requests_per_second : ℕ
  pub burst : ℕ

pub record RateLimitResult : Type 0 where
  pub allowed : Bool
  pub remaining : ℕ
  pub retry_after : ℕ
  pub limit : ℕ
  pub burst : ℕ
