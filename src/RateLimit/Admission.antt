-- ===== src/RateLimit/Admission.antt =====
-- Which requests the rate limiting middleware lets through, and what it asks of its stores.
use vibewarden.Prelude.{◌≡◌, ◌≢◌, ◌↔◌, ◌⊎◌, arith, true, false, String, eq_iff}
use vibewarden.Access.Paths.{PathMatcher, matches}
use vibewarden.RateLimit.{RateLimitResult}
use vibewarden.RateLimit.Middleware.{
  Request, Limiters, forward, rate_limit_middleware, resolve_user_id,
}

module _ {I U : Type 0} (allow_ip : String → I → I × RateLimitResult)
    (allow_user : String → U → U × RateLimitResult) (client_ip_of : Request → String)
    (matcher : PathMatcher) (r : Request) (s : Limiters I U) where
  -- A request goes on exactly if its path is exempt, or its client's address is known and within its
  -- limit, and its user, where it has one, is within theirs.
  pub rate_limit_middleware-forward_iff :
      ((rate_limit_middleware allow_ip allow_user client_ip_of matcher r s).2 ≡ forward) ↔ (
        (matches matcher r.path ≡ true)
        ⊎ ((client_ip_of r ≢ "")
            × ((allow_ip (client_ip_of r) s.ip_limiter).1.allowed ≡ true)
            × ((resolve_user_id r ≡ "")
                ⊎ ((allow_user (resolve_user_id r) s.user_limiter).1.allowed ≡ true))))
  unfolding rate_limit_middleware
  rate_limit_middleware-forward_iff =
      ground (arith, eq_iff (client_ip_of r) "", eq_iff (resolve_user_id r) "")

  -- A request that is refused for its client's address costs its user nothing.
  rate_limit_middleware-user_kept :
      (allow_ip (client_ip_of r) s.ip_limiter).1.allowed ≡ false
      → (rate_limit_middleware allow_ip allow_user client_ip_of matcher r s).0.user_limiter
        ≡ s.user_limiter
  unfolding rate_limit_middleware
  rate_limit_middleware-user_kept h = ground arith
