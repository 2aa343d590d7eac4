-- ===== src/Egress/Validation.antt =====
-- internal/adapters/egress/proxy.go, validateResponse: which responses the caller gets.
use vibewarden.Prelude.{◌≡◌, inl, inr, refl, Bool-cases, Option-cases, Option, none, some}
use vibewarden.Egress.Route.{Route}
use vibewarden.Egress.Resolver.{EgressRequest, resolve}
use vibewarden.Egress.Cache.{get}
use vibewarden.Egress.Breakers.{registry_is_open}
use vibewarden.Egress.Proxy.{
  ProxyConfig, Env, ProxyState, Handler, check_policy, is_insecure, check_insecure, check_breaker,
  check_rate, check_cache, check_body, body_size_limit, enforce_request_body_limit, cache_for,
}
use vibewarden.Egress.Handler.{call_upstream, handle_routed, handle_request}
use vibewarden.Egress.Guards.{policy_cases, rate_cases, opened_cases}
use vibewarden.Egress.Replies.{cached_entry, IsChecked, Checks, ChecksReplies, call_upstream-Checks}

module _ (cfg : ProxyConfig) (env : Env) (req : EgressRequest) (before : ProxyState) where
  check_policy-Checks :
      (route : Option Route) (next : Handler)
      → Checks env req before route next
      → Checks env req before route (check_policy cfg route next)
  unfolding check_policy
  check_policy-Checks (some route) next h s same_caches same = h s same_caches same
  check_policy-Checks none next h s same_caches same = elim (policy_cases cfg.default_policy) [
    | inl allowed ↦ rw (allowed, check_policy) (h s same_caches same)
    | inr denied ↦ rw (denied, check_policy) tt
  ]

  check_insecure-Checks :
      (route : Option Route) (next : Handler)
      → Checks env req before route next
      → Checks env req before route (check_insecure cfg req.url route next)
  unfolding check_insecure
  check_insecure-Checks route next h s same_caches same =
      elim (Bool-cases (is_insecure cfg route req.url)) [
        | inl insecure ↦ rw (insecure, check_insecure) tt
        | inr secure ↦ rw (secure, check_insecure) (h s same_caches same)
      ]

  check_breaker-Checks :
      (route : Option Route) (next : Handler)
      → Checks env req before route next
      → Checks env req before route (check_breaker env.now route next)
  unfolding check_breaker
  check_breaker-Checks none next h s same_caches same = h s same_caches same
  check_breaker-Checks (some route) next h s same_caches same =
      elim (opened_cases (registry_is_open env.now route s.registry)) [
        | inl (e, failed) ↦ rw (failed, check_breaker) tt
        | inr (inl (r, rejected)) ↦ rw (rejected, check_breaker) tt
        | inr (inr (r, admitted)) ↦
            rw (admitted, check_breaker) (h (record s { registry = r }) same_caches same)
      ]

  check_rate-Checks :
      (route : Option Route) (next : Handler)
      → Checks env req before route next
      → Checks env req before route (check_rate env.rate route next)
  unfolding check_rate
  check_rate-Checks none next h s same_caches same = h s same_caches same
  check_rate-Checks (some route) next h s same_caches same = elim (rate_cases env.rate) [
    | inl admitted ↦ rw (admitted, check_rate) (h s same_caches same)
    | inr (inl refused) ↦ rw (refused, check_rate) tt
    | inr (inr failed) ↦ rw (failed, check_rate) tt
  ]

  check_cache-Checks :
      (route : Option Route) (next : Handler)
      → ChecksReplies env req before route next
      → Checks env req before route (check_cache env.now req route next)
  unfolding check_cache cached_entry
  check_cache-Checks none next h s same_caches same = h s same
  check_cache-Checks (some route) next h s same_caches same =
      elim (Option-cases (cache_for route s.caches)) [
        | inl uncached ↦ rw (uncached, check_cache) (h s same)
        | inr (cache, found) ↦ elim (Option-cases (get req.method req.url env.now cache).1) [
          | inl missed ↦ rw (found, missed, check_cache) (h _ same)
          | inr (entry, hit) ↦
              let here : cache_for route before.caches ≡ some cache = rw (← same_caches) found in
              let cached : cached_entry env.now req route before.caches ≡ some entry =
                rw (here, cached_entry) hit in
              rw (found, hit, check_cache) (inl (entry, cached, refl))
        ]
      ]

  check_body-Checks :
      (route : Option Route) (next : EgressRequest → Handler)
      → ((limited : EgressRequest) → ChecksReplies env req before route (next limited))
      → ChecksReplies env req before route (check_body cfg req route next)
  unfolding check_body
  check_body-Checks route next h s same =
      elim (Option-cases (enforce_request_body_limit req (body_size_limit cfg route))) [
        | inl refused ↦ rw (refused, check_body) tt
        | inr (limited, within) ↦ rw (within, check_body) (h limited s same)
      ]

-- Every response that HandleRequest returns is the entry that the cache of the route had for the
-- request, or has the status of the reply to the last of the attempts made for it, with the body that
-- was sent last: a status from 100 to 599 that obeys the rules of the route with the content type of
-- that reply.
pub handle_request-IsChecked :
    (cfg : ProxyConfig) (env : Env) (req : EgressRequest) (s : ProxyState)
    → IsChecked env req s (resolve cfg.routes req) (handle_request cfg env req s)
unfolding handle_request handle_routed
handle_request-IsChecked cfg env req s =
    let route = resolve cfg.routes req in
    let upstream = call_upstream env route in
    let body = check_body cfg req route upstream in
    let cache = check_cache env.now req route body in
    let rated = check_rate env.rate route cache in
    let breaking = check_breaker env.now route rated in
    check_policy-Checks cfg env req s route (check_insecure cfg req.url route breaking)
      (check_insecure-Checks cfg env req s route breaking (
        check_breaker-Checks cfg env req s route rated (
          check_rate-Checks cfg env req s route cache (
            check_cache-Checks cfg env req s route body (
              check_body-Checks cfg env req s route upstream
                (λ limited. call_upstream-Checks env req s route limited))))))
      s refl refl
