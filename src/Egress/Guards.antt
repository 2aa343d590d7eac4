-- ===== src/Egress/Guards.antt =====
-- internal/adapters/egress/proxy.go, HandleRequest: what must hold for the upstream to be contacted.
use vibewarden.Prelude.{
  ℕ, Bool, true, false, ◌≡◌, ◌⊎◌, inl, inr, refl, Bool-cases, Option-cases, Option, none, some,
  Result, ok, err,
}
use vibewarden.Breaker.{ConfigError}
use vibewarden.Egress.Route.{Route}
use vibewarden.Egress.Resolver.{EgressRequest, resolve}
use vibewarden.Egress.Cache.{get}
use vibewarden.Egress.Breakers.{Registry, registry_is_open}
use vibewarden.Egress.Proxy.{
  ProxyConfig, Env, Policy, allow, deny, RateDecision, admits, refuses, rate_check_fails,
  ProxyState, Handled, Handler, check_policy, is_insecure, check_insecure, check_breaker,
  check_rate, check_cache, body_size_limit, enforce_request_body_limit, check_body, cache_for,
}
use vibewarden.Egress.Handler.{forward, call_upstream, handle_routed, handle_request}

-- A handler has contacted no upstream, or a condition holds.
abbrev UnlessSilent : ProxyState → Type 0 → Handled → Type 0
UnlessSilent s P (s', result) = (s'.sent ≡ s.sent) ⊎ P

abbrev PolicyAllows : ProxyConfig → Option Route → Type 0
PolicyAllows cfg none = cfg.default_policy ≡ allow
PolicyAllows cfg (some route) = Unit

abbrev BreakerAllows : ℕ → Option Route → Registry → Type 0
BreakerAllows now none r = Unit
BreakerAllows now (some route) r = (r' : Registry) × (registry_is_open now route r ≡ ok (r', false))

abbrev RateAllows : RateDecision → Option Route → Type 0
RateAllows rate none = Unit
RateAllows rate (some route) = rate ≡ admits

pub policy_cases : (p : Policy) → (p ≡ allow) ⊎ (p ≡ deny)
policy_cases allow = inl refl
policy_cases deny = inr refl

pub rate_cases : (r : RateDecision) → (r ≡ admits) ⊎ (r ≡ refuses) ⊎ (r ≡ rate_check_fails)
rate_cases admits = inl refl
rate_cases refuses = inr (inl refl)
rate_cases rate_check_fails = inr (inr refl)

pub opened_cases :
    (o : Result ConfigError (Registry × Bool))
    → ((e : ConfigError) × (o ≡ err e))
      ⊎ ((r : Registry) × (o ≡ ok (r, true)))
      ⊎ ((r : Registry) × (o ≡ ok (r, false)))
opened_cases (err e) = inl (e, refl)
opened_cases (ok (r, true)) = inr (inl (r, refl))
opened_cases (ok (r, false)) = inr (inr (r, refl))

module _ (cfg : ProxyConfig) (env : Env) (req : EgressRequest) where
  check_policy_lem :
      (route : Option Route) (next : Handler) (s : ProxyState) (P : Type 0)
      → (PolicyAllows cfg route → UnlessSilent s P (next s))
      → UnlessSilent s P (check_policy cfg route next s)
  unfolding check_policy
  check_policy_lem (some route) next s P h = h tt
  check_policy_lem none next s P h = elim (policy_cases cfg.default_policy) [
    | inl allowed ↦ rw (allowed, check_policy) (h allowed)
    | inr denied ↦ rw (denied, check_policy) (inl refl)
  ]

  check_insecure_lem :
      (route : Option Route) (next : Handler) (s : ProxyState) (P : Type 0)
      → (is_insecure cfg route req.url ≡ false → UnlessSilent s P (next s))
      → UnlessSilent s P (check_insecure cfg req.url route next s)
  unfolding check_insecure
  check_insecure_lem route next s P h = elim (Bool-cases (is_insecure cfg route req.url)) [
    | inl insecure ↦ rw (insecure, check_insecure) (inl refl)
    | inr secure ↦ rw (secure, check_insecure) (h secure)
  ]

  check_breaker_lem :
      (route : Option Route) (next : Handler) (s : ProxyState) (P : Type 0)
      → ((s' : ProxyState)
          → s'.sent ≡ s.sent
          → BreakerAllows env.now route s.registry
          → UnlessSilent s' P (next s'))
      → UnlessSilent s P (check_breaker env.now route next s)
  unfolding check_breaker
  check_breaker_lem none next s P h = h s refl tt
  check_breaker_lem (some route) next s P h =
      elim (opened_cases (registry_is_open env.now route s.registry)) [
        | inl (e, failed) ↦ rw (failed, check_breaker) (inl refl)
        | inr (inl (r, rejected)) ↦ rw (rejected, check_breaker) (inl refl)
        | inr (inr (r, admitted)) ↦
            rw (admitted, check_breaker) (h (record s { registry = r }) refl (r, admitted))
      ]

  check_rate_lem :
      (route : Option Route) (next : Handler) (s : ProxyState) (P : Type 0)
      → (RateAllows env.rate route → UnlessSilent s P (next s))
      → UnlessSilent s P (check_rate env.rate route next s)
  unfolding check_rate
  check_rate_lem none next s P h = h tt
  check_rate_lem (some route) next s P h = elim (rate_cases env.rate) [
    | inl admitted ↦ rw (admitted, check_rate) (h admitted)
    | inr (inl refused) ↦ rw (refused, check_rate) (inl refl)
    | inr (inr failed) ↦ rw (failed, check_rate) (inl refl)
  ]

  -- A cached response is answered, and a body over the limit refused, with the upstream left alone.
  check_cache_lem :
      (route : Option Route) (next : Handler) (s : ProxyState) (P : Type 0)
      → ((s' : ProxyState) → s'.sent ≡ s.sent → UnlessSilent s' P (next s'))
      → UnlessSilent s P (check_cache env.now req route next s)
  unfolding check_cache
  check_cache_lem none next s P h = h s refl
  check_cache_lem (some route) next s P h = elim (Option-cases (cache_for route s.caches)) [
    | inl uncached ↦ rw (uncached, check_cache) (h s refl)
    | inr (cache, found) ↦ elim (Option-cases (get req.method req.url env.now cache).1) [
      | inl missed ↦ rw (found, missed, check_cache) (h _ refl)
      | inr (entry, hit) ↦ rw (found, hit, check_cache) (inl refl)
    ]
  ]

  check_body_lem :
      (route : Option Route) (next : EgressRequest → Handler) (s : ProxyState) (P : Type 0)
      → ((limited : EgressRequest)
          → enforce_request_body_limit req (body_size_limit cfg route) ≡ some limited
          → UnlessSilent s P (next limited s))
      → UnlessSilent s P (check_body cfg req route next s)
  unfolding check_body
  check_body_lem route next s P h =
      elim (Option-cases (enforce_request_body_limit req (body_size_limit cfg route))) [
        | inl refused ↦ rw (refused, check_body) (inl refl)
        | inr (limited, within) ↦ rw (within, check_body) (h limited within)
      ]

  call_upstream_lem :
      (route : Option Route) (limited : EgressRequest) (s : ProxyState) (P : Type 0)
      → (env.prepares ≡ true → P)
      → UnlessSilent s P (call_upstream env route limited s)
  unfolding call_upstream forward
  call_upstream_lem route limited s P h = elim (Bool-cases env.prepares) [
    | inl prepared ↦ inr (h prepared)
    | inr failed ↦ rw (failed, call_upstream, forward) (inl refl)
  ]

-- What holds of a request that reaches the upstream.
pub record Admitted (cfg : ProxyConfig) (env : Env) (req : EgressRequest) (s : ProxyState)
    : Type 0 where
  pub policy : PolicyAllows cfg (resolve cfg.routes req)
  pub secure : is_insecure cfg (resolve cfg.routes req) req.url ≡ false
  pub breaker : BreakerAllows env.now (resolve cfg.routes req) s.registry
  pub rate : RateAllows env.rate (resolve cfg.routes req)
  pub prepared : env.prepares ≡ true

-- A request that sends anything upstream has a route or a default policy that allows it, is not
-- plain http unless its route or the proxy allows that, and is let through by the breaker and by
-- the rate limit of its route, with its headers and secrets prepared.
pub handle_request-sent :
    (cfg : ProxyConfig) (env : Env) (req : EgressRequest) (s : ProxyState)
    → ((handle_request cfg env req s).0.sent ≡ s.sent) ⊎ Admitted cfg env req s
unfolding handle_request handle_routed
handle_request-sent cfg env req s =
    let route = resolve cfg.routes req in
    let P = Admitted cfg env req s in
    let upstream = call_upstream env route in
    let body = check_body cfg req route upstream in
    let cache = check_cache env.now req route body in
    let rated = check_rate env.rate route cache in
    let breaking = check_breaker env.now route rated in
    check_policy_lem cfg env req route (check_insecure cfg req.url route breaking) s P λ policy.
      check_insecure_lem cfg env req route breaking s P λ secure.
        check_breaker_lem cfg env req route rated s P λ s1 same breaker.
          check_rate_lem cfg env req route cache s1 P λ rate.
            check_cache_lem cfg env req route body s1 P λ s2 same'.
              check_body_lem cfg env req route upstream s2 P λ limited within.
                call_upstream_lem cfg env req route limited s2 P λ prepared. record {
                  policy = policy;
                  secure = secure;
                  breaker = breaker;
                  rate = rate;
                  prepared = prepared;
                }
