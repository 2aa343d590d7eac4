-- ===== src/Egress/Probes.antt =====
-- internal/adapters/egress/proxy.go, HandleRequest: the probe of a half-open breaker, when the
-- request that was let through as the probe ends before the upstream call.
use vibewarden.Prelude.{
  ℕ, List, [], ◌∷◌, true, false, ◌≡◌, ◌∙◌, inl, inr, refl, ap, arith, Bool-cases, some, All, ok,
  ltb,
}
use vibewarden.Prelude.Int.{add_duration}
use vibewarden.Prelude.Dict.{lookup, lookup-insert_self}
use vibewarden.Breaker.{CircuitBreaker, opened, half_open, is_open}
use vibewarden.Egress.Route.{Route}
use vibewarden.Egress.Resolver.{EgressRequest, resolve}
use vibewarden.Egress.Breakers.{
  breaker_half_open, Registry, has_breaker, get_or_create, store, note_check, registry_is_open,
}
use vibewarden.Egress.Proxy.{
  ProxyConfig, Env, Handler, refuses, ProxyState, Handled, is_insecure, check_policy,
  check_insecure, check_breaker, check_rate, check_cache, check_body,
}
use vibewarden.Egress.Handler.{call_upstream, handle_routed, handle_request, handle_all}

-- The breaker of the route is half-open.
abbrev HalfOpen : Route → Registry → Type 0
HalfOpen route r =
    (cb : CircuitBreaker) × (lookup route.name r.entries ≡ some cb) × (cb.state ≡ half_open)

get_or_create-present :
    (route : Route) (r : Registry) (cb : CircuitBreaker)
    → has_breaker route ≡ true
    → lookup route.name r.entries ≡ some cb
    → get_or_create route r ≡ ok (r, some cb)
unfolding get_or_create
get_or_create-present route r cb has found = rw (has, found) refl

registry_is_open-present :
    (now : ℕ) (route : Route) (r : Registry) (cb : CircuitBreaker)
    → has_breaker route ≡ true
    → lookup route.name r.entries ≡ some cb
    → registry_is_open now route r ≡ ok (note_check now route r cb)
unfolding registry_is_open
registry_is_open-present now route r cb has found =
    rw (get_or_create-present route r cb has found, registry_is_open) refl

note_check-HalfOpen :
    (now : ℕ) (route : Route) (r : Registry) (cb : CircuitBreaker)
    → cb.state ≡ half_open
    → note_check now route r cb ≡ (store route.name cb [] r, true)
unfolding note_check is_open
note_check-HalfOpen now route r cb half = ground arith

registry_is_open-HalfOpen :
    (now : ℕ) (route : Route) (r : Registry)
    → has_breaker route ≡ true
    → HalfOpen route r
    → (r' : Registry) × (registry_is_open now route r ≡ ok (r', true)) × HalfOpen route r'
unfolding store
registry_is_open-HalfOpen now route r has (cb, found, half) = (
  store route.name cb [] r,
  registry_is_open-present now route r cb has found
      ∙ ap (λ x. ok x) (note_check-HalfOpen now route r cb half),
  (cb, lookup-insert_self route.name cb r.entries, half),
)

-- A handler leaves the upstream alone, and the breaker of the route half-open.
abbrev StaysHalfOpen : Route → ProxyState → Handled → Type 0
StaysHalfOpen route s (s', result) = (s'.sent ≡ s.sent) × HalfOpen route s'.registry

check_breaker-HalfOpen :
    (now : ℕ) (route : Route) (next : Handler) (s : ProxyState)
    → has_breaker route ≡ true
    → HalfOpen route s.registry
    → StaysHalfOpen route s (check_breaker now (some route) next s)
unfolding check_breaker
check_breaker-HalfOpen now route next s has half =
    let (r, rejected, half') = registry_is_open-HalfOpen now route s.registry has half in
    rw (rejected, check_breaker) (refl, half')

module _ (cfg : ProxyConfig) (route : Route) where
  handle_routed-HalfOpen :
      (env : Env) (req : EgressRequest) (s : ProxyState)
      → has_breaker route ≡ true
      → HalfOpen route s.registry
      → StaysHalfOpen route s (handle_routed cfg env req (some route) s)
  unfolding handle_routed check_policy check_insecure
  handle_routed-HalfOpen env req s has half =
      elim (Bool-cases (is_insecure cfg (some route) req.url)) [
        | inl insecure ↦ rw (insecure, handle_routed, check_policy, check_insecure) (refl, half)
        | inr secure ↦
            rw (secure, handle_routed, check_policy, check_insecure)
              (check_breaker-HalfOpen env.now route
                (check_rate env.rate (some route) (
                  check_cache env.now req (some route)
                    (check_body cfg req (some route) (call_upstream env (some route)))))
                s has half)
      ]

  handle_request-HalfOpen :
      (env : Env) (req : EgressRequest) (s : ProxyState)
      → resolve cfg.routes req ≡ some route
      → has_breaker route ≡ true
      → HalfOpen route s.registry
      → StaysHalfOpen route s (handle_request cfg env req s)
  unfolding handle_request
  handle_request-HalfOpen env req s resolved has half =
      rw (resolved, handle_request) (handle_routed-HalfOpen env req s has half)

  abbrev AllRouted : List (Env × EgressRequest) → Type 0
  AllRouted later = All (λ (env, req). resolve cfg.routes req ≡ some route) later

  handle_all-HalfOpen :
      (later : List (Env × EgressRequest)) (s : ProxyState)
      → AllRouted later
      → has_breaker route ≡ true
      → HalfOpen route s.registry
      → ((handle_all cfg later s).sent ≡ s.sent) × HalfOpen route (handle_all cfg later s).registry
  unfolding handle_all
  handle_all-HalfOpen [] s all has half = (refl, half)
  handle_all-HalfOpen ((env, req) ∷ later) s (resolved, all) has half =
      let (same, half') = handle_request-HalfOpen env req s resolved has half in
      let (same', half'') = handle_all-HalfOpen later _ all has half' in (same' ∙ same, half'')

note_check-probe :
    (now : ℕ) (route : Route) (r : Registry) (cb : CircuitBreaker)
    → cb.state ≡ opened
    → ltb (add_duration cb.opened_at cb.cfg.timeout) now ≡ true
    → note_check now route r cb ≡ (
      store route.name (record cb { state = half_open }) (breaker_half_open route.name ∷ []) r,
      false,
    )
unfolding note_check is_open
note_check-probe now route r cb is_opened_now late = ground arith

-- The check of an open breaker after its timeout lets the request through and makes it half-open.
registry_is_open-probe :
    (now : ℕ) (route : Route) (r : Registry) (cb : CircuitBreaker)
    → has_breaker route ≡ true
    → lookup route.name r.entries ≡ some cb
    → cb.state ≡ opened
    → ltb (add_duration cb.opened_at cb.cfg.timeout) now ≡ true
    → (r' : Registry) × (registry_is_open now route r ≡ ok (r', false)) × HalfOpen route r'
unfolding store
registry_is_open-probe now route r cb has found is_opened_now late =
    let cb' : CircuitBreaker = record cb { state = half_open } in
    (
      store route.name cb' (breaker_half_open route.name ∷ []) r,
      registry_is_open-present now route r cb has found
          ∙ ap (λ x. ok x) (note_check-probe now route r cb is_opened_now late),
      (cb', lookup-insert_self route.name cb' r.entries, refl),
    )

-- If the request that an open breaker lets through as its probe is then refused by the rate limit
-- of its route, the breaker stays half-open for good: whatever requests of the route come later,
-- and whenever, not one of them is sent.
pub refused_probe_blocks :
    (cfg : ProxyConfig) (route : Route) (env : Env) (req : EgressRequest) (s : ProxyState)
    → (cb : CircuitBreaker) → has_breaker route ≡ true
    → lookup route.name s.registry.entries ≡ some cb
    → cb.state ≡ opened
    → ltb (add_duration cb.opened_at cb.cfg.timeout) env.now ≡ true
    → resolve cfg.routes req ≡ some route
    → is_insecure cfg (some route) req.url ≡ false
    → env.rate ≡ refuses
    → (later : List (Env × EgressRequest))
    → All (λ (env', req'). resolve cfg.routes req' ≡ some route) later
    → (handle_all cfg ((env, req) ∷ later) s).sent ≡ s.sent
unfolding handle_all handle_request handle_routed check_policy check_insecure check_breaker
    check_rate
refused_probe_blocks cfg route env req s cb has found is_opened_now late resolved secure rate later
      all =
    let (r, admitted, half) =
      registry_is_open-probe env.now route s.registry cb has found is_opened_now late in
    let (same, half') : StaysHalfOpen route s (handle_request cfg env req s) =
      rw
        (
          resolved, secure, admitted, rate, handle_request, handle_routed, check_policy,
          check_insecure, check_breaker, check_rate,
        )
        (refl, half) in
    (handle_all-HalfOpen cfg route later _ all has half').0 ∙ same
