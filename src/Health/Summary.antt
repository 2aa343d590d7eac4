-- ===== src/Health/Summary.antt =====
-- internal/domain/healthsummary/aggregate.go, internal/domain/upstream/state.go and
-- internal/adapters/caddy/health_handler.go: the summary of the components' states, worst first, and
-- the response of the health endpoint. A component is `none` where the map holds no value for it.
use mathlib.Core.Option.{some-injective}
use vibewarden.Prelude.{
  ◌≡◌, ◌↔◌, refl, arith, Bool, true, false, not, String, [], ◌∷◌, Option, none, some, if◌then◌else◌,
}
use vibewarden.Prelude.Dict.{Dict}
use vibewarden.Health.{UpstreamStatus, unknown, healthy, unhealthy, UpstreamHealth}

pub data Upstream : Type 0 where
  up_unknown up_ok up_degraded : Upstream
  up_failing : (last_error : String) → Upstream

unfoldable upstream_healthy : Upstream → Bool
upstream_healthy up_ok = true
upstream_healthy up_degraded = true
upstream_healthy up_unknown = false
upstream_healthy (up_failing e) = false

unfoldable upstream_string : Upstream → String
upstream_string up_ok = "ok"
upstream_string up_degraded = "degraded"
upstream_string (up_failing e) = "failing"
upstream_string up_unknown = "unknown"

-- The two kinds of components that the endpoint names.
pub data ComponentState : Type 0 where
  always_ok : ComponentState
  upstream : Upstream → ComponentState

unfoldable component_healthy : ComponentState → Bool
unfolding upstream_healthy
component_healthy always_ok = true
component_healthy (upstream u) = upstream_healthy u

pub data Status : Type 0 where
  status_ok status_degraded : Status

unfoldable aggregate_status : Dict (Option ComponentState) → Status
unfolding component_healthy
aggregate_status [] = status_ok
aggregate_status ((name, none) ∷ components) = status_degraded
aggregate_status ((name, some c) ∷ components) =
    let rest = aggregate_status components in
    if not (component_healthy c) then status_degraded else rest

unfoldable map_upstream_status : UpstreamStatus → String → Upstream
map_upstream_status healthy last_error = up_ok
map_upstream_status unhealthy last_error = up_failing last_error
map_upstream_status unknown last_error = up_unknown

unfoldable resolve_upstream_state : Option UpstreamHealth → Upstream
unfolding map_upstream_status
resolve_upstream_state none = up_unknown
resolve_upstream_state (some u) = map_upstream_status u.status u.last_error

pub record HealthBody : Type 0 where
  pub status : Status
  pub version : String
  pub site : String
  pub components : Dict String

unfoldable serve_health : Option UpstreamHealth → Bool → String → String → HealthBody
unfolding resolve_upstream_state aggregate_status upstream_string
serve_health checker suppress_version version site = record {
  status = aggregate_status (
      ("sidecar", some always_ok)
      ∷ ("upstream", some (upstream (resolve_upstream_state checker)))
      ∷ []);
  version = if suppress_version then "" else version;
  site = site;
  components =
      ("sidecar", "ok") ∷ ("upstream", upstream_string (resolve_upstream_state checker)) ∷ [];
}

-- The state of every component is there, and healthy.
abbrev IsAllHealthy : Dict (Option ComponentState) → Type 0
IsAllHealthy [] = Unit
IsAllHealthy ((name, none) ∷ components) = ⊥
IsAllHealthy ((name, some c) ∷ components) = (component_healthy c ≡ true) × IsAllHealthy components

aggregate_status_iff :
    (components : Dict (Option ComponentState))
    → (aggregate_status components ≡ status_ok) ↔ IsAllHealthy components
unfolding aggregate_status
aggregate_status_iff [] = (λ _. tt, λ _. refl)
aggregate_status_iff ((name, none) ∷ components) = (λ h. cc, λ h. absurd h)
aggregate_status_iff ((name, some c) ∷ components) = ground (arith, aggregate_status_iff components)

-- The health endpoint reports "ok" exactly if the upstream is probed and its probes show it healthy. In
-- particular it reports a degraded state where the probe is switched off.
serve_health_iff :
    (checker : Option UpstreamHealth) (suppress_version : Bool) (version site : String)
    → ((serve_health checker suppress_version version site).status ≡ status_ok)
      ↔ ((u : UpstreamHealth) × (checker ≡ some u) × (u.status ≡ healthy))
unfolding serve_health
serve_health_iff none suppress_version version site = (λ h. cc, λ (u, e, _). cc)
serve_health_iff (some u) suppress_version version site =
    (λ h. (u, refl, ground arith), λ (v, e, h). ground (arith, some-injective u v e))
