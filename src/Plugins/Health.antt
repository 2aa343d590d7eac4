-- ===== src/Plugins/Health.antt =====
-- internal/plugins/registry.go, HealthAll and the readiness checker: when the program is ready.
use vibewarden.Prelude.{
  ◌≡◌, refl, arith, List, [], ◌∷◌, Bool, true, false, not, ◌&&◌, Option, none, some, String, str_eq,
  eq_iff, some_of,
}
use vibewarden.Prelude.Dict.{Dict, lookup, insert, lookup-insert}
use vibewarden.Plugins.{
  Plugin, Registry, HealthStatus, is_healthy, status_of, health_of, health_all, all_healthy, ready,
  is_degraded,
}

-- The plugin is neither degraded nor unhealthy.
unfoldable well : Registry → Plugin → Bool
unfolding is_degraded
well r p = not (is_degraded p.name r) && p.healthy

is_healthy-status_of : (p : Plugin) (r : Registry) → is_healthy (status_of p r) ≡ well r p
unfolding status_of well is_degraded
is_healthy-status_of p r = ground arith

-- No plugin has this name.
unfoldable is_new : String → List Plugin → Bool
is_new name ps = not (some_of (λ p. str_eq p.name name) ps)

unfoldable pub distinct : List Plugin → Bool
unfolding is_new
distinct [] = true
distinct (p ∷ ps) = is_new p.name ps && distinct ps

all_healthy-insert :
    (name : String) (s : HealthStatus) (d : Dict HealthStatus)
    → lookup name d ≡ none
    → all_healthy (insert name s d) ≡ (all_healthy d && is_healthy s)
unfolding all_healthy insert lookup
all_healthy-insert name s [] h = ground arith
all_healthy-insert name s ((other, t) ∷ d) h = ground (arith, all_healthy-insert name s d)

unfoldable all_well : Registry → List Plugin → Bool
all_well r [] = true
all_well r (p ∷ ps) = well r p && all_well r ps

-- The dictionary has no entry for any of the plugins.
unfoldable absent : List Plugin → Dict HealthStatus → Bool
absent [] d = true
absent (p ∷ ps) d = elim (lookup p.name d) [ none ↦ absent ps d | some s ↦ false ]

absent-insert :
    (name : String) (s : HealthStatus) (ps : List Plugin) (d : Dict HealthStatus)
    → is_new name ps ≡ true
    → absent ps d ≡ true
    → absent ps (insert name s d) ≡ true
unfolding absent is_new some_of
absent-insert name s [] d new h = refl
absent-insert name s (p ∷ ps) d new h = ground (
  arith,
  lookup-insert name p.name s d,
  eq_iff name p.name,
  eq_iff p.name name,
  absent-insert name s ps d,
)

all_healthy-health_of :
    (ps : List Plugin) (r : Registry) (d : Dict HealthStatus)
    → distinct ps ≡ true
    → absent ps d ≡ true
    → all_healthy (health_of ps r d) ≡ (all_healthy d && all_well r ps)
unfolding health_of distinct absent all_well
all_healthy-health_of [] r d distinct_ps h = ground arith
all_healthy-health_of (p ∷ ps) r d distinct_ps h =
    let d' = insert p.name (status_of p r) d in
    ground (
      arith,
      all_healthy-health_of ps r d',
      absent-insert p.name (status_of p r) ps d,
      all_healthy-insert p.name (status_of p r) d,
      is_healthy-status_of p r,
    )

absent-nil : (ps : List Plugin) → absent ps [] ≡ true
unfolding absent lookup
absent-nil [] = refl
absent-nil (p ∷ ps) = absent-nil ps

-- With distinct names, the program is ready exactly if every plugin is healthy and none degraded,
-- and the upstream is healthy where it is checked.
ready_iff :
    (upstream : Option Bool) (r : Registry)
    → distinct r.plugins ≡ true
    → ready upstream r
      ≡ (all_well r r.plugins && (elim upstream [ none ↦ true | some healthy ↦ healthy ]))
unfolding ready health_all all_healthy
ready_iff none r names =
    ground (arith, all_healthy-health_of r.plugins r [] names (absent-nil r.plugins))
ready_iff (some healthy) r names =
    ground (arith, all_healthy-health_of r.plugins r [] names (absent-nil r.plugins))
