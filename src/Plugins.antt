-- ===== src/Plugins.antt =====
-- internal/plugins/registry.go: the plugins, started in the order of their registration and stopped
-- in the reverse order. What a plugin's calls return is a parameter of the plugin; its name stands
-- for its error messages. Registration ends before the first call, and the calls come one by one.
pub mod Lifecycle
pub mod Health
mod Tests
use vibewarden.Prelude.{
  ℕ, List, [], ◌∷◌, ◌++◌, Bool, true, false, not, ◌&&◌, Option, none, some, Result, ok, err, String,
  if◌then◌else◌,
}
use vibewarden.Prelude.Dict.{Dict, lookup, insert}

-- A plugin: what Init, Start and Stop return, its Health, and whether it implements CriticalPlugin
-- and Critical() is true.
pub record Plugin : Type 0 where
  pub name : String
  pub critical : Bool
  pub inits : Bool
  pub starts : Bool
  pub stops : Bool
  pub healthy : Bool

pub data Reason : Type 0 where
  init_failed start_failed : Reason

-- The calls made on plugins, oldest first.
pub data Step : Type 0 where
  init_step start_step stop_step : (name : String) → Step

pub record Registry : Type 0 where
  pub plugins : List Plugin
  pub degraded : Dict Reason
  pub steps : List Step

unfoldable pub new_registry : Registry
new_registry = record { plugins = []; degraded = []; steps = [] }

unfoldable register : Plugin → Registry → Registry
register p r = record r { plugins = r.plugins ++ p ∷ [] }

pub data RegistryError : Type 0 where
  init_error start_error : (name : String) → RegistryError
  stop_errors : List String → RegistryError

unfoldable pub mark_degraded : String → Reason → Registry → Registry
mark_degraded name reason r = record r { degraded = insert name reason r.degraded }

unfoldable pub note : Step → Registry → Registry
note s r = record r { steps = r.steps ++ s ∷ [] }

unfoldable pub init_plugins : List Plugin → Registry → Registry × Option RegistryError
unfolding mark_degraded note
init_plugins [] r = (r, none)
init_plugins (p ∷ ps) r =
    let r' = note (init_step p.name) r in
    let rest = init_plugins ps r' in
    let rest_degraded = init_plugins ps (mark_degraded p.name init_failed r') in
    if p.inits then rest else if p.critical then (r', some (init_error p.name)) else rest_degraded

unfoldable pub init_all : Registry → Registry × Option RegistryError
init_all r = init_plugins r.plugins r

unfoldable pub is_degraded : String → Registry → Bool
is_degraded name r = elim (lookup name r.degraded) [ none ↦ false | some reason ↦ true ]

unfoldable pub start_plugins : List Plugin → Registry → Registry × Option RegistryError
unfolding mark_degraded note is_degraded
start_plugins [] r = (r, none)
start_plugins (p ∷ ps) r =
    let r' = note (start_step p.name) r in
    let skipped = start_plugins ps r in
    let rest = start_plugins ps r' in
    let rest_degraded = start_plugins ps (mark_degraded p.name start_failed r') in
    if is_degraded p.name r
    then skipped
    else if p.starts
    then rest
    else if p.critical
    then (r', some (start_error p.name))
    else rest_degraded

unfoldable pub start_all : Registry → Registry × Option RegistryError
start_all r = start_plugins r.plugins r

-- The loop from the last plugin to the first, with the names of those whose Stop fails.
unfoldable pub stop_plugins : List Plugin → Registry → Registry × List String
unfolding note
stop_plugins [] r = (r, [])
stop_plugins (p ∷ ps) r =
    let (r', failed) = stop_plugins ps r in
    (note (stop_step p.name) r', if p.stops then failed else failed ++ p.name ∷ [])

unfoldable pub stop_all : Registry → Registry × Option RegistryError
stop_all r =
    let (r', failed) = stop_plugins r.plugins r in
    (r', elim failed [ [] ↦ none | name ∷ names ↦ some (stop_errors (name ∷ names)) ])

pub data HealthStatus : Type 0 where
  degraded_status : Reason → HealthStatus
  own_status : Bool → HealthStatus

abbrev pub is_healthy : HealthStatus → Bool
is_healthy (degraded_status reason) = false
is_healthy (own_status healthy) = healthy

status_of : Plugin → Registry → HealthStatus
status_of p r = elim (lookup p.name r.degraded) [
  | some reason ↦ degraded_status reason
  | none ↦ own_status p.healthy
]

unfoldable pub health_of : List Plugin → Registry → Dict HealthStatus → Dict HealthStatus
unfolding status_of
health_of [] r result = result
health_of (p ∷ ps) r result = health_of ps r (insert p.name (status_of p r) result)

unfoldable pub health_all : Registry → Dict HealthStatus
health_all r = health_of r.plugins r []

unfoldable pub all_healthy : Dict HealthStatus → Bool
all_healthy [] = true
all_healthy ((name, s) ∷ rest) =
    let others = all_healthy rest in if is_healthy s then others else false

-- Ready, with what the checker of the upstream says, if there is one.
unfoldable pub ready : Option Bool → Registry → Bool
ready none r = all_healthy (health_all r)
ready (some upstream) r = all_healthy (health_all r) && upstream
