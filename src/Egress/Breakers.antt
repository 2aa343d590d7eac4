-- ===== src/Egress/Breakers.antt =====
-- internal/adapters/egress/circuit_breakers.go: one circuit breaker for each named route, made when
-- the route is first asked for, and the events of their transitions. An event that only the log
-- line carries is half_open's. Calls on one route follow one another under its mutex; the case of
-- two calls that read the state around each other is left out.
use vibewarden.Prelude.{
  ℕ, List, [], ◌∷◌, ◌++◌, Bool, true, false, ◌&&◌, ◌||◌, Option, none, some, Result, ok, err,
  String, if◌then◌else◌,
}
use vibewarden.Prelude.Int.{ℤ, pos, leb_ℤ}
use vibewarden.Prelude.Dict.{Dict, lookup, insert}
use vibewarden.Breaker.{
  CircuitBreaker, ConfigError, new_circuit_breaker, is_open, record_success, record_failure,
}
use vibewarden.Breaker.Adapter.{is_opened, is_half_open}
use vibewarden.Egress.Route.{Route}

pub data BreakerEvent : Type 0 where
  breaker_half_open breaker_closed : (route : String) → BreakerEvent
  breaker_opened : (route : String) → (threshold timeout : ℤ) → BreakerEvent

pub record Registry : Type 0 where
  pub entries : Dict CircuitBreaker
  pub events : List BreakerEvent

unfoldable pub new_registry : Registry
new_registry = record { entries = []; events = [] }

unfoldable pub has_breaker : Route → Bool
has_breaker route =
    if leb_ℤ route.circuit_breaker.threshold (pos 0)
      || leb_ℤ route.circuit_breaker.reset_after (pos 0)
    then false
    else true

create : Route → Registry → Result ConfigError (Registry × Option CircuitBreaker)
unfolding new_circuit_breaker
create route r =
    elim (new_circuit_breaker (record {
      threshold = route.circuit_breaker.threshold;
      timeout = route.circuit_breaker.reset_after;
    })) [
      | err e ↦ err e
      | ok cb ↦ ok (record r { entries = insert route.name cb r.entries }, some cb)
    ]

unfoldable pub get_or_create :
    Route → Registry → Result ConfigError (Registry × Option CircuitBreaker)
unfolding has_breaker create
get_or_create route r =
    if has_breaker route
    then elim (lookup route.name r.entries) [ some cb ↦ ok (r, some cb) | none ↦ create route r ]
    else ok (r, none)

unfoldable pub store : String → CircuitBreaker → List BreakerEvent → Registry → Registry
store name cb happened r = record {
  entries = insert name cb r.entries;
  events = r.events ++ happened;
}

unfoldable pub note_check : ℕ → Route → Registry → CircuitBreaker → Registry × Bool
unfolding is_open store
note_check now route r cb =
    let (cb', rejected) = is_open now cb in
    let happened =
      if is_opened cb.state && is_half_open cb'.state
      then breaker_half_open route.name ∷ []
      else [] in
    (store route.name cb' happened r, rejected)

-- Whether the request is to be rejected.
unfoldable pub registry_is_open : ℕ → Route → Registry → Result ConfigError (Registry × Bool)
unfolding get_or_create note_check
registry_is_open now route r = elim (get_or_create route r) [
  | err e ↦ err e
  | ok (r', none) ↦ ok (r', false)
  | ok (r', some cb) ↦ ok (note_check now route r' cb)
]

unfoldable pub registry_record_success : Route → Registry → Registry
unfolding get_or_create record_success store
registry_record_success route r = elim (get_or_create route r) [
  | err e ↦ r
  | ok (r', none) ↦ r'
  | ok (r', some cb) ↦
      let (cb', previous) = record_success cb in
      store route.name cb' (if is_half_open previous then breaker_closed route.name ∷ [] else []) r'
]

unfoldable pub registry_record_failure : ℕ → Route → Registry → Registry
unfolding get_or_create record_failure store
registry_record_failure now route r = elim (get_or_create route r) [
  | err e ↦ r
  | ok (r', none) ↦ r'
  | ok (r', some cb) ↦
      let (cb', _, transitioned) = record_failure now cb in
      let happened =
        if transitioned
        then breaker_opened route.name cb.cfg.threshold cb.cfg.timeout ∷ []
        else [] in
      store route.name cb' happened r'
]
