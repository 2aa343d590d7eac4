-- ===== src/Breaker.antt =====
-- internal/domain/resilience/circuit_breaker.go: the three-state circuit breaker.
pub mod Invariant
pub mod Probe
pub mod Adapter
pub mod Events
mod Tests
use vibewarden.Prelude.{
  ℕ, ◌+◌, List, [], ◌∷◌, ltb, Bool, true, false, Option, none, some, Result, ok, err, if◌then◌else◌,
}
use vibewarden.Prelude.Int.{ℤ, pos, leb_ℤ, add_duration}

-- `opened` is StateOpen.
pub data State : Type 0 where
  closed opened half_open : State

pub record Config : Type 0 where
  pub threshold : ℤ
  pub timeout : ℤ

pub data ConfigError : Type 0 where
  bad_threshold bad_timeout : ConfigError

unfoldable pub validate : Config → Option ConfigError
validate c =
    if leb_ℤ c.threshold (pos 0)
    then some bad_threshold
    else if leb_ℤ c.timeout (pos 0)
    then some bad_timeout
    else none

pub record CircuitBreaker : Type 0 where
  pub cfg : Config
  pub state : State
  pub failures : ℕ
  pub opened_at : ℕ

unfoldable pub new_circuit_breaker : Config → Result ConfigError CircuitBreaker
unfolding validate
new_circuit_breaker cfg = elim (validate cfg) [
  | some e ↦ err e
  | none ↦ ok (record { cfg = cfg; state = closed; failures = 0; opened_at = 0 })
]

is_open_in : State → ℕ → CircuitBreaker → CircuitBreaker × Bool
is_open_in closed now cb = (cb, false)
is_open_in half_open now cb = (cb, true)
is_open_in opened now cb =
    if ltb (add_duration cb.opened_at cb.cfg.timeout) now
    then (record cb { state = half_open }, false)
    else (cb, true)

-- The new state of the breaker, and whether the request is to be rejected.
unfoldable pub is_open : ℕ → CircuitBreaker → CircuitBreaker × Bool
unfolding is_open_in
is_open now cb = is_open_in cb.state now cb

-- The new state of the breaker, and the previous state.
unfoldable pub record_success : CircuitBreaker → CircuitBreaker × State
record_success cb = (record cb { failures = 0; state = closed }, cb.state)

record_failure_in : State → ℕ → CircuitBreaker → CircuitBreaker × State × Bool
record_failure_in closed now cb =
    let cb' = record cb { failures = cb.failures + 1 } in
    if leb_ℤ cb'.cfg.threshold (pos cb'.failures)
    then (record cb' { state = opened; opened_at = now }, closed, true)
    else (cb', closed, false)
record_failure_in half_open now cb =
    (record cb { state = opened; opened_at = now }, half_open, true)
record_failure_in opened now cb = (cb, opened, false)

-- The new state of the breaker, the previous state, and whether there was a transition.
unfoldable pub record_failure : ℕ → CircuitBreaker → CircuitBreaker × State × Bool
unfolding record_failure_in
record_failure now cb = record_failure_in cb.state now cb

-- The calls that change a breaker, each with the time at which it is made.
pub data Op : Type 0 where
  check : ℕ → Op
  success : Op
  failure : ℕ → Op

unfoldable pub apply : Op → CircuitBreaker → CircuitBreaker
unfolding is_open record_success record_failure
apply (check now) cb = (is_open now cb).0
apply success cb = (record_success cb).0
apply (failure now) cb = (record_failure now cb).0

unfoldable pub run : List Op → CircuitBreaker → CircuitBreaker
run [] cb = cb
run (op ∷ ops) cb = run ops (apply op cb)
