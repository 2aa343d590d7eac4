-- ===== src/Breaker/Adapter.antt =====
-- internal/adapters/resilience/circuit_breaker.go: the breaker behind a mutex, with the structured
-- events, the audit events and the gauge that its calls produce. Each call holds the mutex from
-- start to end, so calls follow one another; a logger that fails changes nothing else. The two
-- lists hold what is handed to the loggers, oldest first; the audit events carry the same data.
use vibewarden.Prelude.{ℕ, List, [], ◌∷◌, ◌++◌, Bool, true, false, ◌&&◌, Option, none, some}
use vibewarden.Prelude.{Result, ok, ◌>>=◌, if◌then◌else◌}
use vibewarden.Prelude.Int.{ℤ}
use vibewarden.Breaker.{State, opened, half_open, Config, ConfigError, CircuitBreaker}
use vibewarden.Breaker.{new_circuit_breaker, is_open, record_success, record_failure}

pub data Event : Type 0 where
  opened_event : (threshold timeout : ℤ) → Event
  half_open_event : (timeout : ℤ) → Event
  closed_event : Event

pub record InMemoryCircuitBreaker : Type 0 where
  pub cb : CircuitBreaker
  pub emitted : List Event
  pub audited : List Event
  pub gauge : Option State

unfoldable new_in_memory_circuit_breaker : Config → Result ConfigError InMemoryCircuitBreaker
unfolding new_circuit_breaker
new_in_memory_circuit_breaker cfg = new_circuit_breaker cfg >>= λ cb.
    ok (record { cb = cb; emitted = []; audited = []; gauge = none })

-- emitEvent, emitAuditEvent and recordStateMetric, which the code calls in a row.
announce : Event → InMemoryCircuitBreaker → InMemoryCircuitBreaker
announce e a = record a {
  emitted = a.emitted ++ e ∷ [];
  audited = a.audited ++ e ∷ [];
  gauge = some a.cb.state;
}

abbrev pub is_opened : State → Bool
is_opened opened = true
is_opened _ = false

abbrev pub is_half_open : State → Bool
is_half_open half_open = true
is_half_open _ = false

unfoldable pub check_open : ℕ → InMemoryCircuitBreaker → InMemoryCircuitBreaker × Bool
unfolding is_open announce
check_open now a =
    let (cb, rejected) = is_open now a.cb in
    let a' = record a { cb = cb } in
    if is_opened a.cb.state && is_half_open cb.state
    then (announce (half_open_event cb.cfg.timeout) a', rejected)
    else (a', rejected)

unfoldable pub on_success : InMemoryCircuitBreaker → InMemoryCircuitBreaker
unfolding record_success announce
on_success a =
    let (cb, previous) = record_success a.cb in
    let a' = record a { cb = cb } in if is_half_open previous then announce closed_event a' else a'

unfoldable pub on_failure : ℕ → InMemoryCircuitBreaker → InMemoryCircuitBreaker
unfolding record_failure announce
on_failure now a =
    let (cb, _, transitioned) = record_failure now a.cb in
    let a' = record a { cb = cb } in
    if transitioned && is_opened cb.state
    then announce (opened_event cb.cfg.threshold cb.cfg.timeout) a'
    else a'
