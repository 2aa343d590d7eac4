-- ===== src/Breaker/Invariant.antt =====
-- internal/domain/resilience/circuit_breaker.go: what holds of a breaker after any calls, and when
-- consecutive failures open it.
use vibewarden.Prelude.{
  ℕ, ◌+◌, ◌≡◌, ap, refl, ◌≢◌, ◌↔◌, List, [], ◌∷◌, map, ok, arith, length, Bool, Bool-cases, inl,
  inr,
}
use vibewarden.Prelude.Int.{pos, leb_ℤ, ◌<ℤ◌, ◌≤ℤ◌}
use vibewarden.Breaker.{
  closed, opened, Config, CircuitBreaker, validate, new_circuit_breaker, Op, apply, run, failure,
  success,
}

-- The counter stays below the threshold while the breaker is closed, and stands at it otherwise.
pub record IsSound (cb : CircuitBreaker) : Type 0 where
  pub threshold_pos : pos 0 <ℤ cb.cfg.threshold
  pub timeout_pos : pos 0 <ℤ cb.cfg.timeout
  pub below : cb.state ≡ closed → pos cb.failures <ℤ cb.cfg.threshold
  pub at : cb.state ≢ closed → pos cb.failures ≡ cb.cfg.threshold

new-IsSound : (cfg : Config) {cb : CircuitBreaker} → new_circuit_breaker cfg ≡ ok cb → IsSound cb
unfolding new_circuit_breaker validate
new-IsSound cfg h = ground arith

apply-IsSound : (op : Op) (cb : CircuitBreaker) → IsSound cb → IsSound (apply op cb)
unfolding apply
apply-IsSound op cb h = ground arith

run-IsSound_from : (ops : List Op) (cb : CircuitBreaker) → IsSound cb → IsSound (run ops cb)
unfolding run
run-IsSound_from [] cb h = h
run-IsSound_from (op ∷ ops) cb h = run-IsSound_from ops (apply op cb) (apply-IsSound op cb h)

-- Whatever calls are made of a new breaker, its failure counter stays below the threshold while it
-- is closed, and equals the threshold while it is open or half-open.
run-IsSound :
    (cfg : Config) (ops : List Op) {cb : CircuitBreaker}
    → new_circuit_breaker cfg ≡ ok cb
    → IsSound (run ops cb)
run-IsSound cfg ops {cb} h = run-IsSound_from ops cb (new-IsSound cfg h)

failures_stay_opened :
    (ts : List ℕ) (cb : CircuitBreaker)
    → cb.state ≡ opened
    → (run (map failure ts) cb).state ≡ opened
unfolding run apply
failures_stay_opened [] cb h = h
failures_stay_opened (t ∷ ts) cb h = failures_stay_opened ts (apply (failure t) cb) (ground arith)

failure_below :
    (t : ℕ) (cb : CircuitBreaker)
    → cb.state ≡ closed
    → pos (cb.failures + 1) <ℤ cb.cfg.threshold
    → apply (failure t) cb ≡ record cb { failures = cb.failures + 1 }
unfolding apply
failure_below t cb s h = ground arith

failure_trips :
    (t : ℕ) (cb : CircuitBreaker)
    → cb.state ≡ closed
    → cb.cfg.threshold ≤ℤ pos (cb.failures + 1)
    → (apply (failure t) cb).state ≡ opened
unfolding apply
failure_trips t cb s h = ground arith

failures-closed_iff :
    (ts : List ℕ) (cb : CircuitBreaker)
    → cb.state ≡ closed
    → pos cb.failures <ℤ cb.cfg.threshold
    → ((run (map failure ts) cb).state ≡ closed)
      ↔ (pos (cb.failures + length ts) <ℤ cb.cfg.threshold)
unfolding run
failures-closed_iff [] cb s h = (λ _. omega arith, λ _. s)
failures-closed_iff (t ∷ ts) cb s h = elim (Bool-cases trips) [
  | inl e ↦
      ground (
        arith,
        failures_stay_opened ts (apply (failure t) cb) (failure_trips t cb s (ground arith)),
      )
  | inr e ↦
      rw (ap (run (map failure ts)) (failure_below t cb s (ground arith)), run)
        (let ih =
            failures-closed_iff ts (record cb { failures = cb.failures + 1 }) s (ground arith) in
          (λ c. omega (arith, ih.0 c), λ l. ih.1 (omega arith)))
]
  where
    trips : Bool
    trips = leb_ℤ cb.cfg.threshold (pos (cb.failures + 1))

-- After a success, a breaker is still closed after a row of failures exactly if the row is shorter
-- than the threshold.
pub success_failures-closed_iff :
    (ts : List ℕ) (cb : CircuitBreaker)
    → IsSound cb
    → ((run (success ∷ map failure ts) cb).state ≡ closed) ↔ (pos (length ts) <ℤ cb.cfg.threshold)
unfolding run apply
success_failures-closed_iff ts cb h =
    let ih =
      failures-closed_iff ts (record cb { failures = 0; state = closed }) refl h.threshold_pos in
    (λ c. omega (arith, ih.0 c), λ l. ih.1 (omega arith))
