-- ===== src/Breaker/Tests.antt =====
-- Runs of the circuit breaker, and its theorems at concrete breakers.
use vibewarden.Prelude.{◌≡◌, refl, ◌↔◌, [], ◌∷◌, map, true, some, arith, err}
use vibewarden.Prelude.Int.{pos, negsuc, ◌<ℤ◌}
use vibewarden.Breaker.{
  closed, opened, Config, CircuitBreaker, bad_threshold, new_circuit_breaker, is_open, check,
  success, failure, apply, run,
}
use vibewarden.Breaker.Invariant.{success_failures-closed_iff}
use vibewarden.Breaker.Probe.{admitted, any_after, opened-admitted}
use vibewarden.Breaker.Adapter.{InMemoryCircuitBreaker, opened_event}
use vibewarden.Breaker.Events.{call, announcement, call_announces}

abbrev twice : Config
twice = record { threshold = pos 2; timeout = pos 30 }

abbrev fresh : CircuitBreaker
fresh = record { cfg = twice; state = closed; failures = 0; opened_at = 0 }

abbrev tripped : CircuitBreaker
tripped = record { cfg = twice; state = opened; failures = 2; opened_at = 105 }

abbrev behind_mutex : CircuitBreaker → InMemoryCircuitBreaker
behind_mutex cb = record { cb = cb; emitted = []; audited = []; gauge = some opened }

refuses_no_threshold :
    new_circuit_breaker (record { threshold = negsuc 0; timeout = pos 30 }) ≡ err bad_threshold
unfolding new_circuit_breaker
refuses_no_threshold = refl

trips : run (failure 100 ∷ failure 105 ∷ []) fresh ≡ tripped
unfolding run apply
trips = refl

recovers : run (check 136 ∷ success ∷ []) tripped ≡ record fresh { opened_at = 105 }
unfolding run apply
recovers = refl

waits : is_open 135 tripped ≡ (tripped, true)
unfolding is_open
waits = refl

success_failures-closed_iff_example :
    ((run (success ∷ map failure (107 ∷ [])) tripped).state ≡ closed) ↔ (pos 1 <ℤ pos 2)
success_failures-closed_iff_example = success_failures-closed_iff (107 ∷ []) tripped (record {
  threshold_pos = omega arith;
  timeout_pos = omega arith;
  below = λ e. cc;
  at = λ _. refl;
})

opened-admitted_example : admitted (110 ∷ 140 ∷ 150 ∷ []) tripped ≡ 1
unfolding any_after
opened-admitted_example = opened-admitted (110 ∷ 140 ∷ 150 ∷ []) tripped refl

call_announces_example :
    ((call (failure 105) (behind_mutex (record fresh { failures = 1 }))).cb ≡ tripped)
    × ((call (failure 105) (behind_mutex (record fresh { failures = 1 }))).emitted
        ≡ opened_event (pos 2) (pos 30) ∷ [])
    × ((call (failure 105) (behind_mutex (record fresh { failures = 1 }))).audited
        ≡ opened_event (pos 2) (pos 30) ∷ [])
unfolding apply call announcement
call_announces_example =
    call_announces (failure 105) (behind_mutex (record fresh { failures = 1 })) (λ e. cc)
