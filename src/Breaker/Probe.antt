-- ===== src/Breaker/Probe.antt =====
-- internal/domain/resilience/circuit_breaker.go, IsOpen: how many requests an open breaker lets
-- through before an outcome is recorded.
use vibewarden.Prelude.{
  ℕ, suc, ◌≡◌, refl, List, [], ◌∷◌, Bool, true, false, arith, ltb, if◌then◌else◌, ◌||◌,
}
use vibewarden.Prelude.Int.{add_duration}
use vibewarden.Breaker.{opened, half_open, CircuitBreaker, is_open}

abbrev admit : Bool → ℕ → ℕ
admit true n = n
admit false n = suc n

-- Requests that ask at these times, with no outcome recorded in between: how many pass.
pub admitted : List ℕ → CircuitBreaker → ℕ
admitted [] cb = 0
admitted (t ∷ ts) cb = admit (is_open t cb).1 (admitted ts (is_open t cb).0)

unfoldable pub any_after : ℕ → List ℕ → Bool
any_after deadline [] = false
any_after deadline (t ∷ ts) = ltb deadline t || any_after deadline ts

-- A half-open breaker lets no request through, at any times.
half_open-admitted : (ts : List ℕ) (cb : CircuitBreaker) → cb.state ≡ half_open → admitted ts cb ≡ 0
unfolding admitted is_open
half_open-admitted [] cb h = refl
half_open-admitted (t ∷ ts) cb h = ground (arith, half_open-admitted ts cb)

-- An open breaker lets one request through if some request comes after its timeout, and none
-- otherwise, whatever the number and the order of the requests.
pub opened-admitted :
    (ts : List ℕ) (cb : CircuitBreaker)
    → cb.state ≡ opened
    → admitted ts cb ≡ (if any_after (add_duration cb.opened_at cb.cfg.timeout) ts then 1 else 0)
unfolding admitted any_after is_open
opened-admitted [] cb h = refl
opened-admitted (t ∷ ts) cb h =
    ground (arith, opened-admitted ts cb, half_open-admitted ts (record cb { state = half_open }))
