-- ===== src/Egress/Attempts/Backoff.antt =====
-- internal/adapters/egress/proxy.go, computeBackoff: the wait before a retry as an int64.
use vibewarden.Prelude.{ℕ, ◌-◌, ◌*◌, ◌^◌, ◌%◌, ◌<◌, ◌≡◌, ◌↔◌, refl, arith, ltb, if◌then◌else◌}
use vibewarden.Prelude.Int.{pos, negsuc}
use vibewarden.Egress.Route.{exponential}
use vibewarden.Egress.Retry.{min_shift, compute_backoff}

wrapped_iff :
    (x r : ℕ)
    → r ≡ x % 2 ^ 64
    → ((if ltb r (2 ^ 63) then pos r else negsuc (2 ^ 64 - r - 1)) ≡ pos x) ↔ (x < 2 ^ 63)
wrapped_iff x r h = ground arith

-- The doubled wait is the base times a power of two exactly if that product fits an int64; the
-- bound of 30 on the shift does not ensure it.
pub compute_backoff_iff :
    (base attempt : ℕ)
    → (compute_backoff exponential base attempt ≡ pos (base * 2 ^ min_shift (attempt - 1)))
      ↔ (base * 2 ^ min_shift (attempt - 1) < 2 ^ 63)
unfolding compute_backoff
compute_backoff_iff base attempt = wrapped_iff (base * 2 ^ min_shift (attempt - 1)) _ refl
