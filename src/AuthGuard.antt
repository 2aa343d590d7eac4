-- ===== src/AuthGuard.antt =====
-- internal/domain/authguard/lockout.go: throttling of repeated authentication failures of one client
-- key. Durations are integers of nanoseconds, instants are numbers of nanoseconds.
pub mod Lockout
pub mod Memory
pub mod Bounds
pub mod Isolation
pub mod Eviction
mod Tests
use vibewarden.Prelude.{
  ℕ, ◌+◌, ◌-◌, ◌*◌, ◌==◌, ltb, leb, Bool, true, false, not, ◌&&◌, ◌||◌, Option, none, some,
  if◌then◌else◌,
}
use vibewarden.Prelude.Int.{ℤ, pos, sub_ℕ, leb_ℤ, ltb_ℤ, add_duration, is_zero_time}

pub record Policy : Type 0 where
  pub threshold : ℤ
  pub window : ℤ
  pub cooldown : ℤ

unfoldable pub default_policy : Policy
default_policy = record {
  threshold = pos 10;
  window = pos 60_000_000_000;
  cooldown = pos 60_000_000_000;
}

pub data PolicyError : Type 0 where
  bad_threshold bad_window bad_cooldown : PolicyError

unfoldable pub validate : Policy → Option PolicyError
validate p =
    if leb_ℤ p.threshold (pos 0)
    then some bad_threshold
    else if leb_ℤ p.window (pos 0)
    then some bad_window
    else if leb_ℤ p.cooldown (pos 0)
    then some bad_cooldown
    else none

pub record Attempts : Type 0 where
  pub failures : ℕ
  pub window_start : ℕ
  pub locked_until : ℕ

-- The zero value, which is what `reset` leaves too.
abbrev pub no_attempts : Attempts
no_attempts = record { failures = 0; window_start = 0; locked_until = 0 }

unfoldable reset : Attempts → Attempts
reset a = no_attempts

-- The new state, whether the key is locked out, and how long it still is. The last difference is
-- taken only where `now` lies before the end of the lockout.
unfoldable pub locked_out : ℕ → Attempts → Attempts × Bool × ℕ
unfolding reset
locked_out now a =
    if is_zero_time a.locked_until
    then (a, false, 0)
    else if not (ltb now a.locked_until)
    then (reset a, false, 0)
    else (a, true, a.locked_until - now)

count_failure : ℕ → Policy → Attempts → Attempts
count_failure now p a =
    if a.failures == 0 || ltb_ℤ p.window (sub_ℕ now a.window_start)
    then record a { failures = 1; window_start = now }
    else record a { failures = a.failures + 1 }

arm : ℕ → Policy → Attempts → Attempts × Bool
arm now p a =
    if leb_ℤ p.threshold (pos a.failures)
    then (record a { locked_until = add_duration now p.cooldown }, true)
    else (a, false)

-- The new state, and whether this failure arms the lockout.
unfoldable pub record_failure : ℕ → Policy → Attempts → Attempts × Bool
unfolding locked_out count_failure arm
record_failure now p a =
    let (a', locked, _) = locked_out now a in
    if locked then (a', false) else arm now p (count_failure now p a')

unfoldable pub idle : ℕ → Policy → Attempts → Bool
idle now p a =
    if not (is_zero_time a.locked_until) && ltb now a.locked_until
    then false
    else if a.failures == 0
    then true
    else ltb_ℤ p.window (sub_ℕ now a.window_start)
