-- ===== src/AuthGuard/Lockout.antt =====
-- internal/domain/authguard/lockout.go: when a streak of failures arms a lockout, how long it lasts,
-- and that an idle entry can be dropped.
use vibewarden.Prelude.{
  ℕ, suc, ◌+◌, ◌<◌, ◌≤◌, ◌≡◌, refl, ◌≢◌, ◌-◌, List, [], ◌∷◌, All, arith, length, if◌then◌else◌,
  Bool, true, false, none,
}
use vibewarden.Prelude.Int.{pos, add_duration, ◌<ℤ◌, ◌≤ℤ◌, leb_ℤ}
use vibewarden.AuthGuard.{Policy, validate, Attempts, no_attempts, locked_out, record_failure, idle}

-- What a validated policy gives, and what holds of the attempts of a key between two calls: a key
-- with no lockout armed is below the threshold, and one with a lockout has reached it.
pub record IsUsable (p : Policy) : Type 0 where
  pub threshold_pos : pos 0 <ℤ p.threshold
  pub window_pos : pos 0 <ℤ p.window
  pub cooldown_pos : pos 0 <ℤ p.cooldown

validate-IsUsable : (p : Policy) → validate p ≡ none → IsUsable p
unfolding validate
validate-IsUsable p h = ground arith

pub record IsSound (p : Policy) (a : Attempts) : Type 0 where
  pub below : a.locked_until ≡ 0 → pos a.failures <ℤ p.threshold
  pub reached : a.locked_until ≢ 0 → p.threshold ≤ℤ pos a.failures

no_attempts-IsSound : (p : Policy) → IsUsable p → IsSound p no_attempts
no_attempts-IsSound p u = ground arith

locked_out-IsSound :
    (now : ℕ) (p : Policy) (a : Attempts)
    → IsUsable p
    → IsSound p a
    → IsSound p (locked_out now a).0
unfolding locked_out
locked_out-IsSound now p a u s = ground arith

pub record_failure-IsSound :
    (now : ℕ) (p : Policy) (a : Attempts)
    → IsUsable p
    → IsSound p a
    → IsSound p (record_failure now p a).0
unfolding record_failure
record_failure-IsSound now p a u s = ground arith

-- The key is locked out at `now`.
abbrev IsLocked : ℕ → Attempts → Type 0
IsLocked now a = now < a.locked_until

-- Failures of one key at the given times: the state that they leave, and how many of them armed a
-- lockout.
abbrev tally : Bool → ℕ → ℕ
tally true n = suc n
tally false n = n

unfoldable pub fail_at : Policy → List ℕ → Attempts → Attempts × ℕ
fail_at p [] a = (a, 0)
fail_at p (t ∷ ts) a =
    let (a', tripped) = record_failure t p a in
    let (a'', n) = fail_at p ts a' in (a'', tally tripped n)

locked_failure :
    (t : ℕ) (p : Policy) (a : Attempts) → IsLocked t a → record_failure t p a ≡ (a, false)
unfolding record_failure
locked_failure t p a h = ground arith

-- Failures during a lockout change nothing and arm no further lockout, whatever their number and
-- order.
fail_at-locked :
    (p : Policy) (ts : List ℕ) (a : Attempts) → All (λ t. IsLocked t a) ts → fail_at p ts a ≡ (a, 0)
unfolding fail_at
fail_at-locked p [] a h = refl
fail_at-locked p (t ∷ ts) a (h, hs) =
    ground (arith, locked_failure t p a h, fail_at-locked p ts a hs)

-- A failure that arms a lockout locks the key out for the whole cooldown and no longer, and reports
-- the time that is left.
pub tripped-locked_out :
    (t now : ℕ) (p : Policy) (a : Attempts)
    → IsUsable p
    → (record_failure t p a).1 ≡ true
    → let a' = (record_failure t p a).0 in
      (now < add_duration t p.cooldown
        → locked_out now a' ≡ (a', true, add_duration t p.cooldown - now))
      × (add_duration t p.cooldown ≤ now → locked_out now a' ≡ (no_attempts, false, 0))
unfolding record_failure locked_out
tripped-locked_out t now p a u h = (λ lt. ground arith, λ le. ground arith)

-- The times lie in the window and in the cooldown that begin at `start`.
abbrev IsWithin : Policy → ℕ → ℕ → Type 0
IsWithin p start t =
    (start ≤ t) × (t < add_duration start p.cooldown) × (t ≤ add_duration start p.window)

abbrev streak : ℕ → ℕ → Attempts
streak k start = record { failures = k; window_start = start; locked_until = 0 }

All-IsLocked :
    (p : Policy) (start k t : ℕ) (ts : List ℕ)
    → IsUsable p
    → start ≤ t
    → All (IsWithin p start) ts
    → All
        (λ t'. IsLocked t' (record (streak k start) { locked_until = add_duration t p.cooldown }))
        ts
All-IsLocked p start k t [] u le h = tt
All-IsLocked p start k t (t' ∷ ts) u le (h, hs) =
    (omega (arith, u.cooldown_pos), All-IsLocked p start k t ts u le hs)

streak-failure :
    (p : Policy) (start k t : ℕ)
    → IsUsable p
    → 0 < k
    → IsWithin p start t
    → record_failure t p (streak k start) ≡ (
        if leb_ℤ p.threshold (pos (k + 1))
        then (record (streak (k + 1) start) { locked_until = add_duration t p.cooldown }, true)
        else (streak (k + 1) start, false))
unfolding record_failure
streak-failure p start k t u k_pos h = ground arith

streak-fail_at :
    (p : Policy) (start k : ℕ) (ts : List ℕ)
    → IsUsable p
    → 0 < k
    → pos k <ℤ p.threshold
    → All (IsWithin p start) ts
    → (fail_at p ts (streak k start)).1 ≡ (if leb_ℤ p.threshold (pos (k + length ts)) then 1 else 0)
unfolding fail_at
streak-fail_at p start k [] u k_pos below h = ground arith
streak-fail_at p start k (t ∷ ts) u k_pos below (h, hs) = ground (
  arith,
  streak-failure p start k t u k_pos h,
  fail_at-locked p ts (record (streak (k + 1) start) { locked_until = add_duration t p.cooldown })
      (All-IsLocked p start (k + 1) t ts u h.0 hs),
  streak-fail_at p start (k + 1) ts u (omega arith),
)

first-failure :
    (p : Policy) (start : ℕ)
    → IsUsable p
    → record_failure start p no_attempts ≡ (
        if leb_ℤ p.threshold (pos 1)
        then (record (streak 1 start) { locked_until = add_duration start p.cooldown }, true)
        else (streak 1 start, false))
unfolding record_failure
first-failure p start u = ground arith

-- A first failure at `start` and further ones within the window and the cooldown from it arm one
-- lockout if they are together as many as the threshold or more, and none otherwise.
pub streak_trips :
    (p : Policy) (start : ℕ) (ts : List ℕ)
    → IsUsable p
    → All (IsWithin p start) ts
    → (fail_at p (start ∷ ts) no_attempts).1
      ≡ (if leb_ℤ p.threshold (pos (1 + length ts)) then 1 else 0)
unfolding fail_at
streak_trips p start ts u h = ground (
  arith,
  first-failure p start u,
  fail_at-locked p ts (record (streak 1 start) { locked_until = add_duration start p.cooldown })
      (All-IsLocked p start 1 start ts u (omega arith) h),
  streak-fail_at p start 1 ts u (omega arith),
)

-- Dropping an entry that is idle is not seen by the next failure of its key: the failure has the
-- same outcome, and leaves the same state, as on a fresh entry.
idle-record_failure :
    (now later : ℕ) (p : Policy) (a : Attempts)
    → idle now p a ≡ true
    → now ≤ later
    → record_failure later p a ≡ record_failure later p no_attempts
unfolding idle record_failure
idle-record_failure now later p a h le = ground arith
