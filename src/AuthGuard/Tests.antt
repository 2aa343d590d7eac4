-- ===== src/AuthGuard/Tests.antt =====
-- Runs of the lockout guard, and its theorems at concrete guards.
use vibewarden.Prelude.{◌-◌, ◌<◌, ◌≤◌, ◌≡◌, refl, arith, [], ◌∷◌, true, false, err}
use vibewarden.Prelude.Int.{pos, negsuc}
use vibewarden.Prelude.Dict.{lookup, insert}
use vibewarden.AuthGuard.{Policy, bad_window, Attempts, no_attempts, locked_out, record_failure}
use vibewarden.AuthGuard.Lockout.{IsUsable, fail_at, streak_trips}
use vibewarden.AuthGuard.Memory.{
  Entry, MemoryGuard, policy_error, new_memory_guard, sweep_idle, oldest_from, make_room, status,
  record_key_failure, failure_call, perform, perform_all,
}
use vibewarden.AuthGuard.Bounds.{IsBounded, perform_all-IsBounded}
use vibewarden.AuthGuard.Isolation.{tripped-status}

abbrev strict : Policy
strict = record { threshold = pos 2; window = pos 60; cooldown = pos 30 }

strict-IsUsable : IsUsable strict
strict-IsUsable = omega arith

abbrev locked_at_130 : Attempts
locked_at_130 = record { failures = 2; window_start = 90; locked_until = 130 }

second_failure_trips : fail_at strict (90 ∷ 100 ∷ []) no_attempts ≡ (locked_at_130, 1)
unfolding fail_at record_failure
second_failure_trips = refl

late_failure_restarts :
    (fail_at strict (90 ∷ 151 ∷ []) no_attempts).0
    ≡ record { failures = 1; window_start = 151; locked_until = 0 }
unfolding fail_at record_failure
late_failure_restarts = refl

refuses_no_window :
    new_memory_guard (record strict { window = negsuc 4 }) (pos 1) ≡ err (policy_error bad_window)
unfolding new_memory_guard
refuses_no_window = refl

abbrev guard_of_two : MemoryGuard
guard_of_two = record { policy = strict; max_entries = pos 2; entries = [] }

abbrev locked_entry : Entry
locked_entry = record { attempts = locked_at_130; last_seen = 100 }

abbrev one_failure : Entry
one_failure = record {
  attempts = record { failures = 1; window_start = 105; locked_until = 0 };
  last_seen = 105;
}

abbrev full_guard : MemoryGuard
full_guard = record guard_of_two {
  entries = ("10.0.0.1", locked_entry) ∷ ("10.0.0.2", one_failure) ∷ [];
}

fills_up :
    perform_all
      (failure_call 90 "10.0.0.1" ∷ failure_call 100 "10.0.0.1" ∷ failure_call 105 "10.0.0.2" ∷ [])
      guard_of_two
    ≡ full_guard
unfolding perform_all perform lookup insert record_failure locked_out sweep_idle oldest_from
    make_room
fills_up = refl

abbrev one_key : MemoryGuard
one_key = record guard_of_two {
  entries =
      (
        "10.0.0.1",
        record {
          attempts = record { failures = 1; window_start = 90; locked_until = 0 };
          last_seen = 90;
        },
      )
      ∷ [];
}

streak_trips_example : (fail_at strict (90 ∷ 100 ∷ 95 ∷ []) no_attempts).1 ≡ 1
streak_trips_example = streak_trips strict 90 (100 ∷ 95 ∷ []) strict-IsUsable (omega arith)

perform_all-IsBounded_example :
    IsBounded (perform_all (failure_call 90 "10.0.0.1" ∷ []) guard_of_two)
unfolding new_memory_guard
perform_all-IsBounded_example =
    perform_all-IsBounded strict (pos 2) (failure_call 90 "10.0.0.1" ∷ []) refl

tripped-status_example :
    let st = (status 110 "10.0.0.1" (record_key_failure 100 "10.0.0.1" one_key).0).1 in
    (110 < 130 → (st.locked_out ≡ true) × (st.retry_after ≡ 130 - 110))
    × (130 ≤ 110 → (st.locked_out ≡ false) × (st.retry_after ≡ 0))
unfolding record_key_failure lookup record_failure
tripped-status_example = tripped-status 100 110 "10.0.0.1" one_key strict-IsUsable refl
