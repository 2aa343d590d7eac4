-- ===== src/AuthGuard/Memory.antt =====
-- internal/adapters/authguard/memory_guard.go: the attempts of every client key behind one mutex,
-- with a bounded number of entries. A call holds the mutex throughout, so calls follow one another;
-- the clock's value is an argument. A pointer to a key's attempts is shared with nobody outside.
use vibewarden.Prelude.{
  ℕ, ltb, String, str_eq, List, [], ◌∷◌, length, Bool, false, not, ◌&&◌, ◌||◌, Option, none, some,
  Result, ok, err, if◌then◌else◌,
}
use vibewarden.Prelude.Dict.{Dict, lookup, insert, delete}
use vibewarden.Prelude.Int.{ℤ, pos, leb_ℤ, ltb_ℤ}
use vibewarden.AuthGuard.{
  Policy, PolicyError, validate, default_policy, Attempts, no_attempts, locked_out, record_failure,
  idle,
}

abbrev default_max_entries : ℤ
default_max_entries = pos 10_000

pub record Entry : Type 0 where
  pub attempts : Attempts
  pub last_seen : ℕ

pub record MemoryGuard : Type 0 where
  pub policy : Policy
  pub max_entries : ℤ
  pub entries : Dict Entry

pub data GuardError : Type 0 where
  policy_error : PolicyError → GuardError
  bad_max_entries : GuardError

unfoldable pub new_memory_guard : Policy → ℤ → Result GuardError MemoryGuard
unfolding validate
new_memory_guard policy max_entries = elim (validate policy) [
  | some e ↦ err (policy_error e)
  | none ↦
      if leb_ℤ max_entries (pos 0)
      then err bad_max_entries
      else ok (record { policy = policy; max_entries = max_entries; entries = [] })
]

unfoldable new_default_memory_guard : Result GuardError MemoryGuard
unfolding new_memory_guard default_policy
new_default_memory_guard = new_memory_guard default_policy default_max_entries

pub record LockoutStatus : Type 0 where
  pub locked_out : Bool
  pub tripped : Bool
  pub retry_after : ℕ
  pub failures : ℕ
  pub threshold : ℤ
  pub window : ℤ
  pub cooldown : ℤ

unfoldable pub status_of : Option Attempts → MemoryGuard → LockoutStatus
status_of a g = record {
  locked_out = false;
  tripped = false;
  retry_after = 0;
  failures = elim a [ none ↦ 0 | some at ↦ at.failures ];
  threshold = g.policy.threshold;
  window = g.policy.window;
  cooldown = g.policy.cooldown;
}

status_of_entry : Option Entry → ℕ → String → MemoryGuard → MemoryGuard × LockoutStatus
unfolding status_of
status_of_entry none now key g = (g, status_of none g)
status_of_entry (some e) now key g =
    let (a, locked, left) = locked_out now e.attempts in
    (
      record g { entries = insert key (record { attempts = a; last_seen = now }) g.entries },
      record (status_of (some a) g) { locked_out = locked; retry_after = left },
    )

unfoldable pub status : ℕ → String → MemoryGuard → MemoryGuard × LockoutStatus
unfolding status_of_entry
status now key g =
    if str_eq key ""
    then (g, status_of none g)
    else status_of_entry (lookup key g.entries) now key g

-- The first loop of makeRoomLocked.
unfoldable pub sweep_idle : ℕ → Policy → Dict Entry → Dict Entry
sweep_idle now p [] = []
sweep_idle now p ((k, e) ∷ m) =
    let rest = sweep_idle now p m in if idle now p e.attempts then rest else (k, e) ∷ rest

-- The second loop: the key that was seen least recently; "" means that none was met yet.
unfoldable pub oldest_from : String → ℕ → Dict Entry → String
oldest_from key seen [] = key
oldest_from key seen ((k, e) ∷ m) =
    let older = str_eq key "" || ltb e.last_seen seen in
    oldest_from (if older then k else key) (if older then e.last_seen else seen) m

unfoldable pub make_room : ℕ → ℤ → Policy → Dict Entry → Dict Entry
make_room now max_entries p m =
    if ltb_ℤ (pos (length m)) max_entries
    then m
    else let swept = sweep_idle now p m in
      if ltb_ℤ (pos (length swept)) max_entries
      then swept
      else let oldest = oldest_from "" 0 swept in
        if not (str_eq oldest "") then delete oldest swept else swept

-- The entries after making room for a key that is new, and the attempts of the key.
find_or_create : Option Entry → ℕ → MemoryGuard → Dict Entry × Attempts
find_or_create (some e) now g = (g.entries, e.attempts)
find_or_create none now g = (make_room now g.max_entries g.policy g.entries, no_attempts)

fail_key : ℕ → String → MemoryGuard → MemoryGuard × LockoutStatus
unfolding find_or_create status_of
fail_key now key g =
    let (m, a) = find_or_create (lookup key g.entries) now g in
    let (a', tripped) = record_failure now g.policy a in
    let (a'', locked, left) = locked_out now a' in
    (
      record g { entries = insert key (record { attempts = a''; last_seen = now }) m },
      record (status_of (some a'') g) {
        tripped = tripped;
        locked_out = locked && not tripped;
        retry_after = left;
      },
    )

unfoldable pub record_key_failure : ℕ → String → MemoryGuard → MemoryGuard × LockoutStatus
unfolding fail_key
record_key_failure now key g = if str_eq key "" then (g, status_of none g) else fail_key now key g

unfoldable pub record_key_success : String → MemoryGuard → MemoryGuard
record_key_success key g = if str_eq key "" then g else record g { entries = delete key g.entries }

-- The calls that change a guard.
pub data Call : Type 0 where
  status_call failure_call : ℕ → String → Call
  success_call : String → Call

unfoldable pub perform : Call → MemoryGuard → MemoryGuard
unfolding status record_key_failure record_key_success
perform (status_call now key) g = (status now key g).0
perform (failure_call now key) g = (record_key_failure now key g).0
perform (success_call key) g = record_key_success key g

unfoldable pub perform_all : List Call → MemoryGuard → MemoryGuard
perform_all [] g = g
perform_all (c ∷ cs) g = perform_all cs (perform c g)
