-- ===== src/Admin/Locked.antt =====
-- What calls of the admin gate leave of the lockout of a client, its own and those of others.
use vibewarden.Prelude.{
  either_branch, ℕ, ◌-◌, ◌<◌, ◌≡◌, ◌≢◌, ◌⊎◌, ◌∙◌, inl, inr, refl, arith, true, false, not, String,
  str_eq, eq_iff, List, [], ◌∷◌, Option, none, some, Bool-cases, Option-cases, if◌then◌else◌,
  length,
}
use vibewarden.Prelude.Int.{pos, ◌<ℤ◌}
use vibewarden.Prelude.Text.{text_eq}
use vibewarden.Prelude.Dict.{Dict, lookup, insert, lookup-insert_self}
use vibewarden.AuthGuard.{Attempts, locked_out}
use vibewarden.AuthGuard.Memory.{
  Entry, MemoryGuard, LockoutStatus, status, record_key_failure, record_key_success, status_call,
  failure_call, success_call, perform,
}
use vibewarden.AuthGuard.Isolation.{HasRoom, perform-isolated}
use vibewarden.Admin.Auth.{
  Config, Request, AuditEvent, Outcome, pass, not_found, internal_error, admin_auth, with_lockout,
  check_token, check_guarded, is_protected, is_ui, keep_guard, refuse, auth_success,
  extract_admin_token,
}

-- A request that the token decides over.
pub record IsGated (cfg : Config) (r : Request) : Type 0 where
  pub protected : is_protected cfg r.path ≡ true
  pub on : cfg.enabled ≡ true
  pub not_ui : is_ui r.path ≡ false
  pub token_set : cfg.token ≢ []

-- The guard has an entry of the client that is locked out until `end`.
abbrev pub IsLockedUntil : ℕ → String → MemoryGuard → Type 0
IsLockedUntil end ip g =
    (a : Attempts) × (seen : ℕ) × (lookup ip g.entries
      ≡ some (record { attempts = a; last_seen = seen }))
    × ((now : ℕ) → now < end → locked_out now a ≡ (a, true, end - now))

abbrev pub IsLockedIn : ℕ → String → Option MemoryGuard → Type 0
IsLockedIn end ip none = ⊥
IsLockedIn end ip (some g) = IsLockedUntil end ip g

-- A failure of the client needs no other entry to go.
abbrev pub HasPlace : String → Option MemoryGuard → Type 0
HasPlace ip none = Unit
HasPlace ip (some g) = (lookup ip g.entries ≢ none) ⊎ (pos (length g.entries) <ℤ g.max_entries)

pub status-locked :
    (end now : ℕ) (ip : String) (g : MemoryGuard)
    → ip ≢ ""
    → now < end
    → IsLockedUntil end ip g
    → ((status now ip g).1.locked_out ≡ true)
      × ((status now ip g).1.retry_after ≡ end - now)
      × IsLockedUntil end ip (status now ip g).0
unfolding status
status-locked end now ip g ne before (a, seen, found, locks) =
    let named : str_eq ip "" ≡ false = ground (arith, eq_iff ip "") in
    rw (named, found, status, locks now before)
      (refl, refl, (a, now, lookup-insert_self ip _ g.entries, locks))

moved :
    (end : ℕ) (ip : String) (g g' : MemoryGuard)
    → lookup ip g'.entries ≡ lookup ip g.entries
    → IsLockedUntil end ip g
    → IsLockedUntil end ip g'
moved end ip g g' same (a, seen, found, locks) = (a, seen, same ∙ found, locks)

inserted : (key : String) (e : Entry) (m : Dict Entry) → lookup key (insert key e m) ≢ none
inserted key e m gone = ground (arith, lookup-insert_self key e m)

status-HasRoom :
    (now later : ℕ) (key : String) (g : MemoryGuard)
    → HasRoom (failure_call later key) g
    → HasRoom (failure_call later key) (status now key g).0
unfolding status
status-HasRoom now later key g room = elim (Bool-cases (str_eq key "")) [
  | inl x ↦ rw (x, status) room
  | inr x ↦ elim (Option-cases (lookup key g.entries)) [
    | inl no_entry ↦ rw (x, no_entry, status) room
    | inr (e, has) ↦ rw (x, has, status) (inl (inserted key _ g.entries))
  ]
]

abbrev Answer : Type 0
Answer = Option MemoryGuard × List AuditEvent × Outcome

module _ (client_ip_of : Request → String) (end : ℕ) (ip : String) where
  abbrev Keeps : Answer → Type 0
  Keeps answer = IsLockedIn end ip answer.0

  other-Keeps :
      (later : ℕ) (cfg : Config) (r : Request) (key : String) (at : MemoryGuard × LockoutStatus)
      → key ≢ ip
      → HasRoom (failure_call later key) at.0
      → IsLockedUntil end ip at.0
      → Keeps (check_guarded later cfg r key at)
  unfolding check_guarded perform refuse
  other-Keeps later cfg r key (g, st) ne room locked =
      either_branch Keeps st.locked_out _ _ locked (
        either_branch Keeps (not (text_eq (extract_admin_token r) cfg.token))
          (refuse key (record_key_failure later key g))
          (some (record_key_success key g), auth_success ∷ [], pass)
          (moved end ip g (record_key_failure later key g).0
            (perform-isolated (failure_call later key) g ip ne room) locked)
          (moved end ip g (record_key_success key g)
            (perform-isolated (success_call key) g ip ne tt) locked))

  own-Keeps :
      (later : ℕ) (cfg : Config) (r : Request) (key : String) (at : MemoryGuard × LockoutStatus)
      → at.1.locked_out ≡ true
      → IsLockedUntil end ip at.0
      → Keeps (check_guarded later cfg r key at)
  unfolding check_guarded
  own-Keeps later cfg r key (g, st) locked kept = rw (locked, check_guarded) kept

  keep_guard-Keeps :
      (lockout : Option MemoryGuard) (answer : List AuditEvent × Outcome)
      → IsLockedIn end ip lockout
      → Keeps (keep_guard lockout answer)
  unfolding keep_guard
  keep_guard-Keeps lockout (events, outcome) h = h

  -- A call of the gate before the end of the lockout keeps it.
  with_lockout-Keeps :
      (now later : ℕ) (cfg : Config) (r : Request) (g : MemoryGuard)
      → ip ≢ ""
      → now < end
      → HasRoom (failure_call later (client_ip_of r)) g
      → IsLockedUntil end ip g
      → Keeps (with_lockout client_ip_of now later cfg r (some g))
  unfolding with_lockout perform
  with_lockout-Keeps now later cfg r g ne before room locked =
      let key = client_ip_of r in
      either_branch Keeps (str_eq key "") (keep_guard (some g) (check_token cfg r))
        (check_guarded later cfg r key (status now key g))
        (keep_guard-Keeps (some g) (check_token cfg r) locked)
        (elim (Bool-cases (str_eq key ip)) [
          | inl own ↦
              let same : ip ≡ key = ground (arith, eq_iff key ip) in
              let (out, left, kept) = status-locked end now ip g ne before locked in
              own-Keeps later cfg r key (status now key g) (rw (← same) out) (rw (← same) kept)
          | inr other ↦
              let differs : key ≢ ip = ground (arith, eq_iff key ip) in
              let looked = perform-isolated (status_call now key) g ip differs tt in
              other-Keeps later cfg r key (status now key g) differs
                (status-HasRoom now later key g room)
                (moved end ip g (status now key g).0 looked locked)
        ])

  pub admin_auth-Keeps :
      (now later : ℕ) (cfg : Config) (r : Request) (lockout : Option MemoryGuard)
      → ip ≢ ""
      → now < end
      → HasPlace (client_ip_of r) lockout
      → IsLockedIn end ip lockout
      → IsLockedIn end ip (admin_auth client_ip_of now later cfg r lockout).0
  unfolding admin_auth
  admin_auth-Keeps now later cfg r (some g) ne before room locked =
      let kept = with_lockout-Keeps now later cfg r g ne before room locked in
      let asked = with_lockout client_ip_of now later cfg r (some g) in
      let unset : Answer = if text_eq cfg.token [] then (some g, [], internal_error) else asked in
      let on_ui : Answer = if is_ui r.path then (some g, [], pass) else unset in
      let off : Answer = if not cfg.enabled then (some g, [], not_found) else on_ui in
      either_branch Keeps (not (is_protected cfg r.path)) (some g, [], pass) off locked
        (either_branch Keeps (not cfg.enabled) (some g, [], not_found) on_ui locked
          (either_branch Keeps (is_ui r.path) (some g, [], pass) unset locked
            (either_branch Keeps (text_eq cfg.token []) (some g, [], internal_error) asked locked
              kept)))
  admin_auth-Keeps now later cfg r none ne before room locked = absurd locked
