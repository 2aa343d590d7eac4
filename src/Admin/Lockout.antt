-- ===== src/Admin/Lockout.antt =====
-- The gate of the admin endpoints and the lockout guard behind it, together.
use mathlib.Core.Path.{subst}
use vibewarden.Prelude.{
  ℕ, ◌-◌, ◌<◌, ◌≡◌, ◌≢◌, ◌∙◌, inl, inr, refl, sym, ap, arith, true, false, String, str_eq, eq_iff,
  List, All, [], ◌∷◌, none, Option, some, Option-cases,
}
use vibewarden.Prelude.Int.{add_duration}
use vibewarden.Prelude.Text.{text_eq_iff}
use vibewarden.AuthGuard.{Policy, record_failure}
use vibewarden.AuthGuard.Lockout.{IsUsable, tripped-locked_out}
use vibewarden.Prelude.Dict.{lookup}
use vibewarden.AuthGuard.Memory.{MemoryGuard, LockoutStatus, status, record_key_failure}
use vibewarden.AuthGuard.Isolation.{tripped-entry}
use vibewarden.RateLimit.Middleware.{retry_after_seconds}
use vibewarden.Admin.Locked.{
  IsGated, IsLockedUntil, IsLockedIn, HasPlace, status-locked, admin_auth-Keeps,
}
use vibewarden.Admin.Auth.{
  Config, Request, auth_lockout, too_many_requests, admin_auth, with_lockout, check_token,
  check_guarded, keep_guard, refuse,
}

status-policy : (now : ℕ) (key : String) (g : MemoryGuard) → (status now key g).0.policy ≡ g.policy
unfolding status
status-policy now key g = elim (Option-cases (lookup key g.entries)) [
  | inl e ↦ ground arith
  | inr (x, e) ↦ ground arith
]

check_token-no_lockout :
    (cfg : Config) (r : Request) (client_ip : String) (st : LockoutStatus)
    → (check_token cfg r).0 ≢ auth_lockout client_ip st ∷ []
unfolding check_token
check_token-no_lockout cfg r client_ip st = ground arith

refuse_inv :
    (client_ip : String) (failed : MemoryGuard × LockoutStatus) (st : LockoutStatus)
    → (refuse client_ip failed).1 ≡ auth_lockout client_ip st ∷ []
    → (failed.1.tripped ≡ true) × ((refuse client_ip failed).0 ≡ some failed.0)
unfolding refuse
refuse_inv client_ip (g, after) st h = ground arith

guarded_inv :
    (later : ℕ) (cfg : Config) (r : Request) (client_ip : String) (at : MemoryGuard × LockoutStatus)
    (st : LockoutStatus)
    → (check_guarded later cfg r client_ip at).1 ≡ auth_lockout client_ip st ∷ []
    → let failed = record_key_failure later client_ip at.0 in
      (failed.1.tripped ≡ true) × ((check_guarded later cfg r client_ip at).0 ≡ some failed.0)
unfolding check_guarded
guarded_inv later cfg r client_ip (g, at) st h =
    ground (arith, refuse_inv client_ip (record_key_failure later client_ip g) st)

locked_guarded :
    (later : ℕ) (cfg : Config) (r : Request) (client_ip : String) (at : MemoryGuard × LockoutStatus)
    → at.1.locked_out ≡ true
    → (check_guarded later cfg r client_ip at).1 ≡ []
      × ((check_guarded later cfg r client_ip at).2
          ≡ too_many_requests (retry_after_seconds at.1.retry_after))
unfolding check_guarded
locked_guarded later cfg r client_ip (g, at) h = ground arith

trip-locks :
    (end later : ℕ) (ip : String) (g : MemoryGuard)
    → IsUsable g.policy
    → add_duration later g.policy.cooldown ≡ end
    → (record_key_failure later ip g).1.tripped ≡ true
    → IsLockedUntil end ip (record_key_failure later ip g).0
trip-locks end later ip g usable ends trips =
    let (a, named, tripped, found) = tripped-entry later ip g usable trips in
    (
      (record_failure later g.policy a).0,
      later,
      found,
      λ then before.
          (tripped-locked_out later then g.policy a usable tripped).0 (rw ends before)
          ∙ rw ends refl,
    )

str_eq_ne : (ip : String) → ip ≢ "" → str_eq ip "" ≡ false
str_eq_ne ip ne = ground (arith, eq_iff ip "")

-- A later request with the times of its check and of its failure.
abbrev pub Visit : Type 0
Visit = ℕ × ℕ × Request

module _ (client_ip_of : Request → String) where
  gated_admin_auth :
      (now later : ℕ) (cfg : Config) (r : Request) (lockout : Option MemoryGuard)
      → IsGated cfg r
      → admin_auth client_ip_of now later cfg r lockout
        ≡ with_lockout client_ip_of now later cfg r lockout
  unfolding admin_auth
  gated_admin_auth now later cfg r lockout h = ground (arith, text_eq_iff cfg.token [])

  arming_inv :
      (now later : ℕ) (cfg : Config) (r : Request) (g : MemoryGuard) (st : LockoutStatus)
      → (with_lockout client_ip_of now later cfg r (some g)).1
        ≡ auth_lockout (client_ip_of r) st ∷ []
      → let failed = record_key_failure later (client_ip_of r) (status now (client_ip_of r) g).0 in
        (failed.1.tripped ≡ true)
        × ((with_lockout client_ip_of now later cfg r (some g)).0 ≡ some failed.0)
  unfolding with_lockout keep_guard
  arming_inv now later cfg r g st h = ground (
    arith,
    guarded_inv later cfg r (client_ip_of r) (status now (client_ip_of r) g) st,
    check_token-no_lockout cfg r (client_ip_of r) st,
  )

  locked_client :
      (end now later : ℕ) (cfg : Config) (r : Request) (ip : String) (g : MemoryGuard)
      → IsGated cfg r
      → client_ip_of r ≡ ip
      → ip ≢ ""
      → now < end
      → IsLockedUntil end ip g
      → ((admin_auth client_ip_of now later cfg r (some g)).1 ≡ [])
        × ((admin_auth client_ip_of now later cfg r (some g)).2
            ≡ too_many_requests (retry_after_seconds (end - now)))
  unfolding with_lockout
  locked_client end now later cfg r ip g gated same ne before locked =
      let (out, left, kept) = status-locked end now ip g ne before locked in
      let (silent, away) = locked_guarded later cfg r ip (status now ip g) out in
      rw (gated_admin_auth now later cfg r (some g) gated, same, str_eq_ne ip ne, with_lockout)
        (silent, away ∙ rw left refl)

  arming-locks :
      (now later : ℕ) (cfg : Config) (r : Request) (g : MemoryGuard) (st : LockoutStatus)
      → IsUsable g.policy
      → IsGated cfg r
      → (admin_auth client_ip_of now later cfg r (some g)).1 ≡ auth_lockout (client_ip_of r) st ∷ []
      → IsLockedIn
          (add_duration later g.policy.cooldown)
          (client_ip_of r)
          (admin_auth client_ip_of now later cfg r (some g)).0
  arming-locks now later cfg r g st usable gated armed =
      let ip = client_ip_of r in
      let g0 = (status now ip g).0 in
      let policy = status-policy now ip g in
      let (trips, left) =
        arming_inv now later cfg r g st
          (rw (gated_admin_auth now later cfg r (some g) gated) at armed) in
      let locks =
        trip-locks (add_duration later g.policy.cooldown) later ip g0
          (subst IsUsable (sym policy) usable)
          (ap (λ (p : Policy). add_duration later p.cooldown) policy) trips in
      rw (gated_admin_auth now later cfg r (some g) gated, left) locks

  module _ (cfg : Config) where
    -- Each request finds room for a failure of its client, with the guard as the ones before it leave
    -- it.
    abbrev pub HaveRoom : List Visit → Option MemoryGuard → Type 0
    HaveRoom [] lockout = Unit
    HaveRoom ((now, later, r) ∷ visits) lockout =
        HasPlace (client_ip_of r) lockout
        × HaveRoom visits (admin_auth client_ip_of now later cfg r lockout).0

    -- Each request of the client on a gated path is answered with the time that is left, and leaves no
    -- audit event.
    abbrev pub TurnedAway : ℕ → String → List Visit → Option MemoryGuard → Type 0
    TurnedAway end ip [] lockout = Unit
    TurnedAway end ip ((now, later, r) ∷ visits) lockout =
        let answer = admin_auth client_ip_of now later cfg r lockout in
        (client_ip_of r ≡ ip
          → IsGated cfg r
          → (answer.1 ≡ []) × (answer.2 ≡ too_many_requests (retry_after_seconds (end - now))))
        × TurnedAway end ip visits answer.0

    locked-TurnedAway :
        (end : ℕ) (ip : String) (visits : List Visit) (lockout : Option MemoryGuard)
        → ip ≢ ""
        → IsLockedIn end ip lockout
        → All (λ (v : Visit). v.0 < end) visits
        → HaveRoom visits lockout
        → TurnedAway end ip visits lockout
    locked-TurnedAway end ip [] lockout ne locked before room = tt
    locked-TurnedAway end ip (v ∷ visits) none ne locked before room = absurd locked
    locked-TurnedAway end ip ((now, later, r) ∷ visits) (some g) ne locked (soon, before)
          (place, room) =
        (
          λ same gated. locked_client end now later cfg r ip g gated same ne soon locked,
          locked-TurnedAway end ip visits (admin_auth client_ip_of now later cfg r (some g)).0 ne
              (admin_auth-Keeps client_ip_of end ip now later cfg r (some g) ne soon place locked)
              before room,
        )

  -- Once a request on a gated path has armed the lockout of its client, each of any requests that
  -- follow before the cooldown is over, of this client on a gated path, is turned away with the time
  -- that is left, whatever token it carries, and leaves no audit event: if the guard tracks the client
  -- of each request that follows or has room for it.
  pub admin_auth-TurnedAway :
      (now later : ℕ) (cfg : Config) (r : Request) (g : MemoryGuard) (st : LockoutStatus)
      (visits : List Visit)
      → IsUsable g.policy
      → IsGated cfg r
      → client_ip_of r ≢ ""
      → (admin_auth client_ip_of now later cfg r (some g)).1 ≡ auth_lockout (client_ip_of r) st ∷ []
      → All (λ (v : Visit). v.0 < add_duration later g.policy.cooldown) visits
      → HaveRoom cfg visits (admin_auth client_ip_of now later cfg r (some g)).0
      → TurnedAway cfg
          (add_duration later g.policy.cooldown)
          (client_ip_of r)
          visits
          (admin_auth client_ip_of now later cfg r (some g)).0
  admin_auth-TurnedAway now later cfg r g st visits usable gated ne armed before room =
      locked-TurnedAway cfg (add_duration later g.policy.cooldown) (client_ip_of r) visits _ ne
        (arming-locks now later cfg r g st usable gated armed) before room
