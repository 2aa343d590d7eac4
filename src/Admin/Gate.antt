-- ===== src/Admin/Gate.antt =====
-- Which requests pass the gate of the admin endpoints.
use vibewarden.Prelude.{
  ℕ, ◌≡◌, ◌≢◌, ◌↔◌, ◌⊎◌, arith, true, false, String, eq_iff, [], Option, none, some,
}
use vibewarden.Prelude.Text.{text_eq_iff}
use vibewarden.AuthGuard.Memory.{MemoryGuard, LockoutStatus, status, record_key_failure}
use vibewarden.Admin.Auth.{
  Config, Request, pass, admin_auth, with_lockout, check_token, check_guarded, is_protected, is_ui,
  extract_admin_token, keep_guard, refuse,
}

-- The client of a request is not locked out, as far as that is known.
abbrev pub IsAdmitted : ℕ → String → Option MemoryGuard → Type 0
IsAdmitted now client_ip none = Unit
IsAdmitted now client_ip (some g) =
    (client_ip ≡ "") ⊎ ((status now client_ip g).1.locked_out ≡ false)

check_token_iff :
    (cfg : Config) (r : Request)
    → ((check_token cfg r).1 ≡ pass) ↔ (extract_admin_token r ≡ cfg.token)
unfolding check_token
check_token_iff cfg r = ground (arith, text_eq_iff (extract_admin_token r) cfg.token)

refuse-ne-pass :
    (client_ip : String) (after : MemoryGuard × LockoutStatus) → (refuse client_ip after).2 ≢ pass
unfolding refuse
refuse-ne-pass client_ip after = ground arith

check_guarded_iff :
    (later : ℕ) (cfg : Config) (r : Request) (client_ip : String) (at : MemoryGuard × LockoutStatus)
    → ((check_guarded later cfg r client_ip at).2 ≡ pass)
      ↔ ((at.1.locked_out ≡ false) × (extract_admin_token r ≡ cfg.token))
unfolding check_guarded
check_guarded_iff later cfg r client_ip (g, st) = ground (
  arith,
  text_eq_iff (extract_admin_token r) cfg.token,
  refuse-ne-pass client_ip (record_key_failure later client_ip g),
)

module _ (client_ip_of : Request → String) (now later : ℕ) (cfg : Config) (r : Request) where
  with_lockout_iff :
      (lockout : Option MemoryGuard)
      → ((with_lockout client_ip_of now later cfg r lockout).2 ≡ pass)
        ↔ (IsAdmitted now (client_ip_of r) lockout × (extract_admin_token r ≡ cfg.token))
  unfolding with_lockout keep_guard
  with_lockout_iff none = ground (arith, check_token_iff cfg r)
  with_lockout_iff (some g) = ground (
    arith,
    check_token_iff cfg r,
    eq_iff (client_ip_of r) "",
    check_guarded_iff later cfg r (client_ip_of r) (status now (client_ip_of r) g),
  )

  -- A request passes exactly if its path is not protected, or the endpoints are enabled and it is for
  -- the user interface, by its cleaned path, or carries the configured token, which is not empty, while
  -- its client is not locked out.
  pub admin_auth-pass_iff :
      (lockout : Option MemoryGuard)
      → ((admin_auth client_ip_of now later cfg r lockout).2 ≡ pass) ↔ (
          (is_protected cfg r.path ≡ false)
          ⊎ ((cfg.enabled ≡ true)
              × ((is_ui r.path ≡ true)
                  ⊎ ((cfg.token ≢ [])
                      × IsAdmitted now (client_ip_of r) lockout
                      × (extract_admin_token r ≡ cfg.token)))))
  unfolding admin_auth
  admin_auth-pass_iff lockout = ground (arith, with_lockout_iff lockout, text_eq_iff cfg.token [])
