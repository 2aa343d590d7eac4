-- ===== src/Admin/Auth.antt =====
-- internal/middleware/admin_auth.go: the token of the admin endpoints, with the lockout of clients that
-- guess it. The client's address is a parameter, as are two readings of the clock: one for the status
-- of the lockout, one for a failure that is recorded.
use vibewarden.Prelude.{
  ℕ, ◌==◌, Bool, true, false, not, ◌||◌, String, str_eq, List, [], ◌∷◌, ◌++◌, Option, none, some,
  if◌then◌else◌,
}
use vibewarden.Prelude.Text.{Text, text_of, text_eq, has_prefix, trim_space, to_lower}
use vibewarden.Prelude.Split.{cut}
use vibewarden.Prelude.CleanPath.{clean}
use vibewarden.AuthGuard.Memory.{
  MemoryGuard, LockoutStatus, status, record_key_failure, record_key_success,
}
use vibewarden.RateLimit.Middleware.{retry_after_seconds}

abbrev admin_path_prefix : Text
admin_path_prefix = text_of "/_vibewarden/admin/"

abbrev admin_ui_prefix : Text
admin_ui_prefix = text_of "/_vibewarden/admin/ui"

pub record Config : Type 0 where
  pub enabled : Bool
  pub token : Text
  pub config_path : Text

pub record Request : Type 0 where
  pub path : Text
  pub admin_key : Text
  pub authorization : Text

pub data AuditEvent : Type 0 where
  auth_success auth_failure : AuditEvent
  auth_lockout : (client_ip : String) → LockoutStatus → AuditEvent

pub data Outcome : Type 0 where
  pass not_found internal_error unauthorized : Outcome
  too_many_requests : (retry_after : ℕ) → Outcome

-- `strings.TrimSuffix(s, "/")`.
unfoldable trim_slash : Text → Text
trim_slash [] = []
trim_slash (c ∷ s) = elim s [ [] ↦ if c == b'/' then [] else c ∷ [] | d ∷ rest ↦ c ∷ trim_slash s ]

unfoldable pub matches_config_path : Text → Text → Bool
unfolding trim_slash
matches_config_path path config_path =
    if text_eq config_path []
    then false
    else if has_prefix config_path path
    then true
    else text_eq path (trim_slash config_path)

bearer_token : Option (Text × Text) → Text
bearer_token none = []
bearer_token (some (scheme, credentials)) =
    if not (text_eq (to_lower scheme) (text_of "bearer")) then [] else trim_space credentials

unfoldable pub extract_admin_token : Request → Text
unfolding bearer_token
extract_admin_token r =
    if not (text_eq r.admin_key []) then r.admin_key else bearer_token (cut b' ' r.authorization)

unfoldable secure_equal : Text → Text → Bool
secure_equal a b = text_eq a b

unfoldable pub is_protected : Config → Text → Bool
unfolding matches_config_path
is_protected cfg path =
    has_prefix admin_path_prefix path || matches_config_path path cfg.config_path

unfoldable pub is_ui : Text → Bool
is_ui path =
    let cleaned = clean path in
    text_eq cleaned admin_ui_prefix || has_prefix (admin_ui_prefix ++ b'/' ∷ []) cleaned

-- The answer after a wrong token, where the client's failure is recorded.
unfoldable pub refuse :
    String → MemoryGuard × LockoutStatus → Option MemoryGuard × List AuditEvent × Outcome
refuse client_ip (g, st) =
    (some g, (if st.tripped then auth_lockout client_ip st else auth_failure) ∷ [], unauthorized)

-- The part of the handler behind the check for a token that is set, without a lockout.
unfoldable pub check_token : Config → Request → List AuditEvent × Outcome
unfolding secure_equal extract_admin_token
check_token cfg r =
    if not (secure_equal (extract_admin_token r) cfg.token)
    then (auth_failure ∷ [], unauthorized)
    else (auth_success ∷ [], pass)

unfoldable pub keep_guard :
    Option MemoryGuard → List AuditEvent × Outcome → Option MemoryGuard × List AuditEvent × Outcome
keep_guard lockout (events, outcome) = (lockout, events, outcome)

-- The same with a lockout guard and a client whose address is known.
unfoldable pub check_guarded :
    ℕ
    → Config
    → Request
    → String
    → MemoryGuard × LockoutStatus
    → Option MemoryGuard × List AuditEvent × Outcome
unfolding refuse secure_equal extract_admin_token
check_guarded later cfg r client_ip (g, st) =
    if st.locked_out
    then (some g, [], too_many_requests (retry_after_seconds st.retry_after))
    else if not (secure_equal (extract_admin_token r) cfg.token)
    then refuse client_ip (record_key_failure later client_ip g)
    else (some (record_key_success client_ip g), auth_success ∷ [], pass)

module _ (client_ip_of : Request → String) where
  unfoldable pub with_lockout :
      ℕ → ℕ → Config → Request → Option MemoryGuard → Option MemoryGuard × List AuditEvent × Outcome
  unfolding check_token check_guarded keep_guard
  with_lockout now later cfg r none = keep_guard none (check_token cfg r)
  with_lockout now later cfg r (some g) =
      if str_eq (client_ip_of r) ""
      then keep_guard (some g) (check_token cfg r)
      else check_guarded later cfg r (client_ip_of r) (status now (client_ip_of r) g)

  unfoldable pub admin_auth :
      ℕ → ℕ → Config → Request → Option MemoryGuard → Option MemoryGuard × List AuditEvent × Outcome
  unfolding with_lockout
  admin_auth now later cfg r lockout =
      if not (is_protected cfg r.path)
      then (lockout, [], pass)
      else if not cfg.enabled
      then (lockout, [], not_found)
      else if is_ui r.path
      then (lockout, [], pass)
      else if text_eq cfg.token []
      then (lockout, [], internal_error)
      else with_lockout now later cfg r lockout
