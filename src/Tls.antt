-- ===== src/Tls.antt =====
-- internal/domain/tls/state.go and cert_info.go: the state of the certificate that is served. Instants
-- and durations are numbers of nanoseconds; days are whole, rounded down. The texts that show a state
-- to people are left out.
pub mod Resolvers
pub mod Preflight
pub mod Recount
pub mod Monitor
pub mod Checks
pub mod Acme
mod Tests
use vibewarden.Prelude.{
  ℕ, ◌-◌, ◌*◌, ◌/◌, ltb, leb, Bool, true, false, not, String, str_eq, List, Option, none, some,
  Result, ok, err, if◌then◌else◌,
}
use vibewarden.Prelude.Int.{ℤ, pos_part}
use vibewarden.Prelude.Text.{Text, text_of, has_prefix}

abbrev pub day : ℕ
day = 86_400_000_000_000

abbrev caddy_local_issuer_cn : Text
caddy_local_issuer_cn = text_of "Caddy Local Authority"

unfoldable pub is_caddy_local_issuer : Text → Bool
is_caddy_local_issuer issuer_cn = has_prefix caddy_local_issuer_cn issuer_cn

-- The kinds with the fields that their constructors set.
pub data State : Type 0 where
  unknown disabled self_signed_local obtaining : State
  obtained : (expires_at : ℕ) → State
  expiring_soon : (days_left expires_at : ℕ) → State
  failing : (last_error : String) → State

unfoldable pub new_expiring_soon : ℤ → ℕ → State
new_expiring_soon days_left expires_at = expiring_soon (pos_part days_left) expires_at

unfoldable pub kind_string : State → String
kind_string disabled = "disabled"
kind_string self_signed_local = "self-signed-local"
kind_string obtaining = "obtaining"
kind_string (obtained t) = "obtained"
kind_string (expiring_soon n t) = "expiring-soon"
kind_string (failing e) = "failing"
kind_string unknown = "unknown"

unfoldable pub healthy : State → Bool
healthy disabled = true
healthy self_signed_local = true
healthy (obtained t) = true
healthy _ = false

pub record CertInfo : Type 0 where
  pub subject : String
  pub issuer : String
  pub not_before : ℕ
  pub not_after : ℕ
  pub sans : List String
  pub serial : String

pub data CertError : Type 0 where
  empty_subject empty_issuer bad_validity : CertError

unfoldable pub new_cert_info :
    String → String → ℕ → ℕ → List String → String → Result CertError CertInfo
new_cert_info subject issuer not_before not_after sans serial =
    if str_eq subject ""
    then err empty_subject
    else if str_eq issuer ""
    then err empty_issuer
    else if not (ltb not_before not_after)
    then err bad_validity
    else ok (record {
      subject = subject;
      issuer = issuer;
      not_before = not_before;
      not_after = not_after;
      sans = sans;
      serial = serial;
    })

unfoldable pub is_expired : ℕ → CertInfo → Bool
is_expired now c = ltb c.not_after now

unfoldable days_until_expiry : ℕ → CertInfo → ℕ
unfolding is_expired
days_until_expiry now c = if is_expired now c then 0 else (c.not_after - now) / day

pub data ExpiryStatus : Type 0 where
  expired : ExpiryStatus
  critical warning fine : (days : ℕ) → ExpiryStatus

unfoldable pub expiry_status : ℕ → CertInfo → ExpiryStatus
unfolding is_expired days_until_expiry
expiry_status now c =
    let days = days_until_expiry now c in
    if is_expired now c
    then expired
    else if leb days 7
    then critical days
    else if leb days 30
    then warning days
    else fine days
