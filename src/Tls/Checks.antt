-- ===== src/Tls/Checks.antt =====
-- internal/app/ops/doctor_tls_render.go and status_tls_render.go: how the state of the certificate
-- counts in the reports of the command line. The texts of the reports are left out.
use vibewarden.Prelude.{
  ℕ, ◌-◌, ◌*◌, ◌≡◌, ◌≢◌, arith, ltb, true, not, ◌&&◌, if◌then◌else◌, Option, some, List, [], ◌∷◌,
  String,
}
use vibewarden.Prelude.Int.{is_zero_time}
use vibewarden.Tls.{
  day, State, unknown, disabled, self_signed_local, obtaining, obtained, expiring_soon, failing,
  is_caddy_local_issuer,
}
use vibewarden.Tls.Resolvers.{
  Leaf, not_in_process, state_of_leaf, chain_resolve, handshake_resolve, dial_host,
}

pub data Severity : Type 0 where
  severity_ok severity_warn severity_fail : Severity

unfoldable doctor_severity : State → ℕ → Severity
doctor_severity disabled now = severity_ok
doctor_severity self_signed_local now = severity_ok
doctor_severity (obtained expires_at) now = severity_ok
doctor_severity (expiring_soon days_left expires_at) now =
    if not (is_zero_time expires_at) && ltb expires_at now then severity_fail else severity_warn
doctor_severity obtaining now = severity_warn
doctor_severity (failing e) now = severity_fail
doctor_severity unknown now = severity_warn

pub data StatusState : Type 0 where
  status_ok status_fail : StatusState

unfoldable pub status_line : State → StatusState
status_line (failing e) = status_fail
status_line _ = status_ok

leaf_severity :
    (now : ℕ) (leaf : Leaf)
    → leaf.not_after ≢ 0
    → doctor_severity (state_of_leaf now leaf) now ≡ (
        if is_caddy_local_issuer leaf.issuer_cn
        then severity_ok
        else if ltb leaf.not_after now
        then severity_fail
        else if ltb (leaf.not_after - now) (8 * day)
        then severity_warn
        else severity_ok)
unfolding doctor_severity state_of_leaf
leaf_severity now leaf h = ground arith

-- What `vibew doctor` makes of the certificate that a sidecar with TLS presents, where the command is a
-- process of its own: a certificate of the local authority is fine whatever its dates; another one is a
-- failure once it is past its end, a warning within the last eight days, and fine before.
doctor-served :
    (dial : String → Option (List Leaf)) (host : String) (now : ℕ) (state : State) (leaf : Leaf)
    (chain : List Leaf)
    → leaf.not_after ≢ 0
    → dial (dial_host host) ≡ some (leaf ∷ chain)
    → doctor_severity
        (chain_resolve
          ((state, some not_in_process) ∷ handshake_resolve (some true) dial host now ∷ [])).0
        now
      ≡ (if is_caddy_local_issuer leaf.issuer_cn
          then severity_ok
          else if ltb leaf.not_after now
          then severity_fail
          else if ltb (leaf.not_after - now) (8 * day)
          then severity_warn
          else severity_ok)
unfolding chain_resolve handshake_resolve
doctor-served dial host now state leaf chain h served = rw served (leaf_severity now leaf h)
