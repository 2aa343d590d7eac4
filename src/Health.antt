-- ===== src/Health.antt =====
-- internal/domain/health/health.go: the state of the upstream as its probes show it, which changes
-- only after so many results of one kind in a row.
pub mod Streaks
pub mod Summary
pub mod Checker
mod Tests
use vibewarden.Prelude.{
  ℕ, ◌+◌, List, [], ◌∷◌, Bool, true, false, not, ◌&&◌, Option, none, some, Result, ok, err, String,
  str_eq, if◌then◌else◌,
}
use vibewarden.Prelude.Int.{ℤ, pos, leb_ℤ}

pub data UpstreamStatus : Type 0 where
  unknown healthy unhealthy : UpstreamStatus

pub record Config : Type 0 where
  pub enabled : Bool
  pub path : String
  pub interval : ℤ
  pub timeout : ℤ
  pub unhealthy_threshold : ℤ
  pub healthy_threshold : ℤ

pub data ConfigError : Type 0 where
  empty_path bad_interval bad_timeout bad_unhealthy_threshold bad_healthy_threshold : ConfigError

unfoldable pub validate : Config → Option ConfigError
validate c =
    if not c.enabled
    then none
    else if str_eq c.path ""
    then some empty_path
    else if leb_ℤ c.interval (pos 0)
    then some bad_interval
    else if leb_ℤ c.timeout (pos 0)
    then some bad_timeout
    else if leb_ℤ c.unhealthy_threshold (pos 0)
    then some bad_unhealthy_threshold
    else if leb_ℤ c.healthy_threshold (pos 0)
    then some bad_healthy_threshold
    else none

pub record UpstreamHealth : Type 0 where
  pub cfg : Config
  pub status : UpstreamStatus
  pub successes : ℕ
  pub failures : ℕ
  pub last_probed : ℕ
  pub last_error : String

unfoldable pub new_upstream_health : Config → Result ConfigError UpstreamHealth
unfolding validate
new_upstream_health cfg = elim (validate cfg) [
  | some e ↦ err e
  | none ↦ ok (record {
    cfg = cfg;
    status = unknown;
    successes = 0;
    failures = 0;
    last_probed = 0;
    last_error = "";
  })
]

abbrev pub is_healthy : UpstreamStatus → Bool
is_healthy healthy = true
is_healthy _ = false

abbrev pub is_unhealthy : UpstreamStatus → Bool
is_unhealthy unhealthy = true
is_unhealthy _ = false

-- The new state, the previous status, and whether there was a transition.
unfoldable pub record_success : ℕ → UpstreamHealth → UpstreamHealth × UpstreamStatus × Bool
record_success now u =
    let u' = record u {
      last_probed = now;
      last_error = "";
      failures = 0;
      successes = u.successes + 1;
    } in
    if not (is_healthy u.status) && leb_ℤ u.cfg.healthy_threshold (pos u'.successes)
    then (record u' { status = healthy }, u.status, not (is_healthy u.status))
    else (u', u.status, false)

unfoldable pub record_failure : ℕ → String → UpstreamHealth → UpstreamHealth × UpstreamStatus × Bool
record_failure now message u =
    let u' = record u {
      last_probed = now;
      last_error = message;
      successes = 0;
      failures = u.failures + 1;
    } in
    if not (is_unhealthy u.status) && leb_ℤ u.cfg.unhealthy_threshold (pos u'.failures)
    then (record u' { status = unhealthy }, u.status, not (is_unhealthy u.status))
    else (u', u.status, false)
