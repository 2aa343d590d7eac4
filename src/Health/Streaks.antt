-- ===== src/Health/Streaks.antt =====
-- internal/domain/health/health.go: results of one kind in a row, and any probes.
use vibewarden.Prelude.{
  ℕ, ◌+◌, ◌<◌, ◌≡◌, ◌⊎◌, refl, arith, List, [], ◌∷◌, true, false, length, ok, String, if◌then◌else◌,
}
use vibewarden.Prelude.Int.{pos, pos_part, leb_ℤ, ◌<ℤ◌}
use vibewarden.Health.{
  Config, UpstreamHealth, new_upstream_health, validate, is_healthy, is_unhealthy, record_success,
  record_failure,
}

-- Successes at these times: the state after them, and how many transitions they report.
unfoldable succeed : List ℕ → UpstreamHealth → UpstreamHealth × ℕ
succeed [] u = (u, 0)
succeed (t ∷ ts) u =
    let (u', _, transitioned) = record_success t u in
    let (u'', n) = succeed ts u' in (u'', if transitioned then n + 1 else n)

unfoldable fail : List (ℕ × String) → UpstreamHealth → UpstreamHealth × ℕ
fail [] u = (u, 0)
fail ((t, message) ∷ ts) u =
    let (u', _, transitioned) = record_failure t message u in
    let (u'', n) = fail ts u' in (u'', if transitioned then n + 1 else n)

succeed-healthy :
    (ts : List ℕ) (u : UpstreamHealth)
    → is_healthy u.status ≡ true
    → (is_healthy (succeed ts u).0.status ≡ true) × ((succeed ts u).1 ≡ 0)
unfolding succeed record_success
succeed-healthy [] u h = (h, refl)
succeed-healthy (t ∷ ts) u h = ground (arith, succeed-healthy ts (record_success t u).0)

-- An upstream that is not healthy, with fewer successes just before than the threshold, is made
-- healthy by successes in a row exactly if all of them together are as many as the threshold, and
-- just that one transition is reported.
succeed-status :
    (ts : List ℕ) (u : UpstreamHealth)
    → is_healthy u.status ≡ false
    → pos u.successes <ℤ u.cfg.healthy_threshold
    → let reached = leb_ℤ u.cfg.healthy_threshold (pos (u.successes + length ts)) in
      (is_healthy (succeed ts u).0.status ≡ reached)
      × ((succeed ts u).1 ≡ (if reached then 1 else 0))
unfolding succeed record_success
succeed-status [] u h below = ground arith
succeed-status (t ∷ ts) u h below =
    ground
      (arith, succeed-status ts (record_success t u).0, succeed-healthy ts (record_success t u).0)

fail-unhealthy :
    (ts : List (ℕ × String)) (u : UpstreamHealth)
    → is_unhealthy u.status ≡ true
    → (is_unhealthy (fail ts u).0.status ≡ true) × ((fail ts u).1 ≡ 0)
unfolding fail record_failure
fail-unhealthy [] u h = (h, refl)
fail-unhealthy ((t, message) ∷ ts) u h =
    ground (arith, fail-unhealthy ts (record_failure t message u).0)

-- An upstream that is not unhealthy, with fewer failures just before than the threshold, is made
-- unhealthy by failures in a row exactly if all of them together are as many as the threshold, and
-- just that one transition is reported.
fail-status :
    (ts : List (ℕ × String)) (u : UpstreamHealth)
    → is_unhealthy u.status ≡ false
    → pos u.failures <ℤ u.cfg.unhealthy_threshold
    → let reached = leb_ℤ u.cfg.unhealthy_threshold (pos (u.failures + length ts)) in
      (is_unhealthy (fail ts u).0.status ≡ reached) × ((fail ts u).1 ≡ (if reached then 1 else 0))
unfolding fail record_failure
fail-status [] u h below = ground arith
fail-status ((t, message) ∷ ts) u h below = ground (
  arith,
  fail-status ts (record_failure t message u).0,
  fail-unhealthy ts (record_failure t message u).0,
)

-- A probe that succeeds, or fails with a message, at a time.
pub data Probe : Type 0 where
  succeeds : ℕ → Probe
  fails : ℕ → String → Probe

unfoldable pub probe_all : List Probe → UpstreamHealth → UpstreamHealth
probe_all [] u = u
probe_all (succeeds t ∷ ps) u = probe_all ps (record_success t u).0
probe_all (fails t message ∷ ps) u = probe_all ps (record_failure t message u).0

-- Results of one kind that have not yet changed the status are fewer than its threshold, and only
-- one kind is being counted.
pub record IsSound (u : UpstreamHealth) : Type 0 where
  pub healthy_above : 0 < pos_part u.cfg.healthy_threshold
  pub unhealthy_above : 0 < pos_part u.cfg.unhealthy_threshold
  pub successes_below : (is_healthy u.status ≡ true) ⊎ (pos u.successes <ℤ u.cfg.healthy_threshold)
  pub failures_below :
      (is_unhealthy u.status ≡ true) ⊎ (pos u.failures <ℤ u.cfg.unhealthy_threshold)
  pub one_kind : (u.successes ≡ 0) ⊎ (u.failures ≡ 0)

record_success-IsSound : (t : ℕ) (u : UpstreamHealth) → IsSound u → IsSound (record_success t u).0
unfolding record_success
record_success-IsSound t u s = ground arith

record_failure-IsSound :
    (t : ℕ) (message : String) (u : UpstreamHealth)
    → IsSound u
    → IsSound (record_failure t message u).0
unfolding record_failure
record_failure-IsSound t message u s = ground arith

probe_all-IsSound_from :
    (ps : List Probe) (u : UpstreamHealth) → IsSound u → IsSound (probe_all ps u)
unfolding probe_all
probe_all-IsSound_from [] u s = s
probe_all-IsSound_from (succeeds t ∷ ps) u s =
    probe_all-IsSound_from ps (record_success t u).0 (record_success-IsSound t u s)
probe_all-IsSound_from (fails t message ∷ ps) u s =
    probe_all-IsSound_from ps (record_failure t message u).0 (record_failure-IsSound t message u s)

-- After any probes of an upstream with a valid, enabled config, the results counted towards a
-- status that it does not have are fewer than the threshold, and only one kind is counted.
probe_all-IsSound :
    (cfg : Config) (u : UpstreamHealth) (ps : List Probe)
    → cfg.enabled ≡ true
    → new_upstream_health cfg ≡ ok u
    → IsSound (probe_all ps u)
unfolding new_upstream_health validate
probe_all-IsSound cfg u ps enabled made = probe_all-IsSound_from ps u (ground arith)
