-- ===== src/Health/Tests.antt =====
-- Runs of the upstream health, and its theorems at concrete probes.
use vibewarden.Prelude.{
  ℕ, List, ◌≡◌, refl, none, some, Result, ok, err, String, [], ◌∷◌, true, false,
}
use vibewarden.Prelude.Int.{pos}
use vibewarden.Health.{
  unknown, healthy, unhealthy, Config, UpstreamHealth, record_success, record_failure,
}
use vibewarden.Health.Streaks.{succeeds, fails, probe_all}
use vibewarden.Health.Checker.{
  probe, on_success, on_failure, HealthChanged, Checker, probe_loop, Chain, shown_after,
  probe_loop-Chain,
}

abbrev every_ten : Config
every_ten = record {
  enabled = true;
  path = "/health";
  interval = pos 10;
  timeout = pos 2;
  unhealthy_threshold = pos 3;
  healthy_threshold = pos 2;
}

abbrev fresh : UpstreamHealth
fresh = record {
  cfg = every_ten;
  status = unknown;
  successes = 0;
  failures = 0;
  last_probed = 0;
  last_error = "";
}

one_success_of_two :
    (probe_all (succeeds 10 ∷ fails 20 "refused" ∷ succeeds 30 ∷ []) fresh).status ≡ unknown
unfolding probe_all record_success record_failure
one_success_of_two = refl

-- Two successes, then, after one more failure and success, three failures in a row.
abbrev seven_answers : List (ℕ × Result String (ℕ × String))
seven_answers =
    (10, ok (200, ""))
    ∷ (20, ok (204, ""))
    ∷ (30, err "refused")
    ∷ (40, ok (200, ""))
    ∷ (50, err "refused")
    ∷ (60, ok (500, "status 500"))
    ∷ (70, err "refused")
    ∷ []

abbrev not_probed : Checker
not_probed = record { entity = fresh; gauge = none }

abbrev two_changes : List HealthChanged
two_changes =
    record {
      previous_status = unknown;
      new_status = healthy;
      consecutive_count = 2;
      last_error = "";
    }
    ∷ record {
      previous_status = healthy;
      new_status = unhealthy;
      consecutive_count = 3;
      last_error = "refused";
    }
    ∷ []

changes_of_seven : (probe_loop seven_answers not_probed).1 ≡ two_changes
unfolding probe_loop probe on_success on_failure record_success record_failure
changes_of_seven = refl

gauge_of_seven : (probe_loop seven_answers not_probed).0.gauge ≡ some false
unfolding probe_loop probe on_success on_failure record_success record_failure
gauge_of_seven = refl

probe_loop-Chain_example :
    Chain unknown
      (probe_loop seven_answers not_probed).1
      (probe_loop seven_answers not_probed).0.entity.status
    × ((probe_loop seven_answers not_probed).0.gauge
        ≡ shown_after (probe_loop seven_answers not_probed).1 none)
probe_loop-Chain_example = probe_loop-Chain seven_answers not_probed
