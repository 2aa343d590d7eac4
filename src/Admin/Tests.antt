-- ===== src/Admin/Tests.antt =====
-- Runs of the operators' endpoints, and their theorems at concrete requests.
use vibewarden.Prelude.{
  ◌≡◌, ◌≢◌, ◌↔◌, ◌⊎◌, inr, List, String, if◌then◌else◌, refl, arith, eq_iff, true, false, [], ◌∷◌,
  none, some,
}
use vibewarden.Prelude.Int.{pos, add_duration}
use vibewarden.Prelude.Text.{Text, text_of, text_eq, has_prefix, trim_space, to_lower}
use vibewarden.Prelude.Split.{split, cut, join}
use vibewarden.Prelude.CleanPath.{clean}
use vibewarden.Prelude.Dict.{lookup, insert}
use vibewarden.AuthGuard.{record_failure, locked_out}
use vibewarden.AuthGuard.Memory.{MemoryGuard, LockoutStatus, status, record_key_failure, make_room}
use vibewarden.Admin.Auth
use vibewarden.Admin.Auth.{
  Request, AuditEvent, Outcome, pass, unauthorized, not_found, too_many_requests, auth_lockout,
  admin_auth, is_protected, is_ui, extract_admin_token, matches_config_path,
}
use vibewarden.Admin.Gate.{IsAdmitted, admin_auth-pass_iff}
use vibewarden.Admin.Lockout.{Visit, HaveRoom, TurnedAway, admin_auth-TurnedAway}
use vibewarden.Admin.Maintenance.{forward, unavailable, maintenance_middleware}
use vibewarden.Admin.Ready.{ready_handler, ready_middleware}

abbrev admin : Auth.Config
admin = record {
  enabled = true;
  token = text_of "t0k";
  config_path = text_of "/_vibewarden/config/";
}

abbrev ask : Text → Text → Request
ask path key = record { path = path; admin_key = key; authorization = text_of "Bearer t0k " }

abbrev users : Text
users = text_of "/_vibewarden/admin/users"

bearer_is_read : extract_admin_token (ask users []) ≡ text_of "t0k"
unfolding extract_admin_token text_eq cut to_lower trim_space
bearer_is_read = refl

header_wins : extract_admin_token (ask users (text_of "other")) ≡ text_of "other"
unfolding extract_admin_token text_eq
header_wins = refl

ui_is_a_prefix : is_ui (text_of "/_vibewarden/admin/ui/app.js") ≡ true
unfolding is_ui clean text_eq has_prefix split join
ui_is_a_prefix = refl

traversal_is_gated : is_ui (text_of "/_vibewarden/admin/ui/../users") ≡ false
unfolding is_ui clean text_eq has_prefix split join
traversal_is_gated = refl

config_without_slash :
    matches_config_path (text_of "/_vibewarden/config") (text_of "/_vibewarden/config/") ≡ true
unfolding matches_config_path text_eq has_prefix
config_without_slash = refl

-- One failure is enough.
abbrev strict : MemoryGuard
strict = record {
  policy = record { threshold = pos 1; window = pos 10; cooldown = pos 2_000_000_000 };
  max_entries = pos 10;
  entries = [];
}

admin_auth-pass_iff_example :
    ((admin_auth (λ r. "10.0.0.7") 1 2 admin (ask users []) (some strict)).2 ≡ pass) ↔ (
      (is_protected admin users ≡ false)
      ⊎ ((true ≡ true)
          × ((is_ui users ≡ true)
              ⊎ ((text_of "t0k" ≢ [])
                  × IsAdmitted 1 "10.0.0.7" (some strict)
                  × (extract_admin_token (ask users []) ≡ text_of "t0k")))))
admin_auth-pass_iff_example =
    admin_auth-pass_iff (λ r. "10.0.0.7") 1 2 admin (ask users []) (some strict)

right_token_passes : (admin_auth (λ r. "10.0.0.7") 1 2 admin (ask users []) (some strict)).2 ≡ pass
unfolding admin_auth is_protected is_ui clean has_prefix text_eq split join status lookup
    extract_admin_token cut to_lower trim_space
right_token_passes = refl

abbrev armed_status : LockoutStatus
armed_status = record {
  locked_out = false;
  tripped = true;
  retry_after = 2_000_000_000;
  failures = 1;
  threshold = pos 1;
  window = pos 10;
  cooldown = pos 2_000_000_000;
}

abbrev wrong : Request
wrong = ask users (text_of "guess")

-- Two clients, told apart by the key that they try.
abbrev ip_of : Request → String
ip_of r = if text_eq r.admin_key (text_of "other") then "10.0.0.8" else "10.0.0.7"

wrong_arms :
    (admin_auth ip_of 1 2 admin wrong (some strict)).1 ≡ auth_lockout "10.0.0.7" armed_status ∷ []
unfolding admin_auth is_protected is_ui clean has_prefix text_eq split join status lookup
    extract_admin_token cut to_lower trim_space record_key_failure insert record_failure
wrong_arms = refl

abbrev three_visits : List Visit
three_visits =
    (500, 500, ask users [])
    ∷ (600, 600, ask users (text_of "other"))
    ∷ (700, 700, ask users [])
    ∷ []

three_visits-HaveRoom :
    HaveRoom ip_of admin three_visits (admin_auth ip_of 1 2 admin wrong (some strict)).0
unfolding admin_auth is_protected is_ui clean has_prefix text_eq split join status lookup
    extract_admin_token cut to_lower trim_space record_key_failure insert record_failure locked_out
    make_room
three_visits-HaveRoom = (inr (omega arith), (inr (omega arith), (inr (omega arith), tt)))

admin_auth-TurnedAway_example :
    TurnedAway ip_of admin
      (add_duration 2 (pos 2_000_000_000))
      "10.0.0.7"
      three_visits
      (admin_auth ip_of 1 2 admin wrong (some strict)).0
unfolding is_protected is_ui clean has_prefix text_eq split join
admin_auth-TurnedAway_example =
    admin_auth-TurnedAway ip_of 1 2 admin wrong strict armed_status three_visits (omega arith)
      (record { protected = refl; on = refl; not_ui = refl; token_set = ground arith })
      (λ e. ground (arith, eq_iff "10.0.0.7" "")) wrong_arms
      (omega arith, (omega arith, (omega arith, tt))) three_visits-HaveRoom

internal_stays_up :
    maintenance_middleware (record { enabled = true; message = "" }) (text_of "/_vibewarden/ready")
    ≡ ([], forward)
unfolding maintenance_middleware has_prefix
internal_stays_up = refl

others_are_told :
    (maintenance_middleware (record { enabled = true; message = "" }) (text_of "/")).1
    ≡ unavailable "Service is under maintenance"
unfolding maintenance_middleware has_prefix
others_are_told = refl

unready_answers_503 :
    (ready_handler (
      some (record {
        plugins_ready = true;
        upstream_reachable = false;
        plugins = ("tls", true) ∷ [];
        degraded_plugins = [];
      }))).0
    ≡ 503
unfolding ready_handler
unready_answers_503 = refl

other_paths_go_on : ready_middleware none users ≡ none
unfolding ready_middleware text_eq
other_paths_go_on = refl
