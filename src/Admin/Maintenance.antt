-- ===== src/Admin/Maintenance.antt =====
-- internal/middleware/maintenance.go: while maintenance is on, all but the internal endpoints answer 503.
use vibewarden.Prelude.{Bool, not, String, str_eq, List, [], ◌∷◌, if◌then◌else◌}
use vibewarden.Prelude.Text.{Text, text_of, has_prefix}

abbrev maintenance_prefix : Text
maintenance_prefix = text_of "/_vibewarden/"

pub record Config : Type 0 where
  pub enabled : Bool
  pub message : String

pub data Event : Type 0 where
  request_blocked : (path : Text) → (message : String) → Event

pub data Outcome : Type 0 where
  forward : Outcome
  unavailable : (message : String) → Outcome

unfoldable message_of : Config → String
message_of cfg = if str_eq cfg.message "" then "Service is under maintenance" else cfg.message

unfoldable pub maintenance_middleware : Config → Text → List Event × Outcome
unfolding message_of
maintenance_middleware cfg path =
    if not cfg.enabled
    then ([], forward)
    else if has_prefix maintenance_prefix path
    then ([], forward)
    else (request_blocked path (message_of cfg) ∷ [], unavailable (message_of cfg))
