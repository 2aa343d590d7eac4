-- ===== src/Admin/Ready.antt =====
-- internal/middleware/ready.go: the readiness endpoint, over the readiness of the plugins and the
-- upstream application. The checker may be missing. The maps of the response are left as they come.
use vibewarden.Prelude.{ℕ, Bool, true, ◌&&◌, String, [], ◌∷◌, Option, none, some, if◌then◌else◌}
use vibewarden.Prelude.Text.{Text, text_of, text_eq}
use vibewarden.Prelude.Dict.{Dict}

pub record ReadinessStatus : Type 0 where
  pub plugins_ready : Bool
  pub upstream_reachable : Bool
  pub plugins : Dict Bool
  pub degraded_plugins : Dict String

pub record ReadyResponse : Type 0 where
  pub ready : Bool
  pub plugins : Dict String
  pub upstream : String
  pub degraded : Dict String

unfoldable health_word : Bool → String
health_word healthy = if healthy then "healthy" else "unhealthy"

unfoldable plugin_words : Dict Bool → Dict String
unfolding health_word
plugin_words [] = []
plugin_words ((name, healthy) ∷ plugins) = (name, health_word healthy) ∷ plugin_words plugins

response_of : Option ReadinessStatus → ReadyResponse
unfolding plugin_words
response_of none = record { ready = true; plugins = []; upstream = ""; degraded = [] }
response_of (some rs) = record {
  ready = rs.plugins_ready && rs.upstream_reachable;
  plugins = plugin_words rs.plugins;
  upstream = if rs.upstream_reachable then "reachable" else "unreachable";
  degraded = rs.degraded_plugins;
}

-- The status of the response, and its body.
unfoldable pub ready_handler : Option ReadinessStatus → ℕ × ReadyResponse
unfolding response_of
ready_handler checker = let resp = response_of checker in (if resp.ready then 200 else 503, resp)

-- The middleware: `none` where the request goes on to the next handler.
unfoldable pub ready_middleware : Option ReadinessStatus → Text → Option (ℕ × ReadyResponse)
unfolding ready_handler
ready_middleware checker path =
    if text_eq path (text_of "/_vibewarden/ready") then some (ready_handler checker) else none
