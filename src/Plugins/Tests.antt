-- ===== src/Plugins/Tests.antt =====
-- Runs of the plugin registry, and its theorems at concrete plugins.
use vibewarden.Prelude.{◌≡◌, refl, [], ◌∷◌, true, false, some_of}
use vibewarden.Prelude.Dict.{lookup, insert}
use vibewarden.Plugins.{
  Plugin, Registry, init_step, start_step, init_all, init_plugins, start_all, start_plugins,
  is_degraded, mark_degraded, note,
}
use vibewarden.Plugins.Lifecycle.{fails, startup-is_degraded}

abbrev tls : Plugin
tls = record {
  name = "tls";
  critical = true;
  inits = true;
  starts = true;
  stops = false;
  healthy = true;
}

abbrev waf : Plugin
waf = record {
  name = "waf";
  critical = false;
  inits = false;
  starts = true;
  stops = true;
  healthy = true;
}

abbrev two : Registry
two = record { plugins = tls ∷ waf ∷ []; degraded = []; steps = [] }

waf_is_skipped :
    (start_all (init_all two).0).0.steps ≡ init_step "tls" ∷ init_step "waf" ∷ start_step "tls" ∷ []
unfolding init_all init_plugins start_all start_plugins mark_degraded note is_degraded lookup insert
waf_is_skipped = refl

startup-is_degraded_example :
    is_degraded "waf" (start_all (init_all two).0).0 ≡ some_of (fails "waf") two.plugins
unfolding init_all init_plugins start_all start_plugins mark_degraded note is_degraded lookup insert
startup-is_degraded_example = startup-is_degraded "waf" two refl refl refl
