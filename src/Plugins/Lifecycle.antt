-- ===== src/Plugins/Lifecycle.antt =====
-- internal/plugins/registry.go, InitAll, StartAll and StopAll: which plugins run.
use vibewarden.Prelude.{
  ◌≡◌, ◌↔◌, ◌∙◌, sym, refl, arith, List, [], ◌∷◌, ◌++◌, append_assoc, append-nil, Bool, false, not,
  ◌&&◌, ◌||◌, none, String, str_eq, eq_iff, some_of,
}
use vibewarden.Prelude.Dict.{lookup, lookup-insert}
use vibewarden.Plugins.{
  Plugin, Reason, init_failed, start_failed, Step, init_step, start_step, stop_step, Registry,
  mark_degraded, note, init_plugins, init_all, is_degraded, start_plugins, start_all, stop_plugins,
  stop_all,
}

is_degraded-mark_degraded :
    (name other : String) (reason : Reason) (r : Registry)
    → is_degraded name (mark_degraded other reason r) ≡ (str_eq other name || is_degraded name r)
unfolding is_degraded mark_degraded
is_degraded-mark_degraded name other reason r =
    ground (arith, lookup-insert other name reason r.degraded)

is_degraded-note :
    (name : String) (step : Step) (r : Registry)
    → is_degraded name (note step r) ≡ is_degraded name r
unfolding is_degraded note
is_degraded-note name step r = refl

-- Some plugin of this name fails to initialise, and to start.
abbrev init_fails : String → Plugin → Bool
init_fails name p = str_eq p.name name && not p.inits

abbrev start_fails : String → Plugin → Bool
start_fails name p = str_eq p.name name && not p.starts

abbrev pub fails : String → Plugin → Bool
fails name p = str_eq p.name name && not (p.inits && p.starts)

is_degraded-init_plugins :
    (name : String) (ps : List Plugin) (r : Registry)
    → (init_plugins ps r).1 ≡ none
    → is_degraded name (init_plugins ps r).0 ≡ (is_degraded name r || some_of (init_fails name) ps)
unfolding init_plugins some_of
is_degraded-init_plugins name [] r h = ground arith
is_degraded-init_plugins name (p ∷ ps) r h =
    let r' = note (init_step p.name) r in
    let marked = mark_degraded p.name init_failed r' in
    ground (
      arith,
      eq_iff p.name name,
      is_degraded-mark_degraded name p.name init_failed r',
      is_degraded-note name (init_step p.name) r,
      is_degraded-init_plugins name ps r',
      is_degraded-init_plugins name ps marked,
    )

is_degraded-start_plugins :
    (name : String) (ps : List Plugin) (r : Registry)
    → (start_plugins ps r).1 ≡ none
    → is_degraded name (start_plugins ps r).0
      ≡ (is_degraded name r || some_of (start_fails name) ps)
unfolding start_plugins some_of
is_degraded-start_plugins name [] r h = ground arith
is_degraded-start_plugins name (p ∷ ps) r h =
    let r' = note (start_step p.name) r in
    let marked = mark_degraded p.name start_failed r' in
    ground (
      arith,
      eq_iff p.name name,
      is_degraded-mark_degraded name p.name start_failed r',
      is_degraded-note name (start_step p.name) r,
      is_degraded-start_plugins name ps r,
      is_degraded-start_plugins name ps r',
      is_degraded-start_plugins name ps marked,
    )

init_plugins-plugins : (ps : List Plugin) (r : Registry) → (init_plugins ps r).0.plugins ≡ r.plugins
unfolding init_plugins note mark_degraded
init_plugins-plugins [] r = refl
init_plugins-plugins (p ∷ ps) r =
    let r' = note (init_step p.name) r in
    ground (
      arith,
      init_plugins-plugins ps r',
      init_plugins-plugins ps (mark_degraded p.name init_failed r'),
    )

some_of-fails :
    (name : String) (ps : List Plugin)
    → (some_of (init_fails name) ps || some_of (start_fails name) ps) ≡ some_of (fails name) ps
unfolding some_of
some_of-fails name [] = refl
some_of-fails name (p ∷ ps) = ground (arith, some_of-fails name ps)

is_degraded-fresh : (name : String) (r : Registry) → r.degraded ≡ [] → is_degraded name r ≡ false
unfolding is_degraded lookup
is_degraded-fresh name r fresh = rw (fresh, is_degraded) refl

-- Where neither InitAll nor StartAll fails on plugins that are fresh, a name is degraded exactly if
-- some plugin of that name fails to initialise or to start.
pub startup-is_degraded :
    (name : String) (r : Registry)
    → r.degraded ≡ []
    → (init_all r).1 ≡ none
    → (start_all (init_all r).0).1 ≡ none
    → is_degraded name (start_all (init_all r).0).0 ≡ some_of (fails name) r.plugins
unfolding init_all start_all
startup-is_degraded name r fresh initialised started =
    let inits = is_degraded-init_plugins name r.plugins r initialised in
    let same = init_plugins-plugins r.plugins r in
    let starts =
      is_degraded-start_plugins name (init_plugins r.plugins r).0.plugins
        (init_plugins r.plugins r).0 started in
    let clean : is_degraded name r ≡ false = is_degraded-fresh name r fresh in
    starts ∙ rw (same, inits, clean) (some_of-fails name r.plugins)

abbrev critical_init_fails : Plugin → Bool
critical_init_fails p = p.critical && not p.inits

init_plugins_iff :
    (ps : List Plugin) (r : Registry)
    → ((init_plugins ps r).1 ≡ none) ↔ (some_of critical_init_fails ps ≡ false)
unfolding init_plugins some_of
init_plugins_iff [] r = ground arith
init_plugins_iff (p ∷ ps) r =
    let r' = note (init_step p.name) r in
    ground
      (arith, init_plugins_iff ps r', init_plugins_iff ps (mark_degraded p.name init_failed r'))

-- InitAll fails exactly if a critical plugin fails to initialise.
init_all_iff :
    (r : Registry) → ((init_all r).1 ≡ none) ↔ (some_of critical_init_fails r.plugins ≡ false)
unfolding init_all
init_all_iff r = init_plugins_iff r.plugins r

-- The calls of Stop on the plugins, last first.
unfoldable stops_reversed : List Plugin → List Step
stops_reversed [] = []
stops_reversed (p ∷ ps) = stops_reversed ps ++ stop_step p.name ∷ []

stop_plugins-steps :
    (ps : List Plugin) (r : Registry) → (stop_plugins ps r).0.steps ≡ r.steps ++ stops_reversed ps
unfolding stop_plugins stops_reversed note
stop_plugins-steps [] r = sym (append-nil r.steps)
stop_plugins-steps (p ∷ ps) r =
    rw (stop_plugins-steps ps r) (append_assoc r.steps (stops_reversed ps) (stop_step p.name ∷ []))

append-is_nil : (xs ys : List String) → (xs ++ ys ≡ []) ↔ ((xs ≡ []) × (ys ≡ []))
append-is_nil [] ys = ground arith
append-is_nil (x ∷ xs) ys = (λ h. cc, λ h. absurd (ground arith))

stop_plugins_iff :
    (ps : List Plugin) (r : Registry)
    → ((stop_plugins ps r).1 ≡ []) ↔ (some_of (λ p. not p.stops) ps ≡ false)
unfolding stop_plugins some_of
stop_plugins_iff [] r = ground arith
stop_plugins_iff (p ∷ ps) r =
    ground (arith, stop_plugins_iff ps r, append-is_nil (stop_plugins ps r).1 (p.name ∷ []))

-- StopAll calls Stop on every plugin, the last registered first, whatever the calls before it
-- returned.
stop_all-steps : (r : Registry) → (stop_all r).0.steps ≡ r.steps ++ stops_reversed r.plugins
unfolding stop_all
stop_all-steps r = stop_plugins-steps r.plugins r
