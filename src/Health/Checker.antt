-- ===== src/Health/Checker.antt =====
-- internal/adapters/health/checker.go: the probes of the upstream in the background, with the events
-- and the gauge that a transition produces. The answer to a probe is a parameter of it; one goroutine
-- makes them, so that they follow one another.
use vibewarden.Prelude.{
  ℕ, ◌≡◌, ◌≢◌, ◌∙◌, sym, ap, refl, arith, ltb, leb, Bool, true, false, ◌&&◌, String, List, [], ◌∷◌,
  ◌++◌, Option, some, Result, ok, err, Bool-cases, if◌then◌else◌, inl, inr,
}
use vibewarden.Health.{UpstreamStatus, UpstreamHealth, record_success, record_failure, is_healthy}

pub record HealthChanged : Type 0 where
  pub previous_status : UpstreamStatus
  pub new_status : UpstreamStatus
  pub consecutive_count : ℕ
  pub last_error : String

-- The gauge is `none` until it is first set.
pub record Checker : Type 0 where
  pub entity : UpstreamHealth
  pub gauge : Option Bool

announce :
    Bool → UpstreamStatus → ℕ → String → UpstreamHealth → Checker → Checker × List HealthChanged
announce true previous count last_error u c = (
  record c { entity = u; gauge = some (is_healthy u.status) },
  record {
    previous_status = previous;
    new_status = u.status;
    consecutive_count = count;
    last_error = last_error;
  }
      ∷ [],
)
announce false previous count last_error u c = (record c { entity = u }, [])

unfoldable pub on_success : ℕ → Checker → Checker × List HealthChanged
unfolding announce
on_success now c =
    let (u, previous, transitioned) = record_success now c.entity in
    announce transitioned previous u.successes "" u c

unfoldable pub on_failure : ℕ → String → Checker → Checker × List HealthChanged
unfolding announce
on_failure now message c =
    let (u, previous, transitioned) = record_failure now message c.entity in
    announce transitioned previous u.failures message u c

-- The answer is an error, or a status with the message that another one than 2xx makes.
unfoldable pub probe : ℕ → Result String (ℕ × String) → Checker → Checker × List HealthChanged
unfolding on_success on_failure
probe now (err message) c = on_failure now message c
probe now (ok (status, message)) c =
    if leb 200 status && ltb status 300 then on_success now c else on_failure now message c

unfoldable pub probe_loop :
    List (ℕ × Result String (ℕ × String)) → Checker → Checker × List HealthChanged
probe_loop [] c = (c, [])
probe_loop ((now, answer) ∷ answers) c =
    let (c', es) = probe now answer c in let (end, fs) = probe_loop answers c' in (end, es ++ fs)

-- Each event begins where the one before it ended, and tells of a change.
abbrev pub Chain : UpstreamStatus → List HealthChanged → UpstreamStatus → Type 0
Chain from [] to = from ≡ to
Chain from (e ∷ es) to =
    (e.previous_status ≡ from) × (e.previous_status ≢ e.new_status) × Chain e.new_status es to

-- What the gauge is after events: whether the state that the last of them entered is healthy, and as
-- it was if there are none.
abbrev pub shown_after : List HealthChanged → Option Bool → Option Bool
shown_after [] gauge = gauge
shown_after (e ∷ es) gauge = shown_after es (some (is_healthy e.new_status))

shown_after-append :
    (es fs : List HealthChanged) (gauge : Option Bool)
    → shown_after (es ++ fs) gauge ≡ shown_after fs (shown_after es gauge)
shown_after-append [] fs gauge = refl
shown_after-append (e ∷ es) fs gauge = shown_after-append es fs (some (is_healthy e.new_status))

Chain-append :
    (es fs : List HealthChanged) (a b c : UpstreamStatus)
    → Chain a es b
    → Chain b fs c
    → Chain a (es ++ fs) c
Chain-append [] fs a b c h k = rw h k
Chain-append (e ∷ es) fs a b c h k = (h.0, h.1, Chain-append es fs e.new_status b c h.2 k)

on_success_lem :
    (now : ℕ) (c : Checker)
    → Chain c.entity.status (on_success now c).1 (on_success now c).0.entity.status
      × ((on_success now c).0.gauge ≡ shown_after (on_success now c).1 c.gauge)
unfolding on_success record_success
on_success_lem now c = ground arith

on_failure_lem :
    (now : ℕ) (message : String) (c : Checker)
    → Chain c.entity.status (on_failure now message c).1 (on_failure now message c).0.entity.status
      × ((on_failure now message c).0.gauge ≡ shown_after (on_failure now message c).1 c.gauge)
unfolding on_failure record_failure
on_failure_lem now message c = ground arith

probe_lem :
    (now : ℕ) (answer : Result String (ℕ × String)) (c : Checker)
    → Chain c.entity.status (probe now answer c).1 (probe now answer c).0.entity.status
      × ((probe now answer c).0.gauge ≡ shown_after (probe now answer c).1 c.gauge)
unfolding probe
probe_lem now (err message) c = on_failure_lem now message c
probe_lem now (ok (status, message)) c = elim (Bool-cases (leb 200 status && ltb status 300)) [
  | inl e ↦ rw e (on_success_lem now c)
  | inr e ↦ rw e (on_failure_lem now message c)
]

-- Over any probes the events form a chain of changes from the state before to the state after, and the
-- gauge shows whether the state that the last event entered is healthy; without an event it is kept.
pub probe_loop-Chain :
    (answers : List (ℕ × Result String (ℕ × String))) (c : Checker)
    → Chain c.entity.status (probe_loop answers c).1 (probe_loop answers c).0.entity.status
      × ((probe_loop answers c).0.gauge ≡ shown_after (probe_loop answers c).1 c.gauge)
unfolding probe_loop
probe_loop-Chain [] c = (refl, refl)
probe_loop-Chain ((now, answer) ∷ answers) c =
    let (chained, shown) = probe_lem now answer c in
    let c' = (probe now answer c).0 in
    let es = (probe now answer c).1 in
    let fs = (probe_loop answers c').1 in
    let (later, last) = probe_loop-Chain answers c' in
    (
      Chain-append es fs c.entity.status c'.entity.status (probe_loop answers c').0.entity.status
          chained later,
      last ∙ ap (λ gauge. shown_after fs gauge) shown ∙ sym (shown_after-append es fs c.gauge),
    )
