-- ===== src/Breaker/Events.antt =====
-- internal/adapters/resilience/circuit_breaker.go: which transitions are announced.
use vibewarden.Prelude.{◌≡◌, ◌≢◌, List, [], ◌∷◌, ◌++◌, arith, append-nil}
use vibewarden.Breaker.{State, closed, opened, half_open, Config}
use vibewarden.Breaker.{Op, check, success, failure, apply}
use vibewarden.Breaker.Adapter.{
  Event, opened_event, half_open_event, closed_event, InMemoryCircuitBreaker, check_open,
  on_success, on_failure,
}

unfoldable pub call : Op → InMemoryCircuitBreaker → InMemoryCircuitBreaker
unfolding check_open on_success on_failure
call (check now) a = (check_open now a).0
call success a = on_success a
call (failure now) a = on_failure now a

-- What a transition from one state to another is to be announced by.
unfoldable pub announcement : Config → State → State → List Event
announcement cfg closed closed = []
announcement cfg opened opened = []
announcement cfg half_open half_open = []
announcement cfg _ closed = closed_event ∷ []
announcement cfg _ opened = opened_event cfg.threshold cfg.timeout ∷ []
announcement cfg _ half_open = half_open_event cfg.timeout ∷ []

-- Every call but a success of an open breaker changes the breaker as the domain entity says, and
-- emits and audits the announcement of the transition that it makes, and nothing else.
pub call_announces :
    (op : Op) (a : InMemoryCircuitBreaker)
    → (op ≡ success → a.cb.state ≢ opened)
    → ((call op a).cb ≡ apply op a.cb)
      × ((call op a).emitted ≡ a.emitted ++ announcement a.cb.cfg a.cb.state (call op a).cb.state)
      × ((call op a).audited ≡ a.audited ++ announcement a.cb.cfg a.cb.state (call op a).cb.state)
unfolding call announcement apply
call_announces (check now) a h = ground (arith, append-nil a.emitted, append-nil a.audited)
call_announces success a h = ground (arith, append-nil a.emitted, append-nil a.audited)
call_announces (failure now) a h = ground (arith, append-nil a.emitted, append-nil a.audited)

-- A success that is recorded while the breaker is open closes it at once, without an event, an
-- audit event or an update of the gauge.
opened-success_silent :
    (a : InMemoryCircuitBreaker)
    → a.cb.state ≡ opened
    → ((call success a).cb.state ≡ closed)
      × ((call success a).emitted ≡ a.emitted)
      × ((call success a).audited ≡ a.audited)
      × ((call success a).gauge ≡ a.gauge)
unfolding call
opened-success_silent a h = ground arith
