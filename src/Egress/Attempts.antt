-- ===== src/Egress/Attempts.antt =====
-- internal/adapters/egress/proxy_forward.go, executeWithRetries: the ways in which the loop can end.
pub mod Answers
pub mod Backoff
pub mod Outcomes
use vibewarden.Prelude.{
  ℕ, zero, suc, ◌+◌, ◌-◌, ◌*◌, ◌^◌, ◌≤◌, ◌<◌, ◌≡◌, ◌⊎◌, refl, ap, inl, inr, Bool-cases, arith, List,
  [], ◌∷◌, ◌++◌, Bool, true, false, ◌&&◌, Option, none, some, Result, ok, err, length, replicate,
  length-append, append_assoc, append-nil, sym, ◌∙◌, if◌then◌else◌,
}
use vibewarden.Prelude.Text.{Text}
use vibewarden.Egress.Route.{Route, RetryBackoff, fixed, exponential}
use vibewarden.Egress.Breakers.{Registry, registry_record_failure}
use vibewarden.Egress.Bodies.{RequestBody}
use vibewarden.Egress.Retry.{
  Reply, response, failed, TransportError, Upstream, ForwardError, mtls_failed, cancelled,
  transport_failed, Trace, Run, note_failure, note_sent, classify_transport_error, Plan,
  after_reply, attempts_from, retry_enabled, max_retries, execute_with_retries, should_retry_status,
  compute_backoff, has_mtls,
}

pub note_failure-sent :
    (now : ℕ) (route : Option Route) (t : Trace) → (note_failure now route t).sent ≡ t.sent
unfolding note_failure
note_failure-sent now none t = refl
note_failure-sent now (some route) t = refl

classify_cases :
    (now : ℕ) (route : Option Route) (e : TransportError) (t : Trace)
    → (classify_transport_error now route e t ≡ some (t, mtls_failed e))
      ⊎ (classify_transport_error now route e t
          ≡ some (note_failure now route t, transport_failed e))
      ⊎ (classify_transport_error now route e t ≡ none)
unfolding classify_transport_error
classify_cases now route e t = ground arith

-- Something true of a run, if it is true of every way in which a round can end and of the rounds
-- that come after it.
module _ (up : Upstream) (plan : Plan) (route : Option Route) (P : Run → Type 0) where
  abbrev pub GoesOn : Option (RequestBody → Trace → Run) → RequestBody → Trace → Type 0
  GoesOn none rest t = Unit
  GoesOn (some continue) rest t = P (continue rest t)

  abbrev Ends : ℕ → Option (RequestBody → Trace → Run) → RequestBody → Trace → Reply → Type 0
  Ends n next rest t reply =
      ((code : ℕ)
        → reply ≡ response code
        → (next ≡ none) ⊎ (should_retry_status code ≡ false)
        → P (t, n, ok code))
      × ((e : TransportError) → P (t, n, err (mtls_failed e)))
      × P (t, n, err cancelled)
      × ((e : TransportError) → P (note_failure (up.clock n) route t, n, err (transport_failed e)))
      × P (note_failure (up.clock n) route t, n, err cancelled)
      × GoesOn next rest t

  pub after_reply-ends :
      (n : ℕ) (next : Option (RequestBody → Trace → Run)) (rest : RequestBody) (t : Trace)
      (reply : Reply)
      → Ends n next rest t reply
      → P (after_reply up plan route n next rest t reply)
  unfolding after_reply
  after_reply-ends n none rest t (response code)
        (h_ok, h_mtls, h_cancelled, h_failed, h_late, h_next) =
      h_ok code refl (inl refl)
  after_reply-ends n (some continue) rest t (response code)
        (h_ok, h_mtls, h_cancelled, h_failed, h_late, h_next) =
      elim (Bool-cases (should_retry_status code)) [
        | inl again ↦
            elim (Bool-cases (up.outlives_wait n (compute_backoff plan.strategy plan.base n))) [
              | inl waited ↦ rw (again, waited) h_next
              | inr late ↦ rw (again, late) h_cancelled
            ]
        | inr settled ↦ rw settled (h_ok code refl (inr settled))
      ]
  after_reply-ends n none rest t (failed e) (h_ok, h_mtls, h_cancelled, h_failed, h_late, h_next) =
      elim (classify_cases (up.clock n) route e t) [
        | inl mtls ↦ rw (mtls, after_reply) (h_mtls e)
        | inr (inl timeout) ↦ rw (timeout, after_reply) (h_failed e)
        | inr (inr transient) ↦ rw (transient, after_reply) (h_failed e)
      ]
  after_reply-ends n (some continue) rest t (failed e)
        (h_ok, h_mtls, h_cancelled, h_failed, h_late, h_next) =
      elim (classify_cases (up.clock n) route e t) [
        | inl mtls ↦ rw (mtls, after_reply) (h_mtls e)
        | inr (inl timeout) ↦ rw (timeout, after_reply) (h_failed e)
        | inr (inr transient) ↦
            elim (Bool-cases (up.outlives_wait n (compute_backoff plan.strategy plan.base n))) [
              | inl waited ↦ rw (transient, waited, after_reply) h_next
              | inr late ↦ rw (transient, late, after_reply) h_late
            ]
      ]
