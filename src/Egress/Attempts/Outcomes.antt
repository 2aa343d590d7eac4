-- ===== src/Egress/Attempts/Outcomes.antt =====
-- internal/adapters/egress/proxy_forward.go, executeWithRetries: what the attempts tell the breaker.
use vibewarden.Prelude.{
  ℕ, zero, suc, ◌+◌, ◌≡◌, ◌⊎◌, refl, inl, inr, Option, none, some, Result, ok, err,
}
use vibewarden.Prelude.Text.{Text}
use vibewarden.Egress.Route.{Route}
use vibewarden.Egress.Breakers.{Registry, registry_record_failure}
use vibewarden.Egress.Bodies.{RequestBody, after_attempt}
use vibewarden.Egress.Retry.{
  Reply, Upstream, ForwardError, mtls_failed, cancelled, transport_failed, Trace, Run, note_failure,
  note_sent, Plan, after_reply, attempts_from, max_retries, execute_with_retries,
}
use vibewarden.Egress.Attempts.{GoesOn, after_reply-ends}

pub failure_in : ℕ → Option Route → Registry → Registry
failure_in now none before = before
failure_in now (some route) before = registry_record_failure now route before

note_failure-failure_in :
    (now : ℕ) (route : Option Route) (t : Trace)
    → (note_failure now route t).registry ≡ failure_in now route t.registry
unfolding note_failure failure_in
note_failure-failure_in now none t = refl
note_failure-failure_in now (some route) t = refl

-- The breakers after the loop that has ended at an attempt with this result: those before it, or
-- with one failure of the route.
abbrev pub Outcome :
    Upstream → Option Route → Registry → Registry → ℕ → Result ForwardError ℕ → Type 0
Outcome up route before after last (ok code) = after ≡ before
Outcome up route before after last (err (mtls_failed e)) = after ≡ before
Outcome up route before after last (err cancelled) =
    (after ≡ before) ⊎ (after ≡ failure_in (up.clock last) route before)
Outcome up route before after last (err (transport_failed e)) =
    after ≡ failure_in (up.clock last) route before

module _ (up : Upstream) (plan : Plan) (route : Option Route) where
  unfoldable Settles : Registry → Run → Type 0
  Settles before (t, last, result) = Outcome up route before t.registry last result

  Settles-Ends :
      (n : ℕ) (next : Option (RequestBody → Trace → Run)) (rest : RequestBody) (t : Trace)
      (reply : Reply)
      → GoesOn up plan route (Settles t.registry) next rest t
      → Settles t.registry (after_reply up plan route n next rest t reply)
  unfolding Settles
  Settles-Ends n next rest t reply goes_on =
      let noted = note_failure-failure_in (up.clock n) route t in
      after_reply-ends up plan route (Settles t.registry) n next rest t reply
        (λ code same last. refl, λ e. refl, inl refl, λ e. noted, inr noted, goes_on)

  attempts_from-Settles :
      (more n : ℕ) (body : RequestBody) (t : Trace)
      → Settles t.registry (attempts_from up plan route more n body t)
  unfolding attempts_from note_sent
  attempts_from-Settles zero n body t =
      let (reply, taken) = up.sends n body in
      Settles-Ends n none (after_attempt taken body) (note_sent body t) reply tt
  attempts_from-Settles (suc more) n body t =
      let (reply, taken) = up.sends n body in
      Settles-Ends n (some (attempts_from up plan route more (n + 1))) (after_attempt taken body)
        (note_sent body t) reply
        (attempts_from-Settles more (n + 1) (after_attempt taken body) (note_sent body t))

-- The attempts record at most one outcome with the route's breaker, a failure. One that ends with a
-- status records none, one that ends with a transport error or a timeout records it, one that ends
-- with a failed handshake of mutual TLS does not, and one that is cancelled in a wait may.
pub execute_with_retries-outcome :
    (up : Upstream) (method : Text) (body : RequestBody) (route : Option Route)
    (registry : Registry)
    → let (t, last, result) = execute_with_retries up method body route registry in
      Outcome up route registry t.registry last result
unfolding execute_with_retries Settles
execute_with_retries-outcome up method body route registry =
    attempts_from-Settles up _ route (max_retries method route) 1 body _
