-- ===== src/Egress/Attempts/Answers.antt =====
-- internal/adapters/egress/proxy_forward.go, executeWithRetries: how many attempts a request makes,
-- and which reply it returns.
use vibewarden.Prelude.{
  ℕ, zero, suc, ◌+◌, ◌≤◌, ◌≡◌, ◌⊎◌, refl, inl, inr, arith, List, [], ◌∷◌, ◌++◌, false, Option, none,
  some, Result, ok, err, length, length-append,
}
use vibewarden.Prelude.Text.{Text}
use vibewarden.Egress.Route.{Route}
use vibewarden.Egress.Breakers.{Registry}
use vibewarden.Egress.Bodies.{RequestBody, after_attempt}
use vibewarden.Egress.Retry.{
  response, Upstream, ForwardError, Trace, Run, note_sent, Plan, after_reply, attempts_from,
  max_retries, execute_with_retries, should_retry_status,
}
use vibewarden.Egress.Attempts.{note_failure-sent, GoesOn, after_reply-ends}

-- A status that the loop returns is the reply to its last attempt, with the body that was sent last,
-- and either no more attempts are allowed or it is not a transient one.
abbrev pub Replied : Upstream → ℕ → ℕ → List RequestBody → Result ForwardError ℕ → Type 0
Replied up limit last sent (ok code) =
    ((earlier : List RequestBody) × (body : RequestBody) × (sent ≡ earlier ++ body ∷ [])
      × ((up.sends last body).0 ≡ response code))
    × ((last ≡ limit) ⊎ (should_retry_status code ≡ false))
Replied up limit last sent (err e) = Unit

module _ (up : Upstream) (plan : Plan) (route : Option Route) where
  -- A run from attempt n on makes at least that one and at most the limit, with one body sent for
  -- each on top of those that were sent before.
  Answers : ℕ → ℕ → ℕ → Run → Type 0
  Answers n limit before (t, last, result) =
      (n ≤ last)
      × (last ≤ limit)
      × (length t.sent + n ≡ before + last + 1)
      × Replied up limit last t.sent result

  Answers-Ends :
      (n limit before : ℕ) (next : Option (RequestBody → Trace → Run)) (rest body : RequestBody)
      (earlier : List RequestBody) (t : Trace)
      → n ≤ limit
      → (next ≡ none → n ≡ limit)
      → t.sent ≡ earlier ++ body ∷ []
      → length t.sent ≡ before + 1
      → GoesOn up plan route (Answers n limit before) next rest t
      → Answers n limit before (after_reply up plan route n next rest t (up.sends n body).0)
  unfolding Answers
  Answers-Ends n limit before next rest body earlier t le last_one sent count goes_on =
      let late = note_failure-sent (up.clock n) route t in
      after_reply-ends up plan route (Answers n limit before) n next rest t (up.sends n body).0 (
        λ status same ending. (
          omega arith,
          le,
          omega arith,
          ((earlier, body, sent, same), elim ending [ inl h ↦ inl (last_one h) | inr h ↦ inr h ]),
        ),
        λ e. (omega arith, le, omega arith, tt),
        (omega arith, le, omega arith, tt),
        λ e. rw late (omega arith, le, omega arith, tt),
        rw late (omega arith, le, omega arith, tt),
        goes_on,
      )

  Answers-later :
      (n limit before : ℕ) (r : Run)
      → Answers (n + 1) limit (before + 1) r
      → Answers n limit before r
  unfolding Answers
  Answers-later n limit before (t, last, result) (le, ge, count, replied) =
      (omega arith, ge, omega arith, replied)

  attempts_from-Answers :
      (more n limit before : ℕ) (body : RequestBody) (t : Trace)
      → limit ≡ n + more
      → length t.sent ≡ before
      → Answers n limit before (attempts_from up plan route more n body t)
  unfolding attempts_from note_sent
  attempts_from-Answers zero n limit before body t bound count =
      let (reply, taken) = up.sends n body in
      let one = length-append t.sent (body ∷ []) in
      Answers-Ends n limit before none (after_attempt taken body) body t.sent (note_sent body t)
        (omega arith) (λ h. omega arith) refl (omega arith) tt
  attempts_from-Answers (suc more) n limit before body t bound count =
      let (reply, taken) = up.sends n body in
      let t' = note_sent body t in
      let later = attempts_from up plan route more (n + 1) in
      let one = length-append t.sent (body ∷ []) in
      Answers-Ends n limit before (some later) (after_attempt taken body) body t.sent t'
        (omega arith) (λ h. cc) refl (omega arith)
        (Answers-later n limit before (later (after_attempt taken body) t') (
          attempts_from-Answers more (n + 1) limit (before + 1) (after_attempt taken body) t'
            (omega arith) (omega arith)))

-- A request makes one attempt and at most as many retries as its route allows for its method, and
-- sends one body in each. A status that it returns is the reply to its last attempt, with the body that
-- was sent last, and this attempt was the last one allowed or the status is not a transient one.
pub execute_with_retries-answers :
    (up : Upstream) (method : Text) (body : RequestBody) (route : Option Route)
    (registry : Registry)
    → let (t, last, result) = execute_with_retries up method body route registry in
      (1 ≤ last)
      × (last ≤ 1 + max_retries method route)
      × (length t.sent ≡ last)
      × Replied up (1 + max_retries method route) last t.sent result
unfolding execute_with_retries Answers
execute_with_retries-answers up method body route registry =
    let (le, ge, count, replied) =
      attempts_from-Answers up _ route (max_retries method route) 1 (1 + max_retries method route) 0
        body (record { registry = registry; sent = [] }) refl refl in
    (le, ge, omega arith, replied)
