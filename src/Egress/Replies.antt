-- ===== src/Egress/Replies.antt =====
-- internal/adapters/egress/proxy.go, HandleRequest: what is checked of a response before it is given.
use vibewarden.Prelude.{
  either_branch, ◌++◌, ◌∷◌, List, sym, append_assoc, ℕ, ◌+◌, ◌≤◌, [], length, length-append, true,
  ◌&&◌, ◌≡◌, ◌⊎◌, ◌∙◌, ap, inl, inr, refl, arith, leb, Bool-cases, some_of, Option, none, some,
  Result, ok, err,
}
use vibewarden.Prelude.Dict.{Dict}
use vibewarden.Prelude.Text.{Text, text_eq, to_lower}
use vibewarden.Egress.Route.{
  Route, match_status_code_expr, matches_status_code, matches_content_type, is_zero_validation,
  media_type, trim_space,
}
use vibewarden.Egress.Bodies.{RequestBody}
use vibewarden.Egress.Resolver.{EgressRequest}
use vibewarden.Egress.Cache.{CacheEntry, ResponseCache, get, Body, stream}
use vibewarden.Egress.Retry.{
  response, Trace, ForwardError, execute_with_retries, max_retries, record_circuit_outcome,
}
use vibewarden.Egress.Attempts.{note_failure-sent}
use vibewarden.Egress.Attempts.Answers.{Replied, execute_with_retries-answers}
use vibewarden.Egress.Proxy.{Env, HandleError, Response, ProxyState, Handler, cache_for}
use vibewarden.Egress.Handler.{
  validate_response, response_is_valid, take_answer, forward, put, keep, answer, call_upstream,
}

-- The entry that the route's cache has for the request.
unfoldable pub cached_entry : ℕ → EgressRequest → Route → Dict ResponseCache → Option CacheEntry
cached_entry now req route caches = elim (cache_for route caches) [
  | none ↦ none
  | some cache ↦ (get req.method req.url now cache).1
]

-- The rules that a route has: no list of status codes or one with an expression that fits, and no
-- list of content types or one with the media type.
abbrev Obeys : Option Route → ℕ → Text → Type 0
Obeys none code content_type = Unit
Obeys (some route) code content_type =
    let v = route.validate_response in
    ((v.status_codes ≡ [])
      ⊎ (some_of (λ expr. match_status_code_expr expr code) v.status_codes ≡ true))
    × ((v.content_types ≡ [])
        ⊎ (some_of (λ allowed. text_eq (to_lower (trim_space allowed)) (media_type content_type))
              v.content_types
            ≡ true))

module _ (env : Env) (req : EgressRequest) (before : ProxyState) where
  -- The response is the entry of the route's cache for the request.
  abbrev IsCached : Option Route → Response → Type 0
  IsCached none r = ⊥
  IsCached (some route) r =
      (entry : CacheEntry) × (cached_entry env.now req route before.caches ≡ some entry)
      × (r ≡ record { status_code = entry.status_code; body = stream entry.body })

  -- With n attempts made, the response has the status of the reply to the last of them, with the body
  -- that was sent last, one from 100 to 599, that obeys the rules of the route with the content type of that reply.
  abbrev IsReply : Option Route → ProxyState → Response → Type 0
  IsReply route after r =
      (n : ℕ) × (1 ≤ n)
      × (length after.sent ≡ length before.sent + n)
      × ((earlier : List RequestBody) × (body : RequestBody) × (after.sent ≡ earlier ++ body ∷ [])
          × ((env.upstream.sends n body).0 ≡ response r.status_code))
      × (100 ≤ r.status_code)
      × (r.status_code ≤ 599)
      × Obeys route r.status_code (env.content_type_of n)

  abbrev pub IsChecked : Option Route → ProxyState × Result HandleError Response → Type 0
  IsChecked route (after, err e) = Unit
  IsChecked route (after, ok r) = IsCached route r ⊎ IsReply route after r

  -- A handler that only gives responses that are checked, and one with the cache asked before.
  abbrev pub Checks : Option Route → Handler → Type 0
  Checks route next =
      (s : ProxyState) → s.caches ≡ before.caches → s.sent ≡ before.sent → IsChecked route (next s)

  abbrev pub ChecksReplies : Option Route → Handler → Type 0
  ChecksReplies route next = (s : ProxyState) → s.sent ≡ before.sent → IsChecked route (next s)

validate_response-Obeys :
    (route : Option Route) (code : ℕ) (content_type : Text)
    → response_is_valid route code content_type ≡ true
    → Obeys route code content_type
unfolding response_is_valid validate_response matches_status_code matches_content_type
    is_zero_validation
validate_response-Obeys none code content_type h = tt
validate_response-Obeys (some route) code content_type h = ground arith

record_circuit_outcome-sent :
    (now : ℕ) (route : Option Route) (code : ℕ) (t : Trace)
    → (record_circuit_outcome now route code t).sent ≡ t.sent
unfolding record_circuit_outcome
record_circuit_outcome-sent now none code t = refl
record_circuit_outcome-sent now (some route) code t =
    ground (arith, note_failure-sent now (some route) t)

keep_lem :
    (now : ℕ) (req : EgressRequest) (route : Option Route) (code : ℕ) (body : Body) (s : ProxyState)
    → ((keep now req route code body s).1.status_code ≡ code)
      × ((keep now req route code body s).0.sent ≡ s.sent)
unfolding keep put
keep_lem now req none code body s = (refl, refl)
keep_lem now req (some route) code body s = ground arith

module _ (env : Env) (req : EgressRequest) (before : ProxyState) where
  -- An answer of the upstream to attempt n, which is the last one, with a status from 100 to 599.
  IsAnswered : ProxyState × Result HandleError (ℕ × ℕ) → Type 0
  IsAnswered (after, err e) = Unit
  IsAnswered (after, ok (code, n)) =
      (1 ≤ n)
      × (length after.sent ≡ length before.sent + n)
      × ((earlier : List RequestBody) × (body : RequestBody) × (after.sent ≡ earlier ++ body ∷ [])
          × ((env.upstream.sends n body).0 ≡ response code))
      × (100 ≤ code)
      × (code ≤ 599)

  answer-IsChecked :
      (limited : EgressRequest) (route : Option Route) (a : ProxyState × Result HandleError (ℕ × ℕ))
      → IsAnswered a
      → IsChecked env req before route (answer env limited route a)
  unfolding answer IsAnswered
  answer-IsChecked limited route (s, err e) answered = tt
  answer-IsChecked limited route (s, ok (code, n)) (one, count, replied, low, high) =
      elim (Bool-cases (response_is_valid route code (env.content_type_of n))) [
        | inr invalid ↦ rw (invalid, answer) tt
        | inl valid ↦
            let (same, sent) = keep_lem env.answered_at limited route code (env.body_of n) s in
            let obeys = validate_response-Obeys route code (env.content_type_of n) valid in
            rw (valid, answer, same, sent) (inr (n, one, count, replied, low, high, obeys))
      ]

  take_answer-IsAnswered :
      (route : Option Route) (limit : ℕ) (s : ProxyState) (r : Trace × ℕ × Result ForwardError ℕ)
      → s.sent ≡ before.sent
      → 1 ≤ r.1
      → length r.0.sent ≡ r.1
      → Replied env.upstream limit r.1 r.0.sent r.2
      → IsAnswered (take_answer env route s r)
  unfolding take_answer IsAnswered
  take_answer-IsAnswered route limit s (t, n, err e) same one count replied = tt
  take_answer-IsAnswered route limit s (t, n, ok code) same one count
        ((earlier, body, last, reply), ending) =
      elim (Bool-cases (leb 100 code && leb code 599)) [
        | inl known ↦
            let noted = record_circuit_outcome-sent env.answered_at route code t in
            let split : before.sent ++ t.sent ≡ (before.sent ++ earlier) ++ body ∷ [] =
              ap (λ l. before.sent ++ l) last
              ∙ sym (append_assoc before.sent earlier (body ∷ [])) in
            let both = length-append before.sent t.sent in
            rw (known, take_answer, noted, same)
              (
                one,
                both ∙ ap (λ k. length before.sent + k) count,
                (before.sent ++ earlier, body, split, reply),
                ground arith,
                ground arith,
              )
        | inr unknown ↦ rw (unknown, take_answer) tt
      ]

  forward-IsAnswered :
      (limited : EgressRequest) (route : Option Route) (s : ProxyState)
      → s.sent ≡ before.sent
      → IsAnswered (forward env limited route s)
  unfolding forward IsAnswered
  forward-IsAnswered limited route s same =
      let run = execute_with_retries env.upstream limited.method limited.body route s.registry in
      let (one, bound, count, replied) =
        execute_with_retries-answers env.upstream limited.method limited.body route s.registry in
      either_branch (λ (a : ProxyState × Result HandleError (ℕ × ℕ)). IsAnswered a) env.prepares _ _
        (take_answer-IsAnswered route (1 + max_retries limited.method route) s run same one count
          replied)
        tt

  pub call_upstream-Checks :
      (route : Option Route) (limited : EgressRequest)
      → ChecksReplies env req before route (call_upstream env route limited)
  unfolding call_upstream
  call_upstream-Checks route limited s same =
      answer-IsChecked limited route (forward env limited route s)
        (forward-IsAnswered limited route s same)
