-- ===== src/Egress/Handler.antt =====
-- internal/adapters/egress/proxy.go, HandleRequest: the upstream call, what is checked of its
-- response and what is kept of it, and the whole of the request's way.
use vibewarden.Prelude.{
  ℕ, leb, List, [], ◌∷◌, ◌++◌, Bool, true, false, not, ◌&&◌, Option, none, some, Result, ok, err,
  if◌then◌else◌,
}
use vibewarden.Prelude.Text.{Text}
use vibewarden.Prelude.Dict.{insert}
use vibewarden.Egress.Route.{
  Route, ResponseValidationConfig, matches_status_code, matches_content_type, is_zero_validation,
}
use vibewarden.Egress.Resolver.{EgressRequest, resolve}
use vibewarden.Egress.Cache.{
  CacheEntry, ResponseCache, set, is_cacheable, Body, stream, failing, cacheable_response,
}
use vibewarden.Egress.Retry.{
  ForwardError, cancelled, mtls_failed, transport_failed, Trace, execute_with_retries,
  record_circuit_outcome,
}
use vibewarden.Egress.Proxy.{
  ProxyConfig, Env, HandleError, body_too_large, preparation_failed, bad_status, validation_failed,
  forward_failed, Response, ProxyState, Handled, Handler, check_policy, check_insecure,
  check_breaker, check_rate, check_cache, check_body, cache_for,
}

-- The error that HandleRequest makes of one of the upstream call.
unfoldable pub handle_forward_error : ForwardError → HandleError
handle_forward_error cancelled = forward_failed cancelled
handle_forward_error (mtls_failed e) =
    if e.is_body_too_large then body_too_large else forward_failed (mtls_failed e)
handle_forward_error (transport_failed e) =
    if e.is_body_too_large then body_too_large else forward_failed (transport_failed e)

-- A response of the upstream, with the number of the attempt that it answers.
abbrev Answered : Type 0
Answered = ProxyState × Result HandleError (ℕ × ℕ)

unfoldable pub take_answer :
    Env → Option Route → ProxyState → Trace × ℕ × Result ForwardError ℕ → Answered
unfolding record_circuit_outcome
take_answer env route s (t, last, err e) =
    (record s { registry = t.registry; sent = s.sent ++ t.sent }, err (handle_forward_error e))
take_answer env route s (t, last, ok code) =
    let t' = record_circuit_outcome env.answered_at route code t in
    let s' = record s { registry = t'.registry; sent = s.sent ++ t'.sent } in
    if leb 100 code && leb code 599 then (s', ok (code, last)) else (s', err bad_status)

unfoldable pub forward : Env → EgressRequest → Option Route → ProxyState → Answered
unfolding execute_with_retries
forward env req route s =
    if env.prepares
    then take_answer env route s
        (execute_with_retries env.upstream req.method req.body route s.registry)
    else (s, err preparation_failed)

unfoldable pub validate_response : ResponseValidationConfig → ℕ → Text → Bool
validate_response v code content_type =
    if is_zero_validation v
    then true
    else if not (matches_status_code v code)
    then false
    else matches_content_type v content_type

unfoldable pub response_is_valid : Option Route → ℕ → Text → Bool
unfolding validate_response
response_is_valid none code content_type = true
response_is_valid (some route) code content_type =
    validate_response route.validate_response code content_type

upstream_response : ℕ → Body → Response
upstream_response code body = record { status_code = code; body = body }

unfoldable pub put : Route → ResponseCache → Option CacheEntry → ProxyState → ProxyState
put route cache none s = s
put route cache (some entry) s = record s { caches = insert route.name (set entry cache) s.caches }

-- What the caller gets, and what the route's cache keeps of it.
unfoldable pub keep :
    ℕ → EgressRequest → Option Route → ℕ → Body → ProxyState → ProxyState × Response
unfolding put cache_for cacheable_response upstream_response
keep now req none code body s = (s, upstream_response code body)
keep now req (some route) code body s =
    if is_cacheable req.method code
    then elim (cache_for route s.caches) [
      | none ↦ (s, upstream_response code body)
      | some cache ↦ elim (cacheable_response code body route.cache req.method req.url now) [
        | none ↦ (s, upstream_response code (failing []))
        | some (entry, bytes) ↦ (put route cache entry s, upstream_response code (stream bytes))
      ]
    ]
    else (s, upstream_response code body)

give : ProxyState × Response → Handled
give (s, response) = (s, ok response)

unfoldable pub answer : Env → EgressRequest → Option Route → Answered → Handled
unfolding response_is_valid keep give
answer env req route (s, err e) = (s, err e)
answer env req route (s, ok (code, last)) =
    if response_is_valid route code (env.content_type_of last)
    then give (keep env.answered_at req route code (env.body_of last) s)
    else (s, err validation_failed)

unfoldable pub call_upstream : Env → Option Route → EgressRequest → Handler
unfolding forward answer
call_upstream env route req s = answer env req route (forward env req route s)

-- The way of a request whose route is resolved.
unfoldable pub handle_routed : ProxyConfig → Env → EgressRequest → Option Route → Handler
unfolding check_policy check_insecure check_breaker check_rate check_cache check_body call_upstream
handle_routed cfg env req route = check_policy cfg route (
    check_insecure cfg req.url route (
      check_breaker env.now route (
        check_rate env.rate route
          (check_cache env.now req route (check_body cfg req route (call_upstream env route))))))

unfoldable pub handle_request : ProxyConfig → Env → EgressRequest → Handler
unfolding handle_routed
handle_request cfg env req = handle_routed cfg env req (resolve cfg.routes req)

-- Requests one after another, each in its own circumstances.
unfoldable pub handle_all : ProxyConfig → List (Env × EgressRequest) → ProxyState → ProxyState
handle_all cfg [] s = s
handle_all cfg ((env, req) ∷ rest) s = handle_all cfg rest (handle_request cfg env req s).0
