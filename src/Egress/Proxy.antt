-- ===== src/Egress/Proxy.antt =====
-- internal/adapters/egress/proxy.go, HandleRequest: a request of the application, from its route to
-- its response. The rate limiter, the sanitizer, the secret store and the upstream are parameters;
-- headers, spans and metrics are left out, and of the log only the blocked requests are kept.
use vibewarden.Prelude.{
  ℕ, ◌-◌, ◌==◌, ◌^◌, ltb, leb, List, [], ◌∷◌, ◌++◌, Bool, true, false, not, ◌&&◌, ◌||◌, Option,
  none, some, Result, ok, err, if◌then◌else◌,
}
use vibewarden.Prelude.Int.{ℤ, pos, negsuc, pos_part, leb_ℤ, ltb_ℤ}
use vibewarden.Prelude.Text.{Text, text_of, has_prefix}
use vibewarden.Prelude.Dict.{Dict, lookup, insert}
use vibewarden.Egress.Route.{Route, digits_from}
use vibewarden.Egress.Bodies.{RequestBody, limit_body}
use vibewarden.Egress.Resolver.{EgressRequest}
use vibewarden.Egress.Cache.{CacheEntry, ResponseCache, new_response_cache, get, Body, stream}
use vibewarden.Egress.Breakers.{Registry, registry_is_open}
use vibewarden.Egress.Retry.{Upstream, ForwardError}

pub data Policy : Type 0 where
  allow deny : Policy

pub record ProxyConfig : Type 0 where
  pub routes : List Route
  pub default_policy : Policy
  pub allow_insecure : Bool
  pub default_body_size_limit : ℤ

pub data RateDecision : Type 0 where
  admits refuses rate_check_fails : RateDecision

-- What the world does with one request: the times at which it is checked and answered, what the
-- rate limiter says, whether prepareOutboundRequest and the building of the upstream request
-- succeed, the upstream, and the content type and the body of the reply to each attempt.
pub record Env : Type 0 where
  pub now : ℕ
  pub answered_at : ℕ
  pub rate : RateDecision
  pub prepares : Bool
  pub upstream : Upstream
  pub content_type_of : ℕ → Text
  pub body_of : ℕ → Body

pub data HandleError : Type 0 where
  denied_by_policy insecure_url circuit_open rate_limit_exceeded body_too_large : HandleError
  rate_check_failed breaker_check_failed preparation_failed : HandleError
  bad_status validation_failed : HandleError
  forward_failed : ForwardError → HandleError

pub data Blocked : Type 0 where
  no_route plain_http breaker_open : Blocked

pub record Response : Type 0 where
  pub status_code : ℕ
  pub body : Body

pub record ProxyState : Type 0 where
  pub registry : Registry
  pub caches : Dict ResponseCache
  pub sent : List RequestBody
  pub blocked : List Blocked

abbrev pub Handled : Type 0
Handled = ProxyState × Result HandleError Response

abbrev pub Handler : Type 0
Handler = ProxyState → Handled

block : Blocked → HandleError → Handler
block b e s = (record s { blocked = s.blocked ++ b ∷ [] }, err e)

unfoldable pub check_policy : ProxyConfig → Option Route → Handler → Handler
unfolding block
check_policy cfg (some route) next s = next s
check_policy cfg none next s = elim cfg.default_policy [
  | deny ↦ block no_route denied_by_policy s
  | allow ↦ next s
]

route_allows_insecure : Option Route → Bool
route_allows_insecure none = false
route_allows_insecure (some route) = route.allow_insecure

unfoldable pub is_insecure : ProxyConfig → Option Route → Text → Bool
unfolding route_allows_insecure
is_insecure cfg route url =
    has_prefix (text_of "http://") url
    && not (route_allows_insecure route)
    && not cfg.allow_insecure

unfoldable pub check_insecure : ProxyConfig → Text → Option Route → Handler → Handler
unfolding is_insecure block
check_insecure cfg url route next s =
    if is_insecure cfg route url then block plain_http insecure_url s else next s

unfoldable pub check_breaker : ℕ → Option Route → Handler → Handler
unfolding registry_is_open block
check_breaker now none next s = next s
check_breaker now (some route) next s = elim (registry_is_open now route s.registry) [
  | err e ↦ (s, err breaker_check_failed)
  | ok (registry, rejected) ↦
      let s' = record s { registry = registry } in
      if rejected then block breaker_open circuit_open s' else next s'
]

unfoldable pub check_rate : RateDecision → Option Route → Handler → Handler
check_rate rate none next s = next s
check_rate admits (some route) next s = next s
check_rate refuses (some route) next s = (s, err rate_limit_exceeded)
check_rate rate_check_fails (some route) next s = (s, err rate_check_failed)

abbrev default_cache_max_entries : ℕ
default_cache_max_entries = 256

-- The cache of a route: none if it has caching disabled, a new one on first use.
unfoldable pub cache_for : Route → Dict ResponseCache → Option ResponseCache
unfolding new_response_cache
cache_for route caches =
    if route.cache.enabled
    then elim (lookup route.name caches) [
      | some c ↦ some c
      | none ↦ some (new_response_cache (pos default_cache_max_entries))
    ]
    else none

from_cache_entry : CacheEntry → Response
from_cache_entry e = record { status_code = e.status_code; body = stream e.body }

unfoldable pub check_cache : ℕ → EgressRequest → Option Route → Handler → Handler
unfolding cache_for get from_cache_entry
check_cache now req none next s = next s
check_cache now req (some route) next s = elim (cache_for route s.caches) [
  | none ↦ next s
  | some cache ↦
      let (cache', found) = get req.method req.url now cache in
      let s' = record s { caches = insert route.name cache' s.caches } in
      elim found [ some entry ↦ (s', ok (from_cache_entry entry)) | none ↦ next s' ]
]

unfoldable pub body_size_limit : ProxyConfig → Option Route → ℤ
body_size_limit cfg none = cfg.default_body_size_limit
body_size_limit cfg (some route) =
    if ltb_ℤ (pos 0) route.body_size_limit
    then route.body_size_limit
    else cfg.default_body_size_limit

is_blank : ℕ → Bool
is_blank c = c == 0x20 || c == 0x09 || (leb 0x0b c && leb c 0x0d)

-- What Sscanf skips before a number: spaces, but no new line.
skip_blanks : Text → Text
unfolding is_blank
skip_blanks [] = []
skip_blanks (c ∷ s) = let rest = skip_blanks s in if is_blank c then rest else c ∷ s

-- The number of a sign and digits, if it is an int64.
signed : Bool → Option ℕ → Option ℤ
signed minus none = none
signed false (some n) = if ltb n (2 ^ 63) then some (pos n) else none
signed true (some n) =
    if n == 0 then some (pos 0) else if leb n (2 ^ 63) then some (negsuc (n - 1)) else none

after_sign : Text → Option ℤ
unfolding signed digits_from
after_sign [] = none
after_sign (c ∷ s) =
    if c == b'-'
    then signed true (digits_from false 0 s)
    else if c == b'+'
    then signed false (digits_from false 0 s)
    else signed false (digits_from false 0 (c ∷ s))

-- `fmt.Sscanf(header, "%d", &n)`: blanks, a sign and digits, and whatever follows them.
unfoldable pub content_length_of : Text → Option ℤ
unfolding skip_blanks after_sign
content_length_of header = after_sign (skip_blanks header)

unfoldable pub enforce_request_body_limit : EgressRequest → ℤ → Option EgressRequest
unfolding content_length_of limit_body
enforce_request_body_limit req limit =
    if leb_ℤ limit (pos 0)
    then some req
    else let within = record req { body = limit_body (pos_part limit) req.body } in
      elim (content_length_of req.content_length) [
        | none ↦ some within
        | some n ↦ if ltb_ℤ limit n then none else some within
      ]

unfoldable pub check_body :
    ProxyConfig → EgressRequest → Option Route → (EgressRequest → Handler) → Handler
unfolding body_size_limit enforce_request_body_limit
check_body cfg req route next s =
    elim (enforce_request_body_limit req (body_size_limit cfg route)) [
      | none ↦ (s, err body_too_large)
      | some limited ↦ next limited s
    ]
