-- ===== src/RateLimit/Middleware.antt =====
-- internal/middleware/ratelimit.go and ip.go: the rate limiting middleware, over a store for client
-- addresses and one for users. What net.ParseIP with its canonical form and net.SplitHostPort give is
-- a parameter. An event and the audit event beside it are one event here.
use vibewarden.Prelude.{
  ℕ, ◌+◌, ◌/◌, Bool, String, str_eq, List, [], ◌∷◌, Option, none, some, if◌then◌else◌, not,
}
use vibewarden.Prelude.Text.{Text, text_eq, trim_space}
use vibewarden.Prelude.Split.{cut}
use vibewarden.Access.Paths.{PathMatcher, new_exempt_path_matcher, vibewarden_prefix, matches}
use vibewarden.RateLimit.{RateLimitResult}

pub record Request : Type 0 where
  pub path : Text
  pub forwarded_for : Text
  pub remote_addr : Text
  -- The identity that authentication left in the context, and the header X-User-Id.
  pub identity : Option String
  pub user_header : String

pub record Config : Type 0 where
  pub trust_proxy_headers : Bool
  pub exempt_paths : List Text

pub data LimitType : Type 0 where
  per_ip per_user : LimitType

pub data Event : Type 0 where
  rate_limit_unidentified : Event
  rate_limit_hit : LimitType → (identifier : String) → (retry_after : ℕ) → Event

pub data Outcome : Type 0 where
  forward forbidden : Outcome
  too_many_requests : (retry_after : ℕ) → Outcome

unfoldable exempt_matcher : List Text → PathMatcher
exempt_matcher patterns = elim (new_exempt_path_matcher patterns) [
  | some m ↦ m
  | none ↦ record { patterns = vibewarden_prefix ∷ [] }
]

unfoldable pub resolve_user_id : Request → String
resolve_user_id r = elim r.identity [ some id ↦ id | none ↦ r.user_header ]

-- Whole seconds, rounded up.
unfoldable pub retry_after_seconds : ℕ → ℕ
retry_after_seconds d = (d + 999_999_999) / 1_000_000_000

unfoldable before_comma : Text → Text
before_comma s = elim (cut b',' s) [ none ↦ s | some (first, others) ↦ first ]

module _ (parse_ip : Text → Option String) (split_host_port : Text → Option Text) where
  unfoldable normalize_ip : Text → String
  normalize_ip ip = elim (parse_ip (trim_space ip)) [ none ↦ "" | some canonical ↦ canonical ]

  remote_ip : Text → String
  unfolding normalize_ip
  remote_ip addr = elim (split_host_port addr) [
    | none ↦ normalize_ip addr
    | some host ↦ normalize_ip host
  ]

  unfoldable pub extract_client_ip : Bool → Request → String
  unfolding remote_ip before_comma
  extract_client_ip trust_proxy r =
      if trust_proxy
      then if not (text_eq r.forwarded_for [])
        then (let forwarded = normalize_ip (trim_space (before_comma r.forwarded_for)) in
            if not (str_eq forwarded "") then forwarded else remote_ip r.remote_addr)
        else remote_ip r.remote_addr
      else remote_ip r.remote_addr

pub record Limiters (I U : Type 0) : Type 0 where
  pub ip_limiter : I
  pub user_limiter : U

module _ {I U : Type 0} (allow_ip : String → I → I × RateLimitResult)
    (allow_user : String → U → U × RateLimitResult) (client_ip_of : Request → String) where
  check_user : U × RateLimitResult → String → Limiters I U → Limiters I U × List Event × Outcome
  unfolding retry_after_seconds
  check_user (u, result) user_id s =
      let s' = record s { user_limiter = u } in
      if not result.allowed
      then (
        s',
        rate_limit_hit per_user user_id (retry_after_seconds result.retry_after) ∷ [],
        too_many_requests (retry_after_seconds result.retry_after),
      )
      else (s', [], forward)

  check_ip :
      I × RateLimitResult → String → Request → Limiters I U → Limiters I U × List Event × Outcome
  unfolding check_user retry_after_seconds resolve_user_id
  check_ip (i, result) client_ip r s =
      let s' = record s { ip_limiter = i } in
      if not result.allowed
      then (
        s',
        rate_limit_hit per_ip client_ip (retry_after_seconds result.retry_after) ∷ [],
        too_many_requests (retry_after_seconds result.retry_after),
      )
      else if not (str_eq (resolve_user_id r) "")
      then check_user (allow_user (resolve_user_id r) s'.user_limiter) (resolve_user_id r) s'
      else (s', [], forward)

  unfoldable pub rate_limit_middleware :
      PathMatcher → Request → Limiters I U → Limiters I U × List Event × Outcome
  unfolding check_ip
  rate_limit_middleware matcher r s =
      if matches matcher r.path
      then (s, [], forward)
      else if str_eq (client_ip_of r) ""
      then (s, rate_limit_unidentified ∷ [], forbidden)
      else check_ip (allow_ip (client_ip_of r) s.ip_limiter) (client_ip_of r) r s
