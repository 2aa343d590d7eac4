-- ===== src/Egress/Route.antt =====
-- internal/domain/egress/route.go: the routes of the egress proxy. The fields are those that the
-- proxy's decisions read; headers, secrets, sanitising and the rate limit's text are left out.
use vibewarden.Prelude.{
  ℕ, ◌+◌, ◌*◌, ◌-◌, ◌==◌, ltb, leb, Bool, true, false, not, ◌&&◌, ◌||◌, List, [], ◌∷◌, Option, none,
  some, some_of, if◌then◌else◌,
}
use vibewarden.Prelude.Int.{ℤ}
use vibewarden.Prelude.Text.{Text, text_of, text_eq, to_upper, to_lower, has_prefix}
use vibewarden.Prelude.{String}
use vibewarden.Glob.{match_path, matched}

pub record CircuitBreakerConfig : Type 0 where
  pub threshold : ℤ
  pub reset_after : ℤ

pub data RetryBackoff : Type 0 where
  exponential fixed : RetryBackoff

pub record RetryConfig : Type 0 where
  pub max : ℤ
  pub methods : List Text
  pub backoff : RetryBackoff
  pub initial_backoff : ℤ

pub record CacheConfig : Type 0 where
  pub enabled : Bool
  pub ttl : ℤ
  pub max_size : ℤ

pub record ResponseValidationConfig : Type 0 where
  pub status_codes : List Text
  pub content_types : List Text

pub record Route : Type 0 where
  pub name : String
  pub pattern : Text
  pub methods : List Text
  pub circuit_breaker : CircuitBreakerConfig
  pub retry : RetryConfig
  pub body_size_limit : ℤ
  pub allow_insecure : Bool
  pub mtls : Bool
  pub cache : CacheConfig
  pub validate_response : ResponseValidationConfig

abbrev is_nil {ℓ} : {A : Type ℓ} → List A → Bool
is_nil [] = true
is_nil (x ∷ xs) = false

abbrev default_idempotent_methods : List Text
default_idempotent_methods = text_of "GET" ∷ text_of "HEAD" ∷ text_of "PUT" ∷ text_of "DELETE" ∷ []

unfoldable pub is_retryable_method : RetryConfig → Text → Bool
is_retryable_method r method =
    let upper = to_upper method in
    if is_nil r.methods
    then some_of (λ m. text_eq m upper) default_idempotent_methods
    else some_of (λ m. text_eq (to_upper m) upper) r.methods

unfoldable pub matches_method : Route → Text → Bool
matches_method r method =
    let upper = to_upper method in
    if is_nil r.methods then true else some_of (λ m. text_eq (to_upper m) upper) r.methods

unfoldable pub matches_url : Route → Text → Bool
unfolding matched
matches_url r raw_url = matched (match_path r.pattern raw_url)

is_space : ℕ → Bool
is_space c = c == 0x20 || (leb 0x09 c && leb c 0x0d)

skip_spaces : Text → Text
skip_spaces [] = []
skip_spaces (c ∷ s) = let rest = skip_spaces s in if is_space c then rest else c ∷ s

drop_last_spaces : Text → Text
drop_last_spaces [] = []
drop_last_spaces (c ∷ s) =
    let rest = drop_last_spaces s in if is_space c && is_nil rest then [] else c ∷ rest

-- `strings.TrimSpace` on ASCII.
unfoldable pub trim_space : Text → Text
unfolding is_space skip_spaces drop_last_spaces
trim_space s = drop_last_spaces (skip_spaces s)

before_semicolon : Text → Text
before_semicolon [] = []
before_semicolon (c ∷ s) = let rest = before_semicolon s in if c == b';' then [] else c ∷ rest

has_semicolon : Text → Bool
has_semicolon s = some_of (λ c. c == b';') s

unfoldable pub media_type : Text → Text
unfolding trim_space before_semicolon has_semicolon
media_type content_type =
    let whole = to_lower (trim_space content_type) in
    if has_semicolon whole then trim_space (before_semicolon whole) else whole

unfoldable pub matches_content_type : ResponseValidationConfig → Text → Bool
matches_content_type v content_type =
    if is_nil v.content_types
    then true
    else some_of (λ allowed. text_eq (to_lower (trim_space allowed)) (media_type content_type))
        v.content_types

-- The number that `fmt.Sscanf(expr, "%d", &code)` reads, an unsigned one: its leading digits.
unfoldable pub digits_from : Bool → ℕ → Text → Option ℕ
digits_from seen n [] = if seen then some n else none
digits_from seen n (c ∷ s) =
    let rest = digits_from true (10 * n + (c - b'0')) s in
    if leb b'0' c && leb c b'9' then rest else if seen then some n else none

unfoldable pub match_status_code_expr : Text → ℕ → Bool
unfolding digits_from
match_status_code_expr expr status =
    if text_eq expr (text_of "2xx")
    then leb 200 status && ltb status 300
    else if text_eq expr (text_of "3xx")
    then leb 300 status && ltb status 400
    else if text_eq expr (text_of "4xx")
    then leb 400 status && ltb status 500
    else if text_eq expr (text_of "5xx")
    then leb 500 status && ltb status 600
    else elim (digits_from false 0 expr) [ none ↦ false | some code ↦ code == status ]

unfoldable pub matches_status_code : ResponseValidationConfig → ℕ → Bool
matches_status_code v status =
    if is_nil v.status_codes
    then true
    else some_of (λ expr. match_status_code_expr expr status) v.status_codes

unfoldable pub is_zero_validation : ResponseValidationConfig → Bool
is_zero_validation v = is_nil v.status_codes && is_nil v.content_types

pub data RouteError : Type 0 where
  empty_name empty_pattern bad_glob bad_scheme : RouteError

unfoldable validate_pattern : Text → Option RouteError
validate_pattern pattern = elim (match_path pattern []) [
  | none ↦ some bad_glob
  | some b ↦
      if not (has_prefix (text_of "http://") pattern)
        && not (has_prefix (text_of "https://") pattern)
      then some bad_scheme
      else none
]
