-- ===== src/Access/ApiKey.antt =====
-- internal/middleware/api_key.go: the API key middleware. The validator of keys is a parameter; an
-- event and the audit event beside it carry the same facts and are one event here.
use mathlib.Core.Path.{subst}
use mathlib.Core.Option.{some-injective}
use vibewarden.Prelude.{
  ◌≡◌, ◌≢◌, ◌↔◌, inl, inr, refl, arith, false, not, String, str_eq, eq_iff, List, [], ◌∷◌, ◌++◌,
  All, Option, none, some, Bool-cases, Option-cases, if◌then◌else◌,
}
use vibewarden.Prelude.Text.{Text}
use vibewarden.Glob.Segment.{IsLiteral}
use vibewarden.Access.Scopes.{
  ScopeRule, satisfied_by, matching_scope_rule, Holds, satisfied_by_iff, deep_path-not_ruled,
}

pub record ApiKey : Type 0 where
  pub name : String
  pub scopes : List String

pub record ApiKeyConfig : Type 0 where
  pub header : String
  pub scope_rules : List ScopeRule

pub record Request : Type 0 where
  pub method : String
  pub path : Text
  pub header : String → String

pub data Event : Type 0 where
  api_key_failed : (reason : String) → Event
  api_key_forbidden : (name : String) → (held required : List String) → Event
  api_key_success : (name : String) → (held : List String) → Event

pub data Outcome : Type 0 where
  unauthorized forbidden : Outcome
  forward : ApiKey → Outcome

abbrev default_api_key_header : String
default_api_key_header = "X-API-Key"

unfoldable pub header_of : ApiKeyConfig → String
header_of cfg = if str_eq cfg.header "" then default_api_key_header else cfg.header

authorize : Option ScopeRule → ApiKey → Event × Outcome
authorize none key = (api_key_success key.name key.scopes, forward key)
authorize (some rule) key =
    if not (satisfied_by rule key.scopes)
    then (api_key_forbidden key.name key.scopes rule.required_scopes, forbidden)
    else (api_key_success key.name key.scopes, forward key)

abbrev HasScopes : Option ScopeRule → ApiKey → Type 0
HasScopes o key =
    (rule : ScopeRule) → o ≡ some rule → All (λ scope. Holds scope key.scopes) rule.required_scopes

authorize-HasScopes :
    (o : Option ScopeRule) (found key : ApiKey)
    → (authorize o found).1 ≡ forward key
    → (found ≡ key) × HasScopes o key
unfolding authorize
authorize-HasScopes none found key h = (ground arith, λ rule e. cc)
authorize-HasScopes (some r) found key h = elim (Bool-cases (satisfied_by r found.scopes)) [
  | inl held ↦
      let same : found ≡ key = ground arith in
      (
        same,
        λ rule e.
            subst (λ q. All (λ scope. Holds scope key.scopes) q.required_scopes)
              (some-injective _ _ e)
              (subst (λ k. All (λ scope. Holds scope k.scopes) r.required_scopes) same
                ((satisfied_by_iff r found.scopes).0 held)),
      )
  | inr missing ↦ ground arith
]

authorize_of_HasScopes :
    (o : Option ScopeRule) (key : ApiKey) → HasScopes o key → (authorize o key).1 ≡ forward key
unfolding authorize
authorize_of_HasScopes none key h = refl
authorize_of_HasScopes (some r) key h = rw ((satisfied_by_iff r key.scopes).1 (h r refl), authorize)

module _ (validate : String → Option ApiKey) where
  check_key : Option ApiKey → ApiKeyConfig → Request → Event × Outcome
  unfolding authorize
  check_key none cfg r = (api_key_failed "invalid or inactive api key", unauthorized)
  check_key (some key) cfg r = authorize (matching_scope_rule cfg.scope_rules r.method r.path) key

  -- The event that the middleware logs, and what becomes of the request.
  unfoldable pub api_key_middleware : ApiKeyConfig → Request → Event × Outcome
  unfolding check_key header_of
  api_key_middleware cfg r =
      let raw_key = r.header (header_of cfg) in
      if str_eq raw_key ""
      then (api_key_failed "missing api key", unauthorized)
      else check_key (validate raw_key) cfg r

  -- A request is forwarded with a key exactly if its header carries a text that the validator takes
  -- for that key, and the key holds every scope that the first matching rule requires.
  pub api_key_middleware-forward_iff :
      (cfg : ApiKeyConfig) (r : Request) (key : ApiKey)
      → ((api_key_middleware cfg r).1 ≡ forward key) ↔ (
          (r.header (header_of cfg) ≢ "")
          × (validate (r.header (header_of cfg)) ≡ some key)
          × ((rule : ScopeRule)
              → matching_scope_rule cfg.scope_rules r.method r.path ≡ some rule
              → All (λ scope. Holds scope key.scopes) rule.required_scopes))
  unfolding api_key_middleware
  api_key_middleware-forward_iff cfg r key = (
    λ h. elim (Bool-cases (str_eq (r.header (header_of cfg)) "")) [
      | inl x ↦ ground arith
      | inr x ↦ elim (Option-cases (validate (r.header (header_of cfg)))) [
        | inl no_key ↦ ground arith
        | inr (found, valid) ↦
            let (same, has) =
              authorize-HasScopes (matching_scope_rule cfg.scope_rules r.method r.path) found key
                (rw (x, valid) at h) in
            (ground (arith, eq_iff (r.header (header_of cfg)) ""), cc, has)
      ]
    ],
    λ (raw, valid, has).
        rw (named raw, valid, api_key_middleware)
          (authorize_of_HasScopes (matching_scope_rule cfg.scope_rules r.method r.path) key has),
  )
    where
      named : r.header (header_of cfg) ≢ "" → str_eq (r.header (header_of cfg)) "" ≡ false
      named raw = ground (arith, eq_iff (r.header (header_of cfg)) "")

  -- With the one rule `<prefix>/*`, a request two segments or more below the prefix is forwarded
  -- with every valid key, whatever scopes the rule requires and the key holds.
  api_key_middleware-deep_path :
      (cfg : ApiKeyConfig) (r : Request) (key : ApiKey) (rule : ScopeRule) (p segment deeper : Text)
      → r.header (header_of cfg) ≢ ""
      → validate (r.header (header_of cfg)) ≡ some key
      → cfg.scope_rules ≡ rule ∷ []
      → rule.path ≡ p ++ b'/' ∷ b'*' ∷ []
      → All IsLiteral p
      → r.path ≡ p ++ b'/' ∷ (segment ++ b'/' ∷ deeper)
      → (api_key_middleware cfg r).1 ≡ forward key
  unfolding api_key_middleware matching_scope_rule
  api_key_middleware-deep_path cfg r key rule p segment deeper raw valid rules glob literal below =
      ground (
        arith,
        eq_iff (r.header (header_of cfg)) "",
        deep_path-not_ruled rule p segment deeper r.method glob literal,
      )
