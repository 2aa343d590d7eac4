-- ===== src/Access/Tests.antt =====
-- Runs of the access control, and its theorems at concrete requests.
use vibewarden.Prelude.{
  ◌≡◌, ◌≢◌, ◌↔◌, ◌⊎◌, refl, true, false, String, [], ◌∷◌, All, Option, none, some, some_of,
}
use vibewarden.Prelude.Text.{Text, text_of}
use vibewarden.Glob.{match_path}
use vibewarden.Access.Paths.{PathMatcher, vibewarden_prefix, matches}
use vibewarden.Access.Scopes.{ScopeRule, rule_matches, satisfied_by, matching_scope_rule, Holds}
use vibewarden.Access.ApiKey.{
  ApiKey, ApiKeyConfig, Request, forbidden, forward, api_key_middleware,
  api_key_middleware-forward_iff,
}
use vibewarden.Access.Auth
use vibewarden.Access.Auth.{
  Identity, AuthResult, auth_middleware, auth_success, provider_unavailable, provider_recovered,
  auth_failed,
}
use vibewarden.Access.Auth.Forward.{IsClean, auth_middleware-forward_iff, auth_middleware-IsClean}
use vibewarden.Access.Auth.Outage.{serve}

abbrev public_only : PathMatcher
public_only = record { patterns = vibewarden_prefix ∷ text_of "/static/*" ∷ [] }

abbrev write_rule : ScopeRule
write_rule = record { path = text_of "/api/*"; methods = []; required_scopes = "write" ∷ [] }

abbrev reader : ApiKey
reader = record { name = "ci"; scopes = "read" ∷ [] }

abbrev api : ApiKeyConfig
api = record { header = ""; scope_rules = write_rule ∷ [] }

abbrev ask : Text → Request
ask path = record { method = "POST"; path = path; header = λ name. "k1" }

abbrev known : String → Option ApiKey
known key = some reader

shallow_is_forbidden : (api_key_middleware known api (ask (text_of "/api/users"))).1 ≡ forbidden
unfolding api_key_middleware matching_scope_rule rule_matches match_path satisfied_by some_of
shallow_is_forbidden = refl

api_key_middleware-forward_iff_example :
    ((api_key_middleware known api (ask (text_of "/x"))).1 ≡ forward reader) ↔ (
      (◌≢◌ {A = String} "k1" "")
      × (known "k1" ≡ some reader)
      × ((rule : ScopeRule)
          → matching_scope_rule (write_rule ∷ []) "POST" (text_of "/x") ≡ some rule
          → All (λ scope. Holds scope ("read" ∷ [])) rule.required_scopes))
api_key_middleware-forward_iff_example =
    api_key_middleware-forward_iff known api (ask (text_of "/x")) reader

abbrev ann : Identity
ann = record { id = "u1"; email = "ann@example.org" }

abbrev signed_in : AuthResult
signed_in = record { authenticated = true; reason = ""; message = ""; identity = ann }

abbrev down : AuthResult
down = record {
  authenticated = false;
  reason = "provider_unavailable";
  message = "dial";
  identity = ann;
}

abbrev page : Auth.Request
page = record {
  method = "GET";
  path = text_of "/page";
  header = (text_of "X-User-Id", text_of "root") ∷ (text_of "Accept", text_of "*") ∷ [];
}

outage_and_recovery :
    serve public_only ((page, down) ∷ (page, down) ∷ (page, signed_in) ∷ []) false ≡ (
      false,
      provider_unavailable "dial"
          ∷ auth_failed "auth provider unavailable" "dial"
          ∷ auth_failed "auth provider unavailable" "dial"
          ∷ provider_recovered
          ∷ auth_success ann
          ∷ [],
    )
unfolding serve auth_middleware matches match_path Auth.answer Auth.strip_x_user_headers some_of
outage_and_recovery = refl

auth_middleware-forward_iff_example :
    ((auth_middleware (λ _. signed_in) public_only false page).outcome ≡ Auth.forward (some ann))
    ↔ (((matches public_only (text_of "/page") ≡ true) × (some ann ≡ none))
        ⊎ ((matches public_only (text_of "/page") ≡ false)
            × (signed_in.authenticated ≡ true)
            × (some ann ≡ some ann)))
auth_middleware-forward_iff_example =
    auth_middleware-forward_iff (λ _. signed_in) public_only false page (some ann)

auth_middleware-IsClean_example :
    IsClean (auth_middleware (λ _. signed_in) public_only false page).header
auth_middleware-IsClean_example = auth_middleware-IsClean (λ _. signed_in) public_only false page
