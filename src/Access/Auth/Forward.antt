-- ===== src/Access/Auth/Forward.antt =====
-- internal/middleware/auth.go: which requests reach the application, and with which headers.
use vibewarden.Prelude.{◌≡◌, ◌↔◌, ◌⊎◌, arith, Bool, true, false, [], ◌∷◌, All, Option, none, some}
use vibewarden.Access.Paths.{PathMatcher, matches}
use vibewarden.Access.Auth.{
  Identity, AuthResult, Header, Request, forward, is_x_user, strip_x_user_headers, answer,
  auth_middleware,
}

abbrev pub IsClean : Header → Type 0
IsClean = All (λ kv. is_x_user kv.0 ≡ false)

strip_x_user_headers-IsClean : (h : Header) → IsClean (strip_x_user_headers h)
unfolding strip_x_user_headers
strip_x_user_headers-IsClean [] = tt
strip_x_user_headers-IsClean ((key, value) ∷ h) = ground (arith, strip_x_user_headers-IsClean h)

-- The request as the provider sees it.
abbrev stripped : Request → Request
stripped r = record r { header = strip_x_user_headers r.header }

module _ (authenticate : Request → AuthResult) (matcher : PathMatcher) where
  -- A request reaches the application exactly if its path is public, and then with no identity, or
  -- the provider authenticates it, and then with the identity that the provider gives.
  pub auth_middleware-forward_iff :
      (unavailable : Bool) (r : Request) (who : Option Identity)
      → ((auth_middleware authenticate matcher unavailable r).outcome ≡ forward who) ↔ (
          ((matches matcher r.path ≡ true) × (who ≡ none))
          ⊎ ((matches matcher r.path ≡ false)
              × ((authenticate (stripped r)).authenticated ≡ true)
              × (who ≡ some (authenticate (stripped r)).identity)))
  unfolding auth_middleware answer
  auth_middleware-forward_iff unavailable r who = (λ h. ground arith, λ h. ground arith)

  -- No request goes on with a header whose name begins with X-User- in any case, whatever the client
  -- sent.
  pub auth_middleware-IsClean :
      (unavailable : Bool) (r : Request)
      → IsClean (auth_middleware authenticate matcher unavailable r).header
  unfolding auth_middleware answer
  auth_middleware-IsClean unavailable r = ground (arith, strip_x_user_headers-IsClean r.header)
