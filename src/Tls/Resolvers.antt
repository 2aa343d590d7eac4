-- ===== src/Tls/Resolvers.antt =====
-- internal/adapters/caddy/tls_state.go and tls_state_handshake.go, internal/app/ops/chain_resolver.go:
-- the resolvers of the state. What a dial or the cache of certificates gives is a parameter.
use vibewarden.Prelude.{
  ℕ, ◌-◌, ◌/◌, ltb, leb, Bool, true, false, ◌||◌, String, str_eq, List, [], ◌∷◌, Option, none, some,
  Result, ok, err, if◌then◌else◌,
}
use vibewarden.Prelude.Int.{pos}
use vibewarden.Prelude.Text.{Text}
use vibewarden.Tls.{
  day, State, unknown, disabled, self_signed_local, obtaining, obtained, new_expiring_soon,
  is_caddy_local_issuer,
}

abbrev tls_cert_expiry_warn_days : ℕ
tls_cert_expiry_warn_days = 7

pub record Leaf : Type 0 where
  pub issuer_cn : Text
  pub not_after : ℕ

pub data ResolveError : Type 0 where
  not_in_process : ResolveError
  other_error : String → ResolveError

-- Where both resolvers judge a leaf.
unfoldable pub state_of_leaf : ℕ → Leaf → State
unfolding is_caddy_local_issuer new_expiring_soon
state_of_leaf now leaf =
    if is_caddy_local_issuer leaf.issuer_cn
    then self_signed_local
    else if ltb leaf.not_after now
    then new_expiring_soon (pos 0) leaf.not_after
    else let days_left = (leaf.not_after - now) / day in
      if leb days_left tls_cert_expiry_warn_days
      then new_expiring_soon (pos days_left) leaf.not_after
      else obtained leaf.not_after

unfoldable pub in_process_resolve :
    Option Bool → Result ResolveError (Option Leaf) → ℕ → State × Option ResolveError
unfolding state_of_leaf
in_process_resolve none leaf now = (disabled, none)
in_process_resolve (some false) leaf now = (disabled, none)
in_process_resolve (some true) (err e) now = (unknown, some e)
in_process_resolve (some true) (ok none) now = (obtaining, none)
in_process_resolve (some true) (ok (some leaf)) now = (state_of_leaf now leaf, none)

unfoldable pub dial_host : String → String
dial_host host =
    if str_eq host "" || str_eq host "0.0.0.0" || str_eq host "::" then "127.0.0.1" else host

peer_state : ℕ → Option (List Leaf) → State
unfolding state_of_leaf
peer_state now none = unknown
peer_state now (some []) = unknown
peer_state now (some (leaf ∷ chain)) = state_of_leaf now leaf

-- `none` of the configuration is no configuration; `none` of the dial is an error of it.
unfoldable pub handshake_resolve :
    Option Bool → (String → Option (List Leaf)) → String → ℕ → State × Option ResolveError
unfolding peer_state dial_host
handshake_resolve (some false) dial host now = (disabled, none)
handshake_resolve (some true) dial host now = (peer_state now (dial (dial_host host)), none)
handshake_resolve none dial host now = (peer_state now (dial (dial_host host)), none)

unfoldable pub chain_resolve : List (State × Option ResolveError) → State × Option ResolveError
chain_resolve [] = (unknown, none)
chain_resolve ((state, none) ∷ others) = (state, none)
chain_resolve ((state, some not_in_process) ∷ others) = chain_resolve others
chain_resolve ((state, some (other_error e)) ∷ others) = (state, some (other_error e))
