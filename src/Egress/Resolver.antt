-- ===== src/Egress/Resolver.antt =====
-- internal/adapters/egress/resolver.go: the route of a request.
use vibewarden.Prelude.{
  ◌≡◌, ◌↔◌, inl, inr, ap, arith, true, ◌&&◌, List, [], ◌∷◌, ◌++◌, All, Option, none, some,
  Bool-cases, if◌then◌else◌,
}
use vibewarden.Prelude.Text.{Text}
use vibewarden.Egress.Bodies.{RequestBody}
use vibewarden.Egress.Route.{Route, matches_url, matches_method}

pub record EgressRequest : Type 0 where
  pub method : Text
  pub url : Text
  pub content_length : Text
  pub body : RequestBody

unfoldable pub resolve : List Route → EgressRequest → Option Route
resolve [] req = none
resolve (route ∷ routes) req =
    let rest = resolve routes req in
    if matches_url route req.url && matches_method route req.method then some route else rest

abbrev pub Fits : EgressRequest → Route → Type 0
Fits req route = (matches_url route req.url ≡ true) × (matches_method route req.method ≡ true)

module _ (req : EgressRequest) (route : Route) where
  abbrev IsFirst : List Route → Type 0
  IsFirst routes =
      (before : List Route) × (after : List Route) × (routes ≡ before ++ route ∷ after)
      × Fits req route
      × All (λ r. ¬ Fits req r) before

  resolve-IsFirst : (routes : List Route) → resolve routes req ≡ some route → IsFirst routes
  unfolding resolve
  resolve-IsFirst [] h = cc
  resolve-IsFirst (r ∷ rs) h =
      elim (Bool-cases (matches_url r req.url && matches_method r req.method)) [
        | inl fits ↦
            let same : r ≡ route = ground arith in ([], rs, rw same, rw (← same) (ground arith), tt)
        | inr other ↦
            let (before, after, split, fits, none_before) = resolve-IsFirst rs (ground arith) in
            (r ∷ before, after, ap (λ l. r ∷ l) split, fits, (λ f. ground arith, none_before))
      ]

  resolve_of_IsFirst :
      (before after : List Route)
      → Fits req route
      → All (λ r. ¬ Fits req r) before
      → resolve (before ++ route ∷ after) req ≡ some route
  unfolding resolve
  resolve_of_IsFirst [] after fits h = ground arith
  resolve_of_IsFirst (r ∷ before) after fits (h, hs) =
      ground (arith, resolve_of_IsFirst before after fits hs)

-- A route is resolved exactly if it fits the request and no route before it does.
pub resolve_iff :
    (routes : List Route) (req : EgressRequest) (route : Route)
    → (resolve routes req ≡ some route) ↔ (
        (before : List Route) × (after : List Route) × (routes ≡ before ++ route ∷ after)
        × Fits req route
        × All (λ r. ¬ Fits req r) before)
resolve_iff routes req route = (
  resolve-IsFirst req route routes,
  λ (before, after, split, fits, none_before).
      rw split (resolve_of_IsFirst req route before after fits none_before),
)
