-- ===== src/Access/Auth/Outage.antt =====
-- internal/middleware/auth.go: the events about the provider's availability.
use vibewarden.Prelude.{ℕ, suc, ◌+◌, ◌≡◌, arith, Bool, true, false, List, [], ◌∷◌, ◌++◌}
use vibewarden.Access.Paths.{PathMatcher}
use vibewarden.Access.Auth.{
  AuthResult, Request, Event, auth_success, auth_failed, provider_unavailable, provider_recovered,
  answer, auth_middleware,
}

-- Requests one after another, each with what the provider answers to it: the flag that they leave,
-- and all their events.
unfoldable pub serve : PathMatcher → List (Request × AuthResult) → Bool → Bool × List Event
serve m [] unavailable = (unavailable, [])
serve m ((r, result) ∷ rs) unavailable =
    let a = auth_middleware (λ _. result) m unavailable r in
    let (end, es) = serve m rs a.unavailable in (end, a.events ++ es)

abbrev outages : List Event → ℕ
outages [] = 0
outages (provider_unavailable message ∷ es) = suc (outages es)
outages (e ∷ es) = outages es

abbrev pub recoveries : List Event → ℕ
recoveries [] = 0
recoveries (provider_recovered ∷ es) = suc (recoveries es)
recoveries (e ∷ es) = recoveries es

abbrev pub one_if : Bool → ℕ
one_if true = 1
one_if false = 0

outages-append : (es fs : List Event) → outages (es ++ fs) ≡ outages es + outages fs
outages-append [] fs = omega arith
outages-append (auth_success i ∷ es) fs = omega (arith, outages-append es fs)
outages-append (auth_failed r d ∷ es) fs = omega (arith, outages-append es fs)
outages-append (provider_unavailable m ∷ es) fs = omega (arith, outages-append es fs)
outages-append (provider_recovered ∷ es) fs = omega (arith, outages-append es fs)

recoveries-append : (es fs : List Event) → recoveries (es ++ fs) ≡ recoveries es + recoveries fs
recoveries-append [] fs = omega arith
recoveries-append (auth_success i ∷ es) fs = omega (arith, recoveries-append es fs)
recoveries-append (auth_failed r d ∷ es) fs = omega (arith, recoveries-append es fs)
recoveries-append (provider_unavailable m ∷ es) fs = omega (arith, recoveries-append es fs)
recoveries-append (provider_recovered ∷ es) fs = omega (arith, recoveries-append es fs)

auth_middleware_balance :
    (result : AuthResult) (m : PathMatcher) (unavailable : Bool) (r : Request)
    → let a = auth_middleware (λ _. result) m unavailable r in
      outages a.events + one_if unavailable ≡ recoveries a.events + one_if a.unavailable
unfolding auth_middleware answer
auth_middleware_balance result m unavailable r = ground arith

-- Over any requests the events that report an outage and those that report a recovery balance: an
-- outage is reported once, and a recovery once after it, however many requests come in between.
serve_balance :
    (m : PathMatcher) (rs : List (Request × AuthResult)) (unavailable : Bool)
    → let (end, es) = serve m rs unavailable in
      outages es + one_if unavailable ≡ recoveries es + one_if end
unfolding serve
serve_balance m [] unavailable = omega arith
serve_balance m ((r, result) ∷ rs) unavailable =
    let a = auth_middleware (λ _. result) m unavailable r in
    let later = serve m rs a.unavailable in
    omega (
      arith,
      outages-append a.events later.1,
      recoveries-append a.events later.1,
      auth_middleware_balance result m unavailable r,
      serve_balance m rs a.unavailable,
    )
