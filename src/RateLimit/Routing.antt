-- ===== src/RateLimit/Routing.antt =====
-- Checks and requests of the fallback store in any order.
use vibewarden.Prelude.{
  ℕ, suc, ◌+◌, ◌≡◌, refl, arith, Bool, true, false, String, List, [], ◌∷◌, ◌++◌, Option, none, some,
  if◌then◌else◌,
}
use vibewarden.RateLimit.{RateLimitResult}
use vibewarden.RateLimit.Fallback.{
  FallbackStore, Event, store_fallback, store_recovered, check, allow, closed_result,
}

pub data Step : Type 0 where
  -- A tick of the timer, with the error of the probe.
  tick : Option String → Step
  request : String → Step

-- Whether the last probe before this point, if there was one, reached the store.
abbrev pub reached : Bool → List Step → Bool
reached last [] = last
reached last (tick none ∷ steps) = reached true steps
reached last (tick (some e) ∷ steps) = reached false steps
reached last (request key ∷ steps) = reached last steps

abbrev fallbacks : List Event → ℕ
fallbacks [] = 0
fallbacks (store_fallback r ∷ es) = suc (fallbacks es)
fallbacks (store_recovered ∷ es) = fallbacks es

abbrev pub recoveries : List Event → ℕ
recoveries [] = 0
recoveries (store_fallback r ∷ es) = recoveries es
recoveries (store_recovered ∷ es) = suc (recoveries es)

abbrev one_unless : Bool → ℕ
one_unless true = 0
one_unless false = 1

fallbacks-append : (es fs : List Event) → fallbacks (es ++ fs) ≡ fallbacks es + fallbacks fs
fallbacks-append [] fs = omega arith
fallbacks-append (store_fallback r ∷ es) fs = omega (arith, fallbacks-append es fs)
fallbacks-append (store_recovered ∷ es) fs = omega (arith, fallbacks-append es fs)

recoveries-append : (es fs : List Event) → recoveries (es ++ fs) ≡ recoveries es + recoveries fs
recoveries-append [] fs = omega arith
recoveries-append (store_fallback r ∷ es) fs = omega (arith, recoveries-append es fs)
recoveries-append (store_recovered ∷ es) fs = omega (arith, recoveries-append es fs)

module _ {P S : Type 0} (allow_primary : String → P → P × RateLimitResult)
    (allow_secondary : String → S → S × RateLimitResult) where
  unfoldable pub step : Step → FallbackStore P S → FallbackStore P S × List Event
  step (tick e) s = check e s
  step (request key) s = ((allow allow_primary allow_secondary key s).0, [])

  unfoldable pub run : List Step → FallbackStore P S → FallbackStore P S × List Event
  run [] s = (s, [])
  run (st ∷ steps) s = let (s', es) = step st s in let (end, fs) = run steps s' in (end, es ++ fs)

  run-cons :
      (st : Step) (steps : List Step) (s : FallbackStore P S)
      → run (st ∷ steps) s
        ≡ ((run steps (step st s).0).0, (step st s).1 ++ (run steps (step st s).0).1)
  unfolding run
  run-cons st steps s = refl

  step-healthy :
      (st : Step) (s : FallbackStore P S) → (step st s).0.healthy ≡ reached s.healthy (st ∷ [])
  unfolding step check allow
  step-healthy (tick none) s = ground arith
  step-healthy (tick (some e)) s = ground arith
  step-healthy (request key) s = ground arith

  step-fail_closed : (st : Step) (s : FallbackStore P S) → (step st s).0.fail_closed ≡ s.fail_closed
  unfolding step check allow
  step-fail_closed (tick none) s = ground arith
  step-fail_closed (tick (some e)) s = ground arith
  step-fail_closed (request key) s = ground arith

  step_balance :
      (st : Step) (s : FallbackStore P S)
      → fallbacks (step st s).1 + one_unless s.healthy
        ≡ recoveries (step st s).1 + one_unless (step st s).0.healthy
  unfolding step check allow
  step_balance (tick none) s = ground arith
  step_balance (tick (some e)) s = ground arith
  step_balance (request key) s = ground arith

  reached-cons :
      (last : Bool) (st : Step) (steps : List Step)
      → reached last (st ∷ steps) ≡ reached (reached last (st ∷ [])) steps
  reached-cons last (tick none) steps = refl
  reached-cons last (tick (some e)) steps = refl
  reached-cons last (request key) steps = refl

  run-healthy :
      (steps : List Step) (s : FallbackStore P S)
      → (run steps s).0.healthy ≡ reached s.healthy steps
  unfolding run
  run-healthy [] s = refl
  run-healthy (st ∷ steps) s =
      ground
        (arith, run-healthy steps (step st s).0, step-healthy st s, reached-cons s.healthy st steps)

  run-fail_closed :
      (steps : List Step) (s : FallbackStore P S) → (run steps s).0.fail_closed ≡ s.fail_closed
  unfolding run
  run-fail_closed [] s = refl
  run-fail_closed (st ∷ steps) s =
      ground (arith, run-fail_closed steps (step st s).0, step-fail_closed st s)

  -- The events of a switch to the fallback and of a recovery take turns.
  run_balance :
      (steps : List Step) (s : FallbackStore P S)
      → fallbacks (run steps s).1 + one_unless s.healthy
        ≡ recoveries (run steps s).1 + one_unless (run steps s).0.healthy
  unfolding run
  run_balance [] s = refl
  run_balance (st ∷ steps) s = omega (
    arith,
    run_balance steps (step st s).0,
    step_balance st s,
    fallbacks-append (step st s).1 (run steps (step st s).0).1,
    recoveries-append (step st s).1 (run steps (step st s).0).1,
  )

  -- What answers a request after any checks and requests: the first store if the last probe reached
  -- it or none was made, and otherwise nobody in fail-closed mode, or the second store. Only the store
  -- that answers changes.
  pub allow-routed :
      (steps : List Step) (s : FallbackStore P S) (key : String)
      → let t = (run steps s).0 in
        allow allow_primary allow_secondary key t ≡ (
          if reached s.healthy steps
          then (
            record t { primary = (allow_primary key t.primary).0 },
            (allow_primary key t.primary).1,
          )
          else if s.fail_closed
          then (t, closed_result)
          else (
            record t { secondary = (allow_secondary key t.secondary).0 },
            (allow_secondary key t.secondary).1,
          ))
  unfolding allow
  allow-routed steps s key = rw (run-healthy steps s, run-fail_closed steps s) refl
