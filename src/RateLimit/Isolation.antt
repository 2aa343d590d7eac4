-- ===== src/RateLimit/Isolation.antt =====
-- internal/adapters/ratelimit/memory.go: the keys of the store do not meet one another.
use vibewarden.Prelude.{
  ℕ, ◌≡◌, ◌∙◌, refl, sym, arith, false, String, str_eq, eq_iff, List, [], ◌∷◌, some, if◌then◌else◌,
  inl, inr, Bool-cases,
}
use vibewarden.Prelude.Int.{ℤ}
use vibewarden.Prelude.Dict.{Dict, lookup, lookup-insert}
use vibewarden.RateLimit.{RateLimitRule}
use vibewarden.RateLimit.Memory.{
  Reservation, LimiterEntry, MemoryStore, get_or_create, ask_limiter, allow, is_stale, evict_from,
  evict,
}

-- The calls for one key.
abbrev pub own : String → List (ℕ × ℕ × String) → List (ℕ × ℕ × String)
own key [] = []
own key ((now, later, other) ∷ calls) =
    if str_eq other key then (now, later, other) ∷ own key calls else own key calls

module _ {Limiter : Type 0} (new_limiter : RateLimitRule → Limiter)
    (reserve : ℕ → Limiter → Limiter × Reservation) (cancel : ℕ → Reservation → Limiter → Limiter)
    (tokens : ℕ → Limiter → ℤ) where
  -- Requests one after another, each with its two readings of the clock.
  unfoldable pub allow_all : List (ℕ × ℕ × String) → MemoryStore Limiter → MemoryStore Limiter
  allow_all [] s = s
  allow_all ((now, later, key) ∷ calls) s =
      allow_all calls (allow new_limiter reserve cancel tokens now later key s).0

  allow-lookup :
      (now later : ℕ) (key other : String) (s : MemoryStore Limiter)
      → lookup other (allow new_limiter reserve cancel tokens now later key s).0.limiters ≡ (
          if str_eq key other
          then some
              (ask_limiter new_limiter reserve cancel tokens now later s.rule (
                get_or_create new_limiter reserve cancel tokens now s.rule
                  (lookup key s.limiters))).0
          else lookup other s.limiters)
  unfolding allow
  allow-lookup now later key other s = lookup-insert key other _ s.limiters

  allow-rule :
      (now later : ℕ) (key : String) (s : MemoryStore Limiter)
      → (allow new_limiter reserve cancel tokens now later key s).0.rule ≡ s.rule
  unfolding allow
  allow-rule now later key s = refl

  -- Two stores that agree on a key agree on it after the calls for it, whatever other calls one has.
  allow_all-agree :
      (key : String) (calls : List (ℕ × ℕ × String)) (s t : MemoryStore Limiter)
      → s.rule ≡ t.rule
      → lookup key s.limiters ≡ lookup key t.limiters
      → lookup key (allow_all calls s).limiters ≡ lookup key (allow_all (own key calls) t).limiters
  unfolding allow_all
  allow_all-agree key [] s t r h = h
  allow_all-agree key ((now, later, other) ∷ calls) s t r h = elim (Bool-cases (str_eq other key)) [
    | inl e ↦
        let same = (eq_iff other key).0 e in
        rw e (
          allow_all-agree key calls _ _
            (allow-rule now later other s ∙ r ∙ sym (allow-rule now later other t))
            (allow-lookup now later other key s
              ∙ rw (e, same, r, h) refl
              ∙ sym (allow-lookup now later other key t)))
    | inr e ↦ rw e (
        allow_all-agree key calls _ t (allow-rule now later other s ∙ r)
          (allow-lookup now later other key s ∙ rw e h))
  ]

  -- What the store holds for a key after any requests is what it would hold had only the requests for
  -- this key been made: no client's requests count against another.
  pub allow_all-own :
      (key : String) (calls : List (ℕ × ℕ × String)) (s : MemoryStore Limiter)
      → lookup key (allow_all calls s).limiters ≡ lookup key (allow_all (own key calls) s).limiters
  allow_all-own key calls s = allow_all-agree key calls s s refl refl

evict_from-lookup :
    {Limiter : Type 0} (now : ℕ) (ttl : ℤ) (key : String) (limiters : Dict (LimiterEntry Limiter))
    (entry : LimiterEntry Limiter)
    → lookup key limiters ≡ some entry
    → is_stale now ttl entry ≡ false
    → lookup key (evict_from now ttl limiters) ≡ some entry
unfolding lookup evict_from
evict_from-lookup now ttl key [] entry h fresh = ground arith
evict_from-lookup now ttl key ((k, e) ∷ limiters) entry h fresh =
    ground (arith, evict_from-lookup now ttl key limiters entry, eq_iff k key)

-- An entry that was seen within the time to live outlasts an eviction.
evict-lookup :
    {Limiter : Type 0} (now : ℕ) (key : String) (s : MemoryStore Limiter)
    (entry : LimiterEntry Limiter)
    → lookup key s.limiters ≡ some entry
    → is_stale now s.entry_ttl entry ≡ false
    → lookup key (evict now s).limiters ≡ some entry
unfolding evict
evict-lookup now key s entry h fresh =
    evict_from-lookup now s.entry_ttl key s.limiters entry h fresh
