-- ===== src/RateLimit/Throughput.antt =====
-- How many requests the token bucket lets through over a stretch of time.
use vibewarden.Prelude.{
  ℕ, suc, ◌+◌, ◌-◌, ◌*◌, ◌/◌, ◌≤◌, ◌<◌, ◌≡◌, inl, inr, refl, arith, leb, Bool, true, false, List,
  [], ◌∷◌, Option, none, some, Bool-cases, if◌then◌else◌,
}
use vibewarden.RateLimit.{RateLimitRule}
use vibewarden.RateLimit.Bucket.{Bucket, one_token, read_key, refill, ttl_secs, run_script}

-- A key as the script leaves it.
pub record IsKept (rule : RateLimitRule) (b : Bucket) : Type 0 where
  pub capped : b.tokens ≤ rule.burst * one_token
  pub expiry : b.expires_us ≡ b.last_us + ttl_secs rule * 1_000_000

ceiling : (n r : ℕ) → 0 < r → n ≤ (n + r - 1) / r * r
ceiling n r h = grind arith

ttl_refills :
    (rule : RateLimitRule)
    → 0 < rule.requests_per_second
    → rule.burst * one_token ≤ ttl_secs rule * 1_000_000 * rule.requests_per_second
unfolding ttl_secs
ttl_refills rule h = grind (arith, ceiling rule.burst rule.requests_per_second)

spent : Bool → ℕ
spent true = one_token
spent false = 0

run_script-last :
    (rule : RateLimitRule) (now : ℕ) (key : Option Bucket)
    → (run_script rule now key).0.last_us ≡ now
unfolding run_script
run_script-last rule now key = ground arith

-- A request takes its token from those that the key had and those that came in since.
run_script-spent :
    (rule : RateLimitRule) (now : ℕ) (key : Option Bucket)
    → (run_script rule now key).0.tokens + spent (run_script rule now key).1
      ≡ refill rule now (read_key now key)
unfolding run_script spent
run_script-spent rule now key = ground arith

refill-le-burst :
    (rule : RateLimitRule) (now : ℕ) (key : Option Bucket)
    → refill rule now key ≤ rule.burst * one_token
unfolding refill
refill-le-burst rule now none = omega arith
refill-le-burst rule now (some b) = ground arith

run_script-IsKept :
    (rule : RateLimitRule) (now : ℕ) (key : Option Bucket) → IsKept rule (run_script rule now key).0
unfolding run_script
run_script-IsKept rule now key = ground (arith, refill-le-burst rule now (read_key now key))

mul_mono : (m n r : ℕ) → m ≤ n → m * r ≤ n * r
mul_mono m n r h = grind arith

-- An expired key, which counts as full, would have been full by then.
refill-le-gain :
    (rule : RateLimitRule) (now : ℕ) (b : Bucket)
    → 0 < rule.requests_per_second
    → IsKept rule b
    → b.last_us ≤ now
    → refill rule now (read_key now (some b))
      ≤ b.tokens + (now - b.last_us) * rule.requests_per_second
unfolding refill read_key
refill-le-gain rule now b h k le = elim (Bool-cases (leb b.expires_us now)) [
  | inl e ↦ rw e (
      omega (
        arith,
        ttl_refills rule h,
        mul_mono (ttl_secs rule * 1_000_000) (now - b.last_us) rule.requests_per_second
            (ground arith),
      ))
  | inr e ↦ rw e (ground arith)
]

-- The requests at these instants that are let through, one after another.
unfoldable pub admitted : RateLimitRule → List ℕ → Option Bucket → ℕ
admitted rule [] key = 0
admitted rule (now ∷ times) key =
    let (b, allowed, _) = run_script rule now key in
    let rest = admitted rule times (some b) in if allowed then suc rest else rest

-- The instants follow one another and end no later than `end`.
abbrev InOrder : ℕ → List ℕ → ℕ → Type 0
InOrder start [] end = start ≤ end
InOrder start (now ∷ times) end = (start ≤ now) × InOrder now times end

InOrder-le : (start end : ℕ) (times : List ℕ) → InOrder start times end → start ≤ end
InOrder-le start end [] h = h
InOrder-le start end (now ∷ times) h = omega (arith, InOrder-le now end times h.1)

admitted-nil : (rule : RateLimitRule) (key : Option Bucket) → admitted rule [] key ≡ 0
unfolding admitted
admitted-nil rule key = refl

admitted-cons :
    (rule : RateLimitRule) (now : ℕ) (times : List ℕ) (key : Option Bucket)
    → admitted rule (now ∷ times) key * one_token
      ≡ spent (run_script rule now key).1
        + admitted rule times (some (run_script rule now key).0) * one_token
unfolding admitted spent
admitted-cons rule now times key = ground arith

stretch : (a b c r : ℕ) → a ≤ b → b ≤ c → (b - a) * r + (c - b) * r ≡ (c - a) * r
stretch a b c r h k = grind arith

admitted-kept :
    (rule : RateLimitRule) (times : List ℕ) (end : ℕ) (b : Bucket)
    → 0 < rule.requests_per_second
    → IsKept rule b
    → InOrder b.last_us times end
    → admitted rule times (some b) * one_token
      ≤ b.tokens + (end - b.last_us) * rule.requests_per_second
admitted-kept rule [] end b h k o = omega (arith, admitted-nil rule (some b))
admitted-kept rule (now ∷ times) end b h k o =
    let last = run_script-last rule now (some b) in
    let later =
      admitted-kept rule times end (run_script rule now (some b)).0 h
        (run_script-IsKept rule now (some b)) (rw last o.1) in
    omega (
      arith,
      admitted-cons rule now times (some b),
      rw last at later,
      run_script-spent rule now (some b),
      refill-le-gain rule now b h k o.0,
      stretch b.last_us now end rule.requests_per_second o.0 (InOrder-le now end times o.1),
    )

-- Whatever a key holds, between the first of some requests and an instant no earlier than the last of
-- them at most the burst is let through, and what comes in at the sustained rate in the meantime: a
-- million times the number of requests is at most a million times the burst plus the rate times the
-- microseconds. The clock does not go backwards, and the rate is not 0.
pub admitted-le :
    (rule : RateLimitRule) (first : ℕ) (times : List ℕ) (end : ℕ) (key : Option Bucket)
    → 0 < rule.requests_per_second
    → InOrder first times end
    → admitted rule (first ∷ times) key * one_token
      ≤ rule.burst * one_token + (end - first) * rule.requests_per_second
admitted-le rule first times end key h o =
    let last = run_script-last rule first key in
    let later =
      admitted-kept rule times end (run_script rule first key).0 h
        (run_script-IsKept rule first key) (rw last o) in
    omega (
      arith,
      admitted-cons rule first times key,
      rw last at later,
      run_script-spent rule first key,
      refill-le-burst rule first (read_key first key),
    )
