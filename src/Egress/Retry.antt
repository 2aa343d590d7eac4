-- ===== src/Egress/Retry.antt =====
-- internal/adapters/egress/proxy.go and proxy_forward.go: the upstream attempts for one request.
-- The upstream is a parameter: what a client's Do returns for each attempt, which sees the body
-- that is sent. So are the clock and whether the context outlives the wait after an attempt.
-- Logging, metrics and spans are left out; every error keeps what the caller can tell of it.
use vibewarden.Prelude.{
  ℕ, zero, suc, ◌+◌, ◌-◌, ◌*◌, ◌^◌, ◌%◌, ◌==◌, ltb, leb, List, [], ◌∷◌, ◌++◌, Bool, true, false,
  ◌&&◌, ◌||◌, Option, none, some, Result, ok, err, if◌then◌else◌,
}
use vibewarden.Prelude.Int.{ℤ, pos, pos_part, negsuc, leb_ℤ, ltb_ℤ}
use vibewarden.Egress.Route.{Route, RetryBackoff, fixed, exponential, is_retryable_method}
use vibewarden.Prelude.Text.{Text}
use vibewarden.Egress.Bodies.{RequestBody, after_attempt}
use vibewarden.Egress.Breakers.{Registry, registry_record_success, registry_record_failure}

-- A product of int64 values that are not negative.
abbrev times_int64 : ℕ → ℕ → ℤ
times_int64 a b =
    let product = (a * b) % 2 ^ 64 in
    if ltb product (2 ^ 63) then pos product else negsuc (2 ^ 64 - product - 1)

abbrev pub min_shift : ℕ → ℕ
min_shift shift = if ltb 30 shift then 30 else shift

-- The base is positive where the code calls it.
unfoldable pub compute_backoff : RetryBackoff → ℕ → ℕ → ℤ
compute_backoff fixed base attempt = pos base
compute_backoff exponential base attempt = times_int64 base (2 ^ min_shift (attempt - 1))

unfoldable pub should_retry_status : ℕ → Bool
should_retry_status code =
    code == 408 || code == 429 || code == 500 || code == 502 || code == 503 || code == 504

unfoldable is_failure_status : ℕ → Bool
is_failure_status code = leb 500 code

abbrev default_retry_initial_backoff : ℕ
default_retry_initial_backoff = 100000000

-- What Do reports of an error: isMTLSError, isTimeoutError, or neither, and whether it wraps
-- ErrRequestBodyTooLarge.
pub record TransportError : Type 0 where
  pub is_mtls_error : Bool
  pub is_timeout_error : Bool
  pub is_body_too_large : Bool

pub data Reply : Type 0 where
  response : ℕ → Reply
  failed : TransportError → Reply

-- `sends n body` is the reply to attempt n with this body, and how many bytes of it were read. An
-- error of the body, as that of one that is closed or too large, is in what it replies.
pub record Upstream : Type 0 where
  pub sends : ℕ → RequestBody → Reply × ℕ
  pub clock : ℕ → ℕ
  pub outlives_wait : ℕ → ℤ → Bool

pub data ForwardError : Type 0 where
  cancelled : ForwardError
  mtls_failed transport_failed : TransportError → ForwardError

-- What the attempts leave: the breakers and the bodies that the attempts were made with,
-- oldest first.
pub record Trace : Type 0 where
  pub registry : Registry
  pub sent : List RequestBody

abbrev pub Run : Type 0
Run = Trace × ℕ × Result ForwardError ℕ

-- `match.Matched && p.cfg.CircuitBreakers != nil`; a Proxy without breakers is modelled as one
-- whose routes have none.
unfoldable pub note_failure : ℕ → Option Route → Trace → Trace
unfolding registry_record_failure
note_failure now none t = t
note_failure now (some route) t = record t {
  registry = registry_record_failure now route t.registry;
}

unfoldable pub note_sent : RequestBody → Trace → Trace
note_sent body t = record t { sent = t.sent ++ body ∷ [] }

unfoldable pub has_mtls : Option Route → Bool
has_mtls none = false
has_mtls (some route) = route.mtls

-- A fatal error with the breakers after it, or none if the attempt may be made again.
unfoldable pub classify_transport_error :
    ℕ → Option Route → TransportError → Trace → Option (Trace × ForwardError)
unfolding note_failure has_mtls
classify_transport_error now route e t =
    if has_mtls route && e.is_mtls_error
    then some (t, mtls_failed e)
    else if e.is_timeout_error
    then some (note_failure now route t, transport_failed e)
    else none

pub record Plan : Type 0 where
  pub strategy : RetryBackoff
  pub base : ℕ

module _ (up : Upstream) (plan : Plan) (route : Option Route) where
  -- One round of the loop at attempt n, with the rounds that come after it, none if this is the
  -- last one.
  unfoldable pub after_reply :
      (n : ℕ) → Option (RequestBody → Trace → Run) → RequestBody → Trace → Reply → Run
  unfolding note_failure classify_transport_error
  after_reply n next rest t (response code) = elim next [
    | none ↦ (t, n, ok code)
    | some continue ↦
        let again = continue rest t in
        if should_retry_status code
        then if up.outlives_wait n (compute_backoff plan.strategy plan.base n)
          then again
          else (t, n, err cancelled)
        else (t, n, ok code)
  ]
  after_reply n next rest t (failed e) = elim (classify_transport_error (up.clock n) route e t) [
    | some (t', fatal) ↦ (t', n, err fatal)
    | none ↦ elim next [
      | none ↦ (note_failure (up.clock n) route t, n, err (transport_failed e))
      | some continue ↦
          let again = continue rest t in
          if up.outlives_wait n (compute_backoff plan.strategy plan.base n)
          then again
          else (note_failure (up.clock n) route t, n, err cancelled)
    ]
  ]

  -- The loop from attempt n on, with so many more rounds after this one. Every
  -- attempt is made with the same body, as the ones before it have left it.
  unfoldable pub attempts_from : (more : ℕ) → ℕ → RequestBody → Trace → Run
  unfolding after_reply note_sent after_attempt
  attempts_from zero n body t =
      let (reply, taken) = up.sends n body in
      after_reply n none (after_attempt taken body) (note_sent body t) reply
  attempts_from (suc more) n body t =
      let (reply, taken) = up.sends n body in
      after_reply n (some (attempts_from more (n + 1))) (after_attempt taken body)
        (note_sent body t) reply

unfoldable pub retry_enabled : Text → Option Route → Bool
retry_enabled method none = false
retry_enabled method (some route) =
    ltb_ℤ (pos 0) route.retry.max && is_retryable_method route.retry method

plan_of : Bool → Option Route → Plan
plan_of true (some route) = record {
  strategy = route.retry.backoff;
  base =
      if leb_ℤ route.retry.initial_backoff (pos 0)
      then default_retry_initial_backoff
      else pos_part route.retry.initial_backoff;
}
plan_of _ _ = record { strategy = exponential; base = default_retry_initial_backoff }

-- The retries that the configuration allows after the first attempt.
unfoldable pub max_retries : Text → Option Route → ℕ
unfolding retry_enabled
max_retries method none = 0
max_retries method (some route) =
    if retry_enabled method (some route) then pos_part route.retry.max else 0

unfoldable pub execute_with_retries : Upstream → Text → RequestBody → Option Route → Registry → Run
unfolding plan_of max_retries retry_enabled
execute_with_retries up method body route registry =
    attempts_from up (plan_of (retry_enabled method route) route) route (max_retries method route) 1
      body (record { registry = registry; sent = [] })

unfoldable pub record_circuit_outcome : ℕ → Option Route → ℕ → Trace → Trace
unfolding is_failure_status note_failure
record_circuit_outcome now none code t = t
record_circuit_outcome now (some route) code t =
    if is_failure_status code
    then note_failure now (some route) t
    else record t { registry = registry_record_success route t.registry }
