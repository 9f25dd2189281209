-- ===== src/Resilience/Breaker.antt =====
-- internal/resilience/breaker.go: the circuit breaker. Its mutex makes each method one step; the
-- clock's reading is an argument of the methods that take one. `-` on instants and durations
-- saturates as `time.Time.Sub` does.
pub mod Opens
use harness_loop_agent.Base.{
  ℕ, ◌+◌, ◌-◌, ◌^◌, ◌<◌, ◌≤◌, ◌≡◌, refl, inl, inr, Bool, true, false, not, ◌&&◌, ◌||◌, Result, ok,
  err, ◌>>=◌, ◌>>◌, reject_if, arith, ltb, leb, if◌then◌else◌, String, List, [], ◌∷◌, ◌⊎◌,
}
use harness_loop_agent.Base.Word.{Time, word_mod, sign_bit, inc, slt, sle, is_zero}

pub record CircuitBreaker : Type 0 where
  pub failure_threshold : ℕ  -- int
  pub open_timeout : ℕ  -- time.Duration
  pub failures : ℕ  -- int
  pub opened_at : Time
  pub half_open_probe : Bool

-- `NewCircuitBreaker`, less the clock
unfoldable pub new_circuit_breaker : ℕ → ℕ → CircuitBreaker
new_circuit_breaker failure_threshold open_timeout = record {
  failure_threshold = failure_threshold;
  open_timeout = open_timeout;
  failures = 0;
  opened_at = 0;
  half_open_probe = false;
}

-- `t.Sub(u)`
unfoldable pub sub : Time → Time → ℕ
sub t u =
    if ltb t u
    then (if leb (u - t) sign_bit then word_mod - (u - t) else sign_bit)
    else (if ltb (t - u) sign_bit then t - u else sign_bit - 1)

pub data BreakerError : Type 0 where
  circuit_open : BreakerError

unfoldable pub allow : CircuitBreaker → Time → Result BreakerError CircuitBreaker
unfolding sub
allow b now =
    if is_zero b.opened_at
    then ok b
    else if slt (sub now b.opened_at) b.open_timeout || b.half_open_probe
    then err circuit_open
    else ok (record b { half_open_probe = true })

unfoldable pub success : CircuitBreaker → CircuitBreaker
success b = record b { failures = 0; opened_at = 0; half_open_probe = false }

unfoldable pub failure : CircuitBreaker → Time → CircuitBreaker
failure b now =
    let failed : CircuitBreaker = record b { half_open_probe = false; failures = inc b.failures } in
    if slt 0 b.failure_threshold && sle b.failure_threshold (inc b.failures)
    then record failed { opened_at = now }
    else failed

-- Failures in a row, none of them followed by a success.
abbrev pub fail_all : CircuitBreaker → List Time → CircuitBreaker
fail_all b [] = b
fail_all b (now ∷ times) = fail_all (failure b now) times
