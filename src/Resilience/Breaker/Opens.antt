-- ===== src/Resilience/Breaker/Opens.antt =====
-- internal/resilience/breaker.go: when the breaker opens, and what it lets through while it is open.
use harness_loop_agent.Base.{
  ℕ, ◌+◌, ◌<◌, ◌≤◌, ◌≡◌, refl, false, List, [], ◌∷◌, ◌++◌, length, ok, err, arith,
}
use harness_loop_agent.Base.Word.{Time, sign_bit, is_zero}
use harness_loop_agent.Resilience.Breaker.{
  CircuitBreaker, new_circuit_breaker, allow, success, failure, fail_all, circuit_open, sub,
}

fail_all-snoc :
    (b : CircuitBreaker) (times : List Time) (now : Time)
    → fail_all b (times ++ (now ∷ [])) ≡ failure (fail_all b times) now
fail_all-snoc b [] now = refl
fail_all-snoc b (t ∷ times) now = fail_all-snoc (failure b t) times now

-- A failure that does not meet the threshold is counted.
failure_counts :
    (b : CircuitBreaker) (now : Time)
    → b.half_open_probe ≡ false
    → b.failure_threshold < sign_bit
    → b.failures + 1 < b.failure_threshold
    → failure b now ≡ record b { failures = b.failures + 1 }
unfolding failure
failure_counts b now p m h = ground arith

fail_all_closed :
    (b : CircuitBreaker) (times : List Time)
    → b.half_open_probe ≡ false
    → b.failure_threshold < sign_bit
    → b.failures + length times < b.failure_threshold
    → fail_all b times ≡ record b { failures = b.failures + length times }
fail_all_closed b [] p m h = ground arith
fail_all_closed b (t ∷ times) p m h =
    let counted = failure_counts b t p m (omega arith) in
    let rest = fail_all_closed (record b { failures = b.failures + 1 }) times p m (omega arith) in
    ground (arith, counted, rest)

-- A new breaker whose threshold is not negative, after fewer failures in a row than the threshold,
-- lets a call through at any time and stays as it is.
pub fail_all-allow :
    (threshold timeout : ℕ) (times : List Time) (now : Time)
    → threshold < sign_bit
    → length times < threshold
    → allow (fail_all (new_circuit_breaker threshold timeout) times) now
      ≡ ok (fail_all (new_circuit_breaker threshold timeout) times)
unfolding allow new_circuit_breaker
fail_all-allow threshold timeout times now m h =
    ground
      (arith, fail_all_closed (new_circuit_breaker threshold timeout) times refl m (omega arith))

-- A new breaker whose threshold and timeout are not negative, after as many failures in a row as
-- the threshold says, refuses every call from the last failure, at a time other than the zero time,
-- until the timeout has passed since then.
pub fail_all-refuses :
    (threshold timeout : ℕ) (times : List Time) (opened now : Time)
    → threshold < sign_bit
    → timeout < sign_bit
    → length times + 1 ≡ threshold
    → 0 < opened
    → opened ≤ now
    → now < opened + timeout
    → allow (fail_all (new_circuit_breaker threshold timeout) (times ++ (opened ∷ []))) now
      ≡ err circuit_open
unfolding allow new_circuit_breaker failure sub
fail_all-refuses threshold timeout times opened now m n e p q l =
    let b = new_circuit_breaker threshold timeout in
    ground (arith, fail_all-snoc b times opened, fail_all_closed b times refl m (omega arith))

-- If a breaker that has opened lets a call through, it then refuses a call at any time, and once a
-- success is reported it lets a call through at any time.
pub allow-probes :
    (b b' : CircuitBreaker) (now later : Time)
    → is_zero b.opened_at ≡ false
    → allow b now ≡ ok b'
    → (allow b' later ≡ err circuit_open) × (allow (success b') later ≡ ok (success b'))
unfolding allow success
allow-probes b b' now later z h = ground arith
