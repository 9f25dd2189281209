-- ===== src/Examples/Guards.antt =====
-- The breaker, the bulkhead and the retries.
use harness_loop_agent.Base.{
  ℕ, zero, suc, ◌+◌, ◌≤◌, ◌<◌, ◌⊎◌, inl, inr, ◌≡◌, refl, Bool, true, false, [], ◌∷◌, ◌++◌, none,
  some, Result, ok, err, arith,
}
use harness_loop_agent.Resilience.Breaker.{
  CircuitBreaker, new_circuit_breaker, allow, success, fail_all, circuit_open,
}
use harness_loop_agent.Resilience.Breaker.Opens.{fail_all-allow, fail_all-refuses, allow-probes}
use harness_loop_agent.Resilience.Bulkhead.{
  Bulkhead, new_bulkhead, acquire, Serves, acquired, ended, released, none_served,
  new_bulkhead-Serves,
}
use harness_loop_agent.Resilience.Retry.{
  RetryPolicy, RetryDecision, Ambient, backoff, sleep, pause, do_attempts,
}
use harness_loop_agent.Resilience.Retry.Bounds.{backoff-bound, Counts, Succeeded, do_attempts-calls}

fail_all-allow_example :
    allow (fail_all (new_circuit_breaker 3 100) (5 ∷ 6 ∷ [])) 7
    ≡ ok (fail_all (new_circuit_breaker 3 100) (5 ∷ 6 ∷ []))
fail_all-allow_example = fail_all-allow 3 100 (5 ∷ 6 ∷ []) 7 (omega arith) (omega arith)

fail_all-refuses_example :
    allow (fail_all (new_circuit_breaker 3 100) ((5 ∷ 6 ∷ []) ++ (7 ∷ []))) 50 ≡ err circuit_open
fail_all-refuses_example =
    fail_all-refuses 3 100 (5 ∷ 6 ∷ []) 7 50 (omega arith) (omega arith) refl (omega arith)
      (omega arith) (omega arith)

abbrev open_breaker : CircuitBreaker
open_breaker = record {
  failure_threshold = 3;
  open_timeout = 100;
  failures = 3;
  opened_at = 7;
  half_open_probe = false;
}

abbrev probing : CircuitBreaker
probing = record open_breaker { half_open_probe = true }

open_breaker-allow : allow open_breaker 200 ≡ ok probing
unfolding allow
open_breaker-allow = refl

allow-probes_example :
    (allow probing 201 ≡ err circuit_open) × (allow (success probing) 201 ≡ ok (success probing))
allow-probes_example = allow-probes open_breaker probing 200 201 refl open_breaker-allow

abbrev one_slot : ℕ → Bulkhead
one_slot held = record { limit = 1; held = held }

-- The first context never ends, the second has ended when its caller finds no slot.
served : Serves Bool (new_bulkhead 0) (one_slot 1) 2 1
unfolding new_bulkhead harness_loop_agent.Resilience.Bulkhead.acquire
    harness_loop_agent.Resilience.Bulkhead.release
served = acquired _ (one_slot 1) _ 1 1 true none refl (
    ended _ (one_slot 1) _ 1 1 false (some true) true refl (
      released _ (one_slot 0) _ 1 0 refl
        (acquired _ (one_slot 1) _ 0 0 true none refl (none_served (one_slot 1)))))

new_bulkhead-Serves_example :
    (1 + 1 ≡ 2)
    × (1 ≤ 1)
    × (((1 < 1) × (acquire {E = Bool} true none (one_slot 1) ≡ some (none, one_slot 2)))
        ⊎ ((◌≡◌ {A = ℕ} 1 1) × (acquire {E = Bool} true none (one_slot 1) ≡ none)))
new_bulkhead-Serves_example =
    new_bulkhead-Serves 0 1 (one_slot 1) 2 1 true (omega arith) (inr (inl refl, refl)) served

-- The world counts the calls; the operation succeeds on its second.
abbrev outside : Ambient Bool ℕ
outside = record { ctx_err = λ w. (none, w); timer = λ _ w. (none, w); int64_n = λ n w. (0, w) }

abbrev policy : RetryPolicy Bool ℕ
policy = record { max_attempts = 3; base_delay = 100; max_delay = 250; sleep = none; jitter = none }

abbrev second_time : ℕ → ℕ → Result Bool ℕ × ℕ
second_time zero w = (err false, w + 1)
second_time (suc zero) w = (err true, w + 1)
second_time (suc (suc n)) w = (ok 42, w + 1)

abbrev again : Bool → RetryDecision
again e = record { retry_after = 0; retry = e }

backoff-bound_example : (backoff outside policy 2 0).0 ≤ 250
backoff-bound_example =
    backoff-bound outside policy 2 0 (λ n v p q. p) refl (omega arith) (omega arith) (omega arith)

second_time-counted : (n w : ℕ) → (second_time n w).1 ≡ w + 1
second_time-counted zero w = refl
second_time-counted (suc zero) w = refl
second_time-counted (suc (suc n)) w = refl

pause-quiet : (d : RetryDecision) (n w : ℕ) → (pause outside policy d n w).1 ≡ w
unfolding backoff sleep
pause-quiet d n w = ground arith

second_time-Counts : Counts outside policy 0 again second_time (λ w. w)
second_time-Counts = (second_time-counted, λ w. refl, pause-quiet)

do_attempts-calls_example :
    ((do_attempts outside policy 0 again second_time 0).1 ≤ 0 + 3)
    × Succeeded outside policy 0 again second_time 3
        (do_attempts outside policy 0 again second_time 0)
do_attempts-calls_example =
    do_attempts-calls outside policy 0 again second_time (λ w. w) 3 second_time-Counts (omega arith)
      (inl (omega arith, omega arith, refl)) 0
