-- ===== src/Resilience/Retry/Bounds.antt =====
-- internal/resilience/retry.go: how long a backoff is, how often `Do` calls, and what it returns.
use harness_loop_agent.Base.{
  ℕ, zero, suc, ◌+◌, ◌-◌, ◌*◌, ◌/◌, ◌<◌, ◌≤◌, ◌≡◌, subst, inl, inr, false, not, ◌||◌, Option, none,
  some, Result, ok, ◌==◌, arith, Bool-cases, Option-cases, Result-cases, if◌then◌else◌,
}
use harness_loop_agent.Base.Word.{word_mod, sign_bit, sle, AtLeastOne}
use harness_loop_agent.Resilience.Retry.{
  default_base_delay, RetryPolicy, RetryDecision, Ambient, grow, capped, backoff, pause, attempts,
  do_from, do_attempts,
}

-- The doubled delay stays a positive `int64`.
grow-positive :
    (max_delay n delay : ℕ)
    → 0 < max_delay
    → max_delay < sign_bit
    → 0 < delay
    → delay < sign_bit
    → grow max_delay n delay < sign_bit
unfolding grow
grow-positive m zero d p q r s = s
grow-positive m (suc n) d p q r s = elim (Bool-cases (sle (m / 2) d)) [
  | inl h ↦ ground (arith, h)
  | inr h ↦ ground (arith, h, grow-positive m n (d * 2) p q)
]

-- With a positive largest delay, doubling neither overflows nor passes it.
capped-bound :
    (base_delay max_delay attempt : ℕ)
    → 0 < max_delay
    → max_delay < sign_bit
    → base_delay < word_mod
    → capped base_delay max_delay attempt ≤ max_delay
unfolding capped
capped-bound b m a p q r =
    let base = if sle b 0 then default_base_delay else b in
    let positive : 0 < base = ground arith in
    let small : base < sign_bit = ground arith in
    let grown = grow-positive m (a - 1) base p q positive small in ground (arith, grown)

-- With a positive largest delay below the largest `int64`, and no jitter of the policy, a backoff
-- is at most the largest delay at every attempt, if `rand.Int64N` of a positive number is below
-- that number.
pub backoff-bound :
    {E W : Type 0} (outside : Ambient E W) (policy : RetryPolicy E W) (attempt : ℕ) (w : W)
    → ((n : ℕ) (v : W) → 0 < n → n < sign_bit → (outside.int64_n n v).0 < n)
    → policy.jitter ≡ none
    → 0 < policy.max_delay
    → policy.max_delay + 1 < sign_bit
    → policy.base_delay < word_mod
    → (backoff outside policy attempt w).0 ≤ policy.max_delay
unfolding backoff
backoff-bound outside policy attempt w rand no_jitter p q r =
    let d = capped policy.base_delay policy.max_delay attempt in
    let bound = capped-bound policy.base_delay policy.max_delay attempt p (omega arith) r in
    ground (arith, bound, rand (d + 1) w, no_jitter)

module _ {E W A : Type 0} (outside : Ambient E W) (policy : RetryPolicy E W) (empty : A)
    (classify : E → RetryDecision) (operation : ℕ → W → Result E A × W) where
  -- The ways a round of the loop can end.
  round_cases :
      (P : (A × Option E) × W → Type 0) (n attempt : ℕ) (w : W)
      → ((e : E) → P ((empty, some e), (outside.ctx_err w).1))
      → (let w1 = (outside.ctx_err w).1 in
          (x : A) → (operation attempt w1).0 ≡ ok x → P ((x, none), (operation attempt w1).1))
      → (let w2 = (operation attempt (outside.ctx_err w).1).1 in (e : E) → P ((empty, some e), w2))
      → (let w2 = (operation attempt (outside.ctx_err w).1).1 in
          (e e' : E) → P ((empty, some e'), (pause outside policy (classify e) attempt w2).1))
      → (let w2 = (operation attempt (outside.ctx_err w).1).1 in
          (e : E)
          → (attempt == attempts outside policy) ≡ false
          → P (
              do_from outside policy empty classify operation n
                (attempt + 1)
                (pause outside policy (classify e) attempt w2).1))
      → P (do_from outside policy empty classify operation (suc n) attempt w)
  unfolding do_from
  round_cases P n attempt w ended succeeded gave_up woken_up again =
      let (done, w1) = outside.ctx_err w in
      let (result, w2) = operation attempt w1 in
      elim (Option-cases done) [
        | inr (e, d) ↦ ground (arith, d, ended e)
        | inl d ↦ elim (Result-cases result) [
          | inl (x, o) ↦ ground (arith, d, o, succeeded x o)
          | inr (e, o) ↦
              elim (Bool-cases (not (classify e).retry || (attempt == attempts outside policy))) [
                | inl l ↦ ground (arith, d, o, l, gave_up e)
                | inr l ↦ elim (Option-cases (pause outside policy (classify e) attempt w2).0) [
                  | inl s ↦ ground (arith, d, o, l, s, again e)
                  | inr (e', s) ↦ ground (arith, d, o, l, s, woken_up e e')
                ]
              ]
        ]
      ]

  -- Calls are counted by any measure of the world that an operation raises by one and nothing else
  -- moves.
  abbrev pub Counts : (W → ℕ) → Type 0
  Counts calls =
      ((n : ℕ) (w : W) → calls (operation n w).1 ≡ calls w + 1)
      × ((w : W) → calls (outside.ctx_err w).1 ≡ calls w)
      × ((d : RetryDecision) (n : ℕ) (w : W) → calls (pause outside policy d n w).1 ≡ calls w)

  do_from-calls :
      (calls : W → ℕ)
      → Counts calls
      → (n attempt : ℕ) (w : W)
      → calls (do_from outside policy empty classify operation n attempt w).1 ≤ calls w + n
  unfolding do_from
  do_from-calls calls (op, quiet, still) zero attempt w = ground (arith, quiet w)
  do_from-calls calls (op, quiet, still) (suc n) attempt w =
      let w1 = (outside.ctx_err w).1 in
      let w2 = (operation attempt w1).1 in
      round_cases (λ out. calls out.1 ≤ calls w + suc n) n attempt w (λ e. ground (arith, quiet w))
        (λ x o. ground (arith, quiet w, op attempt w1))
        (λ e. ground (arith, quiet w, op attempt w1))
        (λ e e'. ground (arith, quiet w, op attempt w1, still (classify e) attempt w2))
        (λ e l.
          let w3 = (pause outside policy (classify e) attempt w2).1 in
          ground (
            arith,
            quiet w,
            op attempt w1,
            still (classify e) attempt w2,
            do_from-calls calls (op, quiet, still) n (attempt + 1) w3,
          ))

  -- An outcome that is no error is what the operation returned on an attempt from 1 to `last`.
  abbrev pub Succeeded : ℕ → (A × Option E) × W → Type 0
  Succeeded last ((x, e), w) =
      e ≡ none → (k : ℕ) × (v : W) × (1 ≤ k) × (k ≤ last) × (operation k v ≡ (ok x, w))

  do_from-Succeeded :
      (n attempt : ℕ) (w : W)
      → 1 ≤ n
      → 1 ≤ attempt
      → attempt + n ≡ attempts outside policy + 1
      → Succeeded
          (attempts outside policy)
          (do_from outside policy empty classify operation n attempt w)
  do_from-Succeeded zero attempt w p q r = ground arith
  do_from-Succeeded (suc n) attempt w p q r =
      let w1 = (outside.ctx_err w).1 in
      round_cases (Succeeded (attempts outside policy)) n attempt w (λ e h. ground arith)
        (λ x o h. (attempt, w1, q, omega arith, ground (arith, o))) (λ e h. ground arith)
        (λ e e' h. ground arith)
        (λ e l.
          do_from-Succeeded n (attempt + 1)
            (pause outside policy (classify e) attempt (operation attempt w1).1).1 (ground arith)
            (omega arith) (omega arith))

  -- Let `n` be the integer that the policy gives for its attempts, or 1 where that is less than 1.
  -- `Do` calls the operation at most `n` times, by any measure that each call of the operation raises
  -- by one and nothing else moves; and if it returns no error, its result is that of a call which
  -- succeeded on an attempt from 1 to `n`, and the world is the one that call left.
  pub do_attempts-calls :
      (calls : W → ℕ) (n : ℕ)
      → Counts calls
      → policy.max_attempts < word_mod
      → AtLeastOne policy.max_attempts n
      → (w : W)
      → (calls (do_attempts outside policy empty classify operation w).1 ≤ calls w + n)
        × Succeeded n (do_attempts outside policy empty classify operation w)
  unfolding do_attempts
  do_attempts-calls calls n counts small at w =
      let last : attempts outside policy ≡ n = ground (arith, at) in
      (
        subst (λ k. calls (do_attempts outside policy empty classify operation w).1 ≤ calls w + k)
            last (do_from-calls calls counts (attempts outside policy) 1 w),
        subst (λ k. Succeeded k (do_attempts outside policy empty classify operation w)) last
            (do_from-Succeeded (attempts outside policy) 1 w (ground arith) (omega arith)
              (ground arith)),
      )
