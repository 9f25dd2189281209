-- ===== src/Resilience/Retry.antt =====
-- internal/resilience/retry.go: `Do` and its backoff. The world `W` is passed through the calls; `A` is
-- the operation's result and `E` its errors.
pub mod Bounds
use harness_loop_agent.Base.{
  ℕ, zero, suc, ◌+◌, ◌-◌, ◌*◌, ◌/◌, ◌%◌, Bool, true, false, not, ◌&&◌, ◌||◌, Option, none, some,
  Result, ok, err, ◌==◌, if◌then◌else◌,
}
use harness_loop_agent.Base.Word.{word_mod, slt, sle}

pub record RetryPolicy (E W : Type 0) : Type 0 where
  pub max_attempts : ℕ  -- int
  pub base_delay : ℕ  -- time.Duration
  pub max_delay : ℕ  -- time.Duration
  pub sleep : Option (ℕ → W → Option E × W)
  pub jitter : Option (ℕ → W → ℕ × W)

pub record RetryDecision : Type 0 where
  pub retry_after : ℕ  -- time.Duration
  pub retry : Bool

-- What `Do` takes from elsewhere: `ctx.Err`, the timer beside the context's end, and
-- `rand.Int64N`.
pub record Ambient (E W : Type 0) : Type 0 where
  pub ctx_err : W → Option E × W
  pub timer : ℕ → W → Option E × W
  pub int64_n : ℕ → W → ℕ × W

-- 100 milliseconds
abbrev pub default_base_delay : ℕ
default_base_delay = 100000000

-- The loop of `backoff`, with `n` rounds left.
unfoldable pub grow : ℕ → ℕ → ℕ → ℕ
grow max_delay zero delay = delay
grow max_delay (suc n) delay =
    let rest = grow max_delay n ((delay * 2) % word_mod) in
    if slt 0 max_delay && sle (max_delay / 2) delay then max_delay else rest

-- The delay of `backoff` before it is spread.
unfoldable pub capped : ℕ → ℕ → ℕ → ℕ
unfolding grow
capped base_delay max_delay attempt =
    let base = if sle base_delay 0 then default_base_delay else base_delay in
    let delay = grow max_delay (attempt - 1) base in
    if slt 0 max_delay && slt max_delay delay then max_delay else delay

module _ {E W : Type 0} (outside : Ambient E W) (policy : RetryPolicy E W) where
  unfoldable pub backoff : ℕ → W → ℕ × W
  unfolding capped
  backoff attempt w =
      let delay = capped policy.base_delay policy.max_delay attempt in
      elim policy.jitter [
        | some jitter ↦ jitter delay w
        | none ↦ if sle delay 1 then (delay, w) else outside.int64_n ((delay + 1) % word_mod) w
      ]

  unfoldable pub sleep : ℕ → W → Option E × W
  sleep delay w = elim policy.sleep [ some own ↦ own delay w | none ↦ outside.timer delay w ]

  -- The pause after a failed attempt.
  abbrev pub pause : RetryDecision → ℕ → W → Option E × W
  pause decision attempt w =
      if sle decision.retry_after 0
      then (let (delay, w1) = backoff attempt w in sleep delay w1)
      else sleep decision.retry_after w

  abbrev pub attempts : ℕ
  attempts = if slt policy.max_attempts 1 then 1 else policy.max_attempts

  module _ {A : Type 0} (empty : A) (classify : E → RetryDecision)
      (operation : ℕ → W → Result E A × W) where
    -- The loop of `Do`, from `attempt` on, with `n` rounds left.
    unfoldable pub do_from : ℕ → ℕ → W → (A × Option E) × W
    do_from zero attempt w = let (e, w1) = outside.ctx_err w in ((empty, e), w1)
    do_from (suc n) attempt w =
        let (done, w1) = outside.ctx_err w in
        let (result, w2) = operation attempt w1 in
        elim done [
          | some e ↦ ((empty, some e), w1)
          | none ↦ elim result [
            | ok x ↦ ((x, none), w2)
            | err e ↦
                let (woken, w3) = pause (classify e) attempt w2 in
                elim (not (classify e).retry || (attempt == attempts)) [
                  | true ↦ ((empty, some e), w2)
                  | false ↦ elim woken [
                    | some e' ↦ ((empty, some e'), w3)
                    | none ↦ do_from n (attempt + 1) w3
                  ]
                ]
          ]
        ]

    -- `Do`
    unfoldable pub do_attempts : W → (A × Option E) × W
    unfolding do_from
    do_attempts w = do_from attempts 1 w
