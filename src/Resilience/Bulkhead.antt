-- ===== src/Resilience/Bulkhead.antt =====
-- internal/resilience/bulkhead.go: the semaphore is a channel of capacity `limit`, of which `held`
-- slots are taken. A send or a receive that would block is no step of the relation.
use harness_loop_agent.Base.{
  ℕ, ◌+◌, ◌-◌, ◌≤◌, ◌<◌, ◌≡◌, refl, ◌⊎◌, inl, inr, Bool, not, ◌&&◌, Option, none, some, arith, ltb,
  Bool-cases, if◌then◌else◌,
}
use harness_loop_agent.Base.Word.{slt, word_mod, AtLeastOne}

pub record Bulkhead : Type 0 where
  pub limit : ℕ  -- int
  pub held : ℕ

-- `NewBulkhead`
unfoldable pub new_bulkhead : ℕ → Bulkhead
new_bulkhead limit = record { limit = if slt limit 1 then 1 else limit; held = 0 }

-- `Acquire`, where it does not block: what it returns, and the bulkhead after it. `done` is the
-- error of a context that has ended, and `prefer_done` is the choice that the select makes at random
-- when both of its cases are ready.
unfoldable pub acquire : {E : Type 0} → Bool → Option E → Bulkhead → Option (Option E × Bulkhead)
acquire prefer_done none b =
    if ltb b.held b.limit then some (none, record b { held = b.held + 1 }) else none
acquire prefer_done (some e) b =
    if ltb b.held b.limit && not prefer_done
    then some (none, record b { held = b.held + 1 })
    else some (some e, b)

-- The receive of `Release`, when it does not block.
unfoldable pub release : Bulkhead → Option Bulkhead
release b = if ltb 0 b.held then some (record b { held = b.held - 1 }) else none

-- The calls of the users of one bulkhead, in the order in which the channel serves them: `n` calls
-- of `Acquire` that returned no error, and `m` of `Release`.
pub data Serves (E : Type 0) : Bulkhead → Bulkhead → ℕ → ℕ → Type 0 where
  none_served : (b : Bulkhead) → Serves E b b 0 0
  acquired :
      (b c d : Bulkhead) (n m : ℕ) (prefer_done : Bool) (done : Option E)
      → acquire prefer_done done b ≡ some (none, c)
      → Serves E c d n m
      → Serves E b d (n + 1) m
  ended :
      (b c d : Bulkhead) (n m : ℕ) (prefer_done : Bool) (done : Option E) (e : E)
      → acquire prefer_done done b ≡ some (some e, c)
      → Serves E c d n m
      → Serves E b d n m
  released :
      (b c d : Bulkhead) (n m : ℕ) → release b ≡ some c → Serves E c d n m → Serves E b d n (m + 1)

-- In any order of calls, the slots taken are those acquired and not released, and they are never
-- more than the limit.
Serves-held :
    {E : Type 0} (b d : Bulkhead) (n m : ℕ)
    → Serves E b d n m
    → b.held ≤ b.limit
    → (d.held + m ≡ b.held + n) × (d.held ≤ d.limit) × (d.limit ≡ b.limit)
unfolding acquire release
Serves-held b d n m (none_served _) h = (refl, h, refl)
Serves-held b d n m (acquired _ c _ n' m' p none e s) h = ground (arith, Serves-held c d n' m' s)
Serves-held b d n m (acquired _ c _ n' m' p (some x) e s) h =
    ground (arith, Serves-held c d n' m' s)
Serves-held b d n m (ended _ c _ n' m' p none x e s) h = ground (arith, Serves-held c d n' m' s)
Serves-held b d n m (ended _ c _ n' m' p (some y) x e s) h = ground (arith, Serves-held c d n' m' s)
Serves-held b d n m (released _ c _ n' m' e s) h = ground (arith, Serves-held c d n' m' s)

-- Let `n` be the integer that `NewBulkhead` is given, or 1 where that is less than 1. Whatever the
-- order in which the new bulkhead serves calls of which `k` acquire a slot and `m` release one, with
-- contexts that end or not, the slots held are `k` less `m` and at most `n`; and a further `Acquire`
-- with a context that has not ended takes a slot where fewer than `n` are held, and blocks otherwise.
pub new_bulkhead-Serves :
    {E : Type 0} (limit n : ℕ) (d : Bulkhead) (k m : ℕ) (prefer_done : Bool)
    → limit < word_mod
    → AtLeastOne limit n
    → Serves E (new_bulkhead limit) d k m
    → (d.held + m ≡ k)
      × (d.held ≤ n)
      × (((d.held < n)
            × (acquire {E = E} prefer_done none d ≡ some (none, record d { held = d.held + 1 })))
          ⊎ ((d.held ≡ n) × (acquire {E = E} prefer_done none d ≡ none)))
unfolding new_bulkhead acquire
new_bulkhead-Serves limit n d k m prefer_done small at s =
    let (count, most, same) = Serves-held (new_bulkhead limit) d k m s (ground arith) in
    let capacity : d.limit ≡ n = ground (arith, same, at) in
    (
      ground (arith, count),
      ground (arith, most, capacity),
      elim (Bool-cases (ltb d.held d.limit)) [
        | inl t ↦ inl (ground (arith, t, capacity), ground (arith, t))
        | inr t ↦ inr (ground (arith, t, capacity, most), ground (arith, t))
      ],
    )
