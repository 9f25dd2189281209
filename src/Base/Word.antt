-- ===== src/Base/Word.antt =====
-- Go's 64-bit integers as bit patterns below 2 ^ 64, and `time.Time` as the nanoseconds since the
-- zero time. An `int` or an `int64` is read in two's complement.
use Prim.Native.Nat.{ℕ, ◌+◌, ◌-◌, ◌%◌, ◌^◌, ◌<◌, ◌≤◌}
use mathlib.Core.Logic.{◌⊎◌}
use mathlib.Core.Path.{◌≡◌}
use mathlib.Core.Bool.{Bool}
use native.Mathlib.Omega.{arith}
use harness_loop_agent.Base.{if◌then◌else◌, ltb, leb, ◌==◌}

abbrev pub word_mod : ℕ
word_mod = 2 ^ 64

abbrev pub sign_bit : ℕ
sign_bit = 2 ^ 63

-- `x++`
abbrev pub inc : ℕ → ℕ
inc x = (x + 1) % word_mod

-- `x < 0`
abbrev pub is_negative : ℕ → Bool
is_negative x = leb sign_bit x

-- `a < b` and `a <= b` on signed integers.
abbrev pub slt : ℕ → ℕ → Bool
slt a b = ltb ((a + sign_bit) % word_mod) ((b + sign_bit) % word_mod)

abbrev pub sle : ℕ → ℕ → Bool
sle a b = leb ((a + sign_bit) % word_mod) ((b + sign_bit) % word_mod)

abbrev pub Time : Type 0
Time = ℕ

-- `t.IsZero()`, `t.After(u)`, `t.Before(u)`
abbrev pub is_zero : Time → Bool
is_zero t = t == 0

abbrev pub after : Time → Time → Bool
after t u = ltb u t

abbrev pub before : Time → Time → Bool
before t u = ltb t u

-- `t.Add(d)`: a duration is signed, and no instant is before the zero time.
abbrev pub add_duration : Time → ℕ → Time
add_duration t d = if is_negative d then t - (word_mod - d) else t + d

-- What stands for a number that code raises to 1 where it is less: the number, read as a signed
-- integer, or 1.
abbrev pub AtLeastOne : ℕ → ℕ → Type 0
AtLeastOne given n =
    ((1 ≤ given) × (given < sign_bit) × (n ≡ given))
    ⊎ (((given ≡ 0) ⊎ (sign_bit ≤ given)) × (n ≡ 1))

-- On nonnegative integers the signed order is the order of the numbers.
pub slt-nonneg : (a b : ℕ) → a < sign_bit → b < sign_bit → slt a b ≡ ltb a b
slt-nonneg a b h k = ground arith
