-- ===== src/Base/Regex.antt =====
-- Go's `regexp`, as far as the program calls it: expressions as data, matched by derivatives over the
-- code points of a text.
use harness_loop_agent.Base.{
  ℕ, zero, suc, ◌+◌, Bool, true, false, ◌||◌, ◌&&◌, List, [], ◌∷◌, ◌==◌, leb, if◌then◌else◌, String,
}
use harness_loop_agent.Base.Text.{codes}

-- `range a b` is a class of one range of code points.
pub data Regex : Type 0 where
  fails empty : Regex
  range : ℕ → ℕ → Regex
  either : Regex → Regex → Regex
  next : Regex → Regex → Regex
  many : Regex → Regex

abbrev pub char : ℕ → Regex
char c = range c c

abbrev pub many1 : Regex → Regex
many1 r = next r (many r)

abbrev pub optional : Regex → Regex
optional r = either empty r

abbrev pub at_least : ℕ → Regex → Regex
at_least zero r = many r
at_least (suc n) r = next r (at_least n r)

-- One of the code points.
abbrev pub one_of : List ℕ → Regex
one_of [] = fails
one_of (c ∷ cs) = either (char c) (one_of cs)

abbrev pub spell_codes : List ℕ → Regex
spell_codes [] = empty
spell_codes (c ∷ cs) = next (char c) (spell_codes cs)

-- A text, code point by code point.
abbrev pub spell : String → Regex
spell s = spell_codes (codes s)

abbrev pub any_of : List Regex → Regex
any_of [] = fails
any_of (r ∷ rs) = either r (any_of rs)

-- `\s`
abbrev pub blank : Regex
blank = one_of (0x9 ∷ 0xa ∷ 0xc ∷ 0xd ∷ 0x20 ∷ [])

unfoldable pub nullable : Regex → Bool
nullable fails = false
nullable empty = true
nullable (range a b) = false
nullable (either r s) = nullable r || nullable s
nullable (next r s) = nullable r && nullable s
nullable (many r) = true

-- What is left to match behind a code point.
unfoldable pub derive : ℕ → Regex → Regex
unfolding nullable
derive c fails = fails
derive c empty = fails
derive c (range a b) = if leb a c && leb c b then empty else fails
derive c (either r s) = either (derive c r) (derive c s)
derive c (next r s) =
    if nullable r then either (next (derive c r) s) (derive c s) else next (derive c r) s
derive c (many r) = next (derive c r) (many r)

unfoldable pub matches : Regex → List ℕ → Bool
unfolding derive
matches r [] = nullable r
matches r (c ∷ cs) = matches (derive c r) cs

-- The expression is matched by a part of the text that starts at its first code point.
unfoldable pub matches_start : Regex → List ℕ → Bool
unfolding matches
matches_start r [] = nullable r
matches_start r (c ∷ cs) = nullable r || matches_start (derive c r) cs

-- `MatchString` of an expression without anchors.
unfoldable pub found : Regex → List ℕ → Bool
unfolding matches_start
found r [] = nullable r
found r (c ∷ cs) = matches_start r (c ∷ cs) || found r cs

-- The folding of `(?i)`: K has another upper case letter, and so has s.
abbrev pub fold : ℕ → ℕ
fold c =
    if leb b'A' c && leb c b'Z'
    then c + 32
    else if c == 0x212a
    then b'k'
    else if c == 0x17f
    then b's'
    else c

abbrev pub fold_all : List ℕ → List ℕ
fold_all [] = []
fold_all (c ∷ cs) = fold c ∷ fold_all cs

-- `MatchString` of `(?i)` and an expression in lower case.
unfoldable pub found_fold : Regex → String → Bool
unfolding found
found_fold r s = found r (fold_all (codes s))
