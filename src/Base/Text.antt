-- ===== src/Base/Text.antt =====
-- Go's `strings`, `unicode` and `fmt` on texts, as far as the program calls them. A text is a native
-- string of code points, so a byte sequence that is no UTF-8 has none.
use Prim.Native.Char.{code}
use Prim.Native.String.{compare, ◌++◌}
use Prim.Native.Nat
use text.Mathlib.Text.{find?}
use harness_loop_agent.Base.{
  ℕ, zero, suc, ◌+◌, ◌/◌, ◌%◌, String, Bool, true, false, ◌||◌, ◌&&◌, List, [], ◌∷◌, ◌==◌, leb, ltb,
  if◌then◌else◌, is_some,
}

-- The code points of a text.
abbrev pub codes : String → List ℕ
codes String.[] = []
codes (String.◌∷◌ c s) = code c ∷ codes s

-- `unicode.IsSpace`
unfoldable pub is_space : ℕ → Bool
is_space c =
    (leb 0x9 c && leb c 0xd)
    || (c == 0x20)
    || (c == 0x85)
    || (c == 0xa0)
    || (c == 0x1680)
    || (leb 0x2000 c && leb c 0x200a)
    || (c == 0x2028)
    || (c == 0x2029)
    || (c == 0x202f)
    || (c == 0x205f)
    || (c == 0x3000)

abbrev pub is_nil : String → Bool
is_nil String.[] = true
is_nil (String.◌∷◌ c s) = false

-- The two halves of `strings.TrimSpace`.
unfoldable pub trim_start : String → String
unfolding is_space
trim_start String.[] = ""
trim_start (String.◌∷◌ c s) =
    let rest = trim_start s in if is_space (code c) then rest else String.◌∷◌ c s

unfoldable pub trim_end : String → String
unfolding is_space
trim_end String.[] = ""
trim_end (String.◌∷◌ c s) =
    let rest = trim_end s in if is_nil rest && is_space (code c) then "" else String.◌∷◌ c rest

unfoldable pub trim : String → String
unfolding trim_start trim_end
trim s = trim_end (trim_start s)

-- `strings.TrimSpace(s) == ""`
unfoldable pub is_blank : String → Bool
unfolding trim
is_blank s = is_nil (trim s)

-- `strings.Join(strings.Fields(s), " ")`, after a word or not, and with a space that is due or not.
unfoldable pub join_fields : Bool → Bool → String → String
unfolding is_space
join_fields started due String.[] = ""
join_fields started due (String.◌∷◌ c s) =
    let between = join_fields started started s in
    let word = String.◌∷◌ c (join_fields true false s) in
    if is_space (code c) then between else (if due then " " ++ word else word)

unfoldable pub words : String → String
unfolding join_fields
words s = join_fields false false s

-- `strings.Contains(s, part)`
abbrev pub contains : String → String → Bool
contains s part = is_some (find? s part)

-- `a < b` on texts
abbrev pub text_lt : String → String → Bool
text_lt a b = elim (compare a b) [ Nat.Ordering.lt ↦ true | _ ↦ false ]

-- `strings.ToLower` on ASCII, code point by code point.
abbrev pub lower_ascii : ℕ → ℕ
lower_ascii c = if leb b'A' c && leb c b'Z' then c + 32 else c

-- `hex.DecodeString` succeeds on a text of an even length when each byte is such a digit.
abbrev pub is_hex : ℕ → Bool
is_hex c = (leb b'0' c && leb c b'9') || (leb b'a' c && leb c b'f') || (leb b'A' c && leb c b'F')

abbrev pub all_codes : (ℕ → Bool) → List ℕ → Bool
all_codes p [] = true
all_codes p (c ∷ cs) = p c && all_codes p cs

-- A digit, and `%d` of a number with at most `n` digits.
abbrev pub digit : ℕ → String
digit d =
    if d == 0
    then "0"
    else if d == 1
    then "1"
    else if d == 2
    then "2"
    else if d == 3
    then "3"
    else if d == 4
    then "4"
    else if d == 5
    then "5"
    else if d == 6
    then "6"
    else if d == 7
    then "7"
    else if d == 8
    then "8"
    else "9"

unfoldable pub digits : ℕ → ℕ → String
digits zero n = ""
digits (suc k) n =
    let front = digits k (n / 10) in if ltb n 10 then digit n else front ++ digit (n % 10)

-- `%d` of a `uint64`, which has at most 20 digits.
unfoldable pub decimal : ℕ → String
unfolding digits
decimal n = digits 20 n

abbrev pub same_codes : List ℕ → List ℕ → Bool
same_codes [] [] = true
same_codes (a ∷ xs) (b ∷ ys) = (a == b) && same_codes xs ys
same_codes _ _ = false
