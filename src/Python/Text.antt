-- ===== src/Python/Text.antt =====
-- Python's text functions as the policy language uses them: `split('.')`, the slice `[1:-1]` that
-- strips the quotes of a string token, `int(text, 0)`, and iteration over the characters.
pub mod Decimal
pub mod Splitting
use Prim.Native.Char.{Char, code}
use mom.Prelude.{
  ℕ, ◌+◌, ◌-◌, ◌*◌, ◌≡◌, refl, String, Bool, true, false, ◌&&◌, ◌||◌, Option, none, some, List, [],
  ◌∷◌, ◌==◌, eqb, ltb, leb, if◌then◌else◌,
}
use mom.Prelude.Int.{ℤ, pos, negsuc}

-- the head of `rest` gets one more character
abbrev push : Char → List String → List String
push c [] = String.◌∷◌ c String.[] ∷ []
push c (w ∷ ws) = String.◌∷◌ c w ∷ ws

-- s.split(sep), for a separator of one character
unfoldable pub split : ℕ → String → List String
split sep String.[] = String.[] ∷ []
split sep (String.◌∷◌ c s) =
    let rest = split sep s in if eqb (code c) sep then String.[] ∷ rest else push c rest

-- s[:-1]
unfoldable pub drop_last : String → String
drop_last String.[] = String.[]
drop_last (String.◌∷◌ c String.[]) = String.[]
drop_last (String.◌∷◌ c (String.◌∷◌ d s)) = String.◌∷◌ c (drop_last (String.◌∷◌ d s))

-- s[1:-1]
unfoldable pub unquote : String → String
unfolding drop_last
unquote String.[] = String.[]
unquote (String.◌∷◌ c s) = drop_last s

-- the characters of a text, as the texts of length one that iteration gives
abbrev pub characters : String → List String
characters String.[] = []
characters (String.◌∷◌ c s) = String.◌∷◌ c String.[] ∷ characters s

-- the value of a digit in bases up to 16
digit : ℕ → Option ℕ
digit c =
    if leb b'0' c && leb c b'9'
    then some (c - b'0')
    else if leb b'a' c && leb c b'f'
    then some (c - b'a' + 10)
    else if leb b'A' c && leb c b'F'
    then some (c - b'A' + 10)
    else none

below : ℕ → Option ℕ → Option ℕ
below base none = none
below base (some d) = if ltb d base then some d else none

-- `none` is the ValueError of a character that is no digit of the base
digits : ℕ → ℕ → String → Option ℕ
unfolding digit below
digits base acc String.[] = some acc
digits base acc (String.◌∷◌ c s) = elim (below base (digit (code c))) [
  | none ↦ none
  | some d ↦ digits base (acc * base + d) s
]

abbrev nonempty_digits : ℕ → String → Option ℕ
nonempty_digits base String.[] = none
nonempty_digits base (String.◌∷◌ c s) = digits base 0 (String.◌∷◌ c s)

-- the digits of a text with its base prefix; the scanner lets no decimal start with a zero
prefixed : String → Option ℕ
unfolding digits
prefixed (String.◌∷◌ c (String.◌∷◌ d s)) =
    let base16 = nonempty_digits 16 s in
    let base8 = nonempty_digits 8 s in
    let base10 = nonempty_digits 10 (String.◌∷◌ c (String.◌∷◌ d s)) in
    if eqb (code c) b'0'
    then (if eqb (code d) b'x' || eqb (code d) b'X'
        then base16
        else if eqb (code d) b'o' || eqb (code d) b'O'
        then base8
        else none)
    else base10
prefixed s = nonempty_digits 10 s

abbrev negate : ℕ → ℤ
negate n = if eqb n 0 then pos 0 else negsuc (n - 1)

signed : Option ℕ → Bool → Option ℤ
signed none minus = none
signed (some n) minus = some (if minus then negate n else pos n)

-- int(text, 0) on the texts of integer tokens
unfoldable pub parse_int0 : String → Option ℤ
unfolding prefixed signed
parse_int0 String.[] = none
parse_int0 (String.◌∷◌ c s) =
    let negative = signed (prefixed s) true in
    let plain = signed (prefixed (String.◌∷◌ c s)) false in
    if eqb (code c) b'-' then negative else plain

-- the white space that `strip` removes, in ASCII
is_space : ℕ → Bool
is_space c = eqb c 32 || (leb 9 c && leb c 13)

abbrev is_empty : String → Bool
is_empty String.[] = true
is_empty (String.◌∷◌ c s) = false

-- s.lstrip(), and s.rstrip()
unfoldable pub lstrip : String → String
unfolding is_space
lstrip String.[] = String.[]
lstrip (String.◌∷◌ c s) = let rest = lstrip s in if is_space (code c) then rest else String.◌∷◌ c s

unfoldable pub rstrip : String → String
unfolding is_space
rstrip String.[] = String.[]
rstrip (String.◌∷◌ c s) =
    let rest = rstrip s in
    if is_space (code c) && is_empty rest then String.[] else String.◌∷◌ c rest

-- s.startswith(p), and s.endswith(p)
unfoldable pub starts_with : String → String → Bool
starts_with String.[] s = true
starts_with (String.◌∷◌ c p) String.[] = false
starts_with (String.◌∷◌ c p) (String.◌∷◌ d s) = eqb (code c) (code d) && starts_with p s

unfoldable pub ends_with : String → String → Bool
ends_with p String.[] = is_empty p
ends_with p (String.◌∷◌ c s) = p == String.◌∷◌ c s || ends_with p s

-- s.split(p)[0]
unfoldable pub before : String → String → String
unfolding starts_with
before p String.[] = String.[]
before p (String.◌∷◌ c s) =
    let rest = String.◌∷◌ c (before p s) in
    if starts_with p (String.◌∷◌ c s) then String.[] else rest

signed10 : String → Option ℤ
unfolding digits signed
signed10 String.[] = none
signed10 (String.◌∷◌ c s) =
    let unsigned = nonempty_digits 10 s in
    let plain = nonempty_digits 10 (String.◌∷◌ c s) in
    if eqb (code c) b'-'
    then signed unsigned true
    else if eqb (code c) b'+'
    then signed unsigned false
    else signed plain false

-- int(text): decimal digits with an optional sign, between white space
unfoldable pub parse_int : String → Option ℤ
unfolding signed10 lstrip rstrip
parse_int s = signed10 (lstrip (rstrip s))

-- The examples of the documentation of `int`, and the cases that the scanner can produce.
numerals :
    (parse_int0 "-12" ≡ some (negsuc 11))
    × (parse_int0 "0x1F" ≡ some (pos 31))
    × (parse_int0 "0o17" ≡ some (pos 15))
    × (parse_int0 "0o19" ≡ none)
    × (parse_int " 042\n" ≡ some (pos 42))
    × (parse_int "4x" ≡ none)
unfolding parse_int0 parse_int
numerals = (refl, refl, refl, refl, refl, refl)

names : split b'.' "Host.Stat.x" ≡ "Host" ∷ "Stat" ∷ "x" ∷ []
unfolding split
names = refl

policy_files :
    (starts_with "." ".x" ≡ true)
    × (ends_with ".policy" "10_a.policy" ≡ true)
    × (ends_with ".policy" "10_a.policy~" ≡ false)
    × (before ".policy" "10_a.policy" ≡ "10_a")
unfolding starts_with ends_with before
policy_files = (refl, refl, refl, refl)

quotes : unquote "\"ab\"" ≡ "ab"
unfolding unquote
quotes = refl
