-- ===== src/Policy/Grammar/Reader.antt =====
-- The reader finds the value of every derivation of the grammar of class Parser, and nothing else
-- (mom/Policy/Parser.py).
use mathlib.Core.List.{append_assoc}
use mom.Prelude.{
  String, true, Option, none, some, List, [], ◌∷◌, ◌++◌, ◌≡◌, refl, sym, ◌∙◌, ◌↔◌, arith, inl, inr,
  Bool-cases, Option-cases, Result, ok, err,
}
use mom.Python.Value.{Error, policy, parse_error, index_error}
use mom.Policy.Code.{Code}
use mom.Policy.Grammar.{
  Bracket, round, square, curly, Lexeme, opening, closing, atom, bracketed, IsValue, IsValues,
  token, empty, full, one, more, same, Frames, finish, tree_of, read_on, read, Parsed, outcome,
  get_code, IsParser,
}

same_refl : (b : Bracket) → same b b ≡ true
unfolding same
same_refl round = refl
same_refl square = refl
same_refl curly = refl

same-eq : (b c : Bracket) → same b c ≡ true → b ≡ c
unfolding same
same-eq round round h = refl
same-eq square square h = refl
same-eq curly curly h = refl
same-eq round _ h = absurd (ground (arith, h))
same-eq _ _ h = absurd (ground (arith, h))

tree_of-bracketed : (b : Bracket) (values : List Code) → tree_of b values ≡ bracketed b values
unfolding tree_of
tree_of-bracketed round values = refl
tree_of-bracketed square values = refl
tree_of-bracketed curly values = refl

-- Whatever is open, the reader adds to the values it has what a derivation gives.
mutual
  unfolding read_on

  read_on-IsValue :
      {ts rest : List Lexeme} {value : Code}
      → IsValue ts value rest
      → (frames : Frames) (values : List Code)
      → read_on frames values ts ≡ read_on frames (values ++ value ∷ []) rest
  read_on-IsValue token frames values = refl
  read_on-IsValue (empty {b}) frames values = rw (same_refl b, tree_of-bracketed b []) refl
  read_on-IsValue (full {b} d) frames values =
      rw (read_on-IsValues d ((b, values) ∷ frames) [])
        (rw (same_refl b, tree_of-bracketed b _) refl)

  read_on-IsValues :
      {ts rest : List Lexeme} {added : List Code}
      → IsValues ts added rest
      → (frames : Frames) (values : List Code)
      → read_on frames values ts ≡ read_on frames (values ++ added) rest
  read_on-IsValues (one d) frames values = read_on-IsValue d frames values
  read_on-IsValues (more {values = first} {value} d e) frames values = rw (
    read_on-IsValues d frames values,
    read_on-IsValue e frames (values ++ first),
    append_assoc values first (value ∷ []),
  )

-- no values, or what a derivation gives
data Prefix : List Lexeme → List Code → List Lexeme → Type 0 where
  start : {ts : List Lexeme} → Prefix ts [] ts
  values : {ts rest : List Lexeme} {code : List Code} → IsValues ts code rest → Prefix ts code rest

Prefix-more :
    {ts middle rest : List Lexeme} {code : List Code} {value : Code}
    → Prefix ts code middle
    → IsValue middle value rest
    → Prefix ts (code ++ value ∷ []) rest
Prefix-more start e = values (one e)
Prefix-more (values d) e = values (more d e)

-- What the reader holds is what the tokens up to `rest` derive.
Holds : List Lexeme → Frames → List Code → List Lexeme → Type 0
Holds whole [] code rest = Prefix whole code rest
Holds whole ((b, before) ∷ frames) code rest =
    (inside : List Lexeme) × Holds whole frames before (opening b ∷ inside)
    × Prefix inside code rest

Holds-more :
    (whole : List Lexeme) (frames : Frames) (code : List Code) {middle rest : List Lexeme}
    {value : Code}
    → Holds whole frames code middle
    → IsValue middle value rest
    → Holds whole frames (code ++ value ∷ []) rest
unfolding Holds
Holds-more whole [] code h d = Prefix-more h d
Holds-more whole (_ ∷ frames) code (inside, h, p) d = (inside, h, Prefix-more p d)

-- a bracket that is closed is a value
closed-IsValue :
    {inside rest : List Lexeme} {code : List Code} (b : Bracket)
    → Prefix inside code (closing b ∷ rest)
    → IsValue (opening b ∷ inside) (bracketed b code) rest
closed-IsValue b start = empty
closed-IsValue b (values d) = full d

finish-Holds :
    (whole : List Lexeme) (frames : Frames) (code found : List Code)
    → Holds whole frames code []
    → finish frames code ≡ some found
    → IsValues whole found []
unfolding Holds finish
finish-Holds whole [] [] found h e = absurd (ground (arith, e))
finish-Holds whole [] (v ∷ vs) found (values d) e =
    let same_values : v ∷ vs ≡ found = ground (arith, e) in rw (← same_values) d
finish-Holds whole (_ ∷ _) code found h e = absurd (ground (arith, e))

read_on-Holds :
    (whole : List Lexeme) (frames : Frames) (code : List Code) (rest : List Lexeme)
    (found : List Code)
    → Holds whole frames code rest
    → read_on frames code rest ≡ some found
    → IsValues whole found []
unfolding read_on Holds
read_on-Holds whole frames code [] found h e = finish-Holds whole frames code found h e
read_on-Holds whole frames code (atom t ∷ ts) found h e =
    read_on-Holds whole frames _ ts found (Holds-more whole frames _ h token) e
read_on-Holds whole frames code (opening b ∷ ts) found h e =
    read_on-Holds whole ((b, code) ∷ frames) [] ts found (ts, h, start) e
read_on-Holds whole [] code (closing b ∷ ts) found h e = absurd (ground (arith, e))
read_on-Holds whole ((last, before) ∷ frames) code (closing b ∷ ts) found (inside, h, p) e =
    elim (Bool-cases (same last b)) [
      | inl t ↦
          read_on-Holds whole frames _ ts found
            (Holds-more whole frames _ h
              (rw (same-eq last b t, tree_of-bracketed b code) (closed-IsValue b p)))
            (rw t at e)
      | inr f ↦ absurd (ground (arith, f, e))
    ]

finish-IsValues :
    {ts rest : List Lexeme} {code : List Code} → IsValues ts code rest → finish [] code ≡ some code
unfolding finish
finish-IsValues (one d) = refl
finish-IsValues (more {values = []} d e) = refl
finish-IsValues (more {values = _ ∷ _} d e) = refl

-- A list of tokens has a derivation with the value `code` just if the reader reads `code`.
pub read-IsValues :
    (ts : List Lexeme) (code : List Code) → IsValues ts code [] ↔ (read ts ≡ some code)
unfolding read read_on Holds
read-IsValues ts code =
    (λ d. read_on-IsValues d [] [] ∙ finish-IsValues d, read_on-Holds ts [] [] ts code start)

-- What `read` gives for tokens of which there is at least one.
abbrev pub by_read : Option (List Code) → Result Error (List Code)
by_read none = err (policy parse_error)
by_read (some code) = ok code

abbrev pub reading : List Lexeme → Result Error (List Code)
reading [] = err index_error
reading (t ∷ ts) = by_read (read (t ∷ ts))

-- The reader behind the scanner: a PolicyError for a text that the scanner refuses and for brackets
-- that do not match, and an IndexError for a text of blanks and comments.
abbrev pub reading_scanned : Option (List Lexeme) → Result Error (List Code)
reading_scanned none = err (policy parse_error)
reading_scanned (some ts) = reading ts

abbrev pub reference : (String → Option (List Lexeme)) → String → Result Error (List Code)
reference scan text = reading_scanned (scan text)

pub reading-read :
    (ts : List Lexeme) (code : List Code) → read ts ≡ some code → reading ts ≡ ok code
unfolding read
reading-read [] code e = absurd (ground (arith, e))
reading-read (t ∷ ts) code e = rw e refl

parse-read :
    {parse : List Lexeme → Parsed}
    → IsParser parse
    → (ts : List Lexeme) → outcome (parse ts) ≡ reading ts
parse-read is_parser [] = rw (is_parser.no_tokens) refl
parse-read is_parser (t ∷ ts) = elim (Option-cases (read (t ∷ ts))) [
  | inl unread ↦
      rw
        (
          is_parser.exits t ts
              (λ code d. absurd (ground (arith, unread, (read-IsValues (t ∷ ts) code).0 d))),
          unread,
        )
        refl
  | inr (code, found) ↦
      let (other, e) = is_parser.complete (t ∷ ts) code ((read-IsValues (t ∷ ts) code).1 found) in
      rw e (
        sym (
          reading-read (t ∷ ts) other
            ((read-IsValues (t ∷ ts) other).0 (is_parser.derived (t ∷ ts) other e))))
]

-- Whichever derivation the parser picks, get_code is the reader behind the scanner: the same trees,
-- a PolicyError for the same texts, and an IndexError for the texts without tokens. The parser
-- returns the value of some derivation if there is one, and else exits, or raises the IndexError if
-- there are no tokens.
pub get_code-read :
    (scan : String → Option (List Lexeme)) (parse : List Lexeme → Parsed)
    → IsParser parse
    → (text : String) → get_code scan parse text ≡ reference scan text
unfolding get_code
get_code-read scan parse is_parser text = elim (Option-cases (scan text)) [
  | inl e ↦ rw e refl
  | inr (ts, e) ↦ rw e (parse-read is_parser ts)
]
