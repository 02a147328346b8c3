-- ===== src/Policy/Grammar.antt =====
-- The grammar of class Parser and get_code of mom/Policy/Parser.py. The scanner's matching and the
-- search for a derivation are the SPARK toolkit's, parameters here; the productions with their
-- actions are the relations IsValue and IsValues between two places of the list of tokens, and
-- `read` is a reader that follows the brackets alone.
pub mod Reader
pub mod Printing
use mom.Prelude.{
  String, Bool, true, false, Option, none, some, List, [], ◌∷◌, ◌++◌, ◌≡◌, Result, ok, err,
  if◌then◌else◌,
}
use mom.Python.Value.{Error, policy, parse_error, index_error}
use mom.Policy.Code
use mom.Policy.Code.{Code, Codes, Token, form, symbol_token}

pub data Bracket : Type 0 where
  round square curly : Bracket

-- A token of the scanner: one of the six of t_builtin_op, or a number, a string, a symbol or an
-- operator.
pub data Lexeme : Type 0 where
  opening closing : Bracket → Lexeme
  atom : Token → Lexeme

-- mklist, and the tree that p_list, p_bracket_list and p_curly_list make of it
abbrev pub marked : Bracket → List Code → List Code
marked round values = values
marked square values = values
marked curly values = symbol_token "eval" ∷ values

abbrev pub bracketed : Bracket → List Code → Code
bracketed b values = form (Code.of_list (marked b values))

-- `IsValue ts c rest`: a production of `value` takes the tokens of `ts` up to `rest` and its action
-- gives `c`. `IsValues` is the same for `value_list`.
mutual
  pub data IsValue : List Lexeme → Code → List Lexeme → Type 0 where
    token : {t : Token} {rest : List Lexeme} → IsValue (atom t ∷ rest) (Code.atom t) rest
    empty :
        {b : Bracket} {rest : List Lexeme}
        → IsValue (opening b ∷ closing b ∷ rest) (bracketed b []) rest
    full :
        {b : Bracket} {ts rest : List Lexeme} {values : List Code}
        → IsValues ts values (closing b ∷ rest)
        → IsValue (opening b ∷ ts) (bracketed b values) rest

  pub data IsValues : List Lexeme → List Code → List Lexeme → Type 0 where
    one :
        {ts rest : List Lexeme} {value : Code}
        → IsValue ts value rest
        → IsValues ts (value ∷ []) rest
    more :
        {ts middle rest : List Lexeme} {values : List Code} {value : Code}
        → IsValues ts values middle
        → IsValue middle value rest
        → IsValues ts (values ++ value ∷ []) rest

unfoldable pub same : Bracket → Bracket → Bool
same round round = true
same square square = true
same curly curly = true
same _ _ = false

-- The brackets that are open, the last one first, each with the values read before it.
abbrev pub Frames : Type 0
Frames = List (Bracket × List Code)

unfoldable pub finish : Frames → List Code → Option (List Code)
finish [] [] = none
finish [] (v ∷ vs) = some (v ∷ vs)
finish (_ ∷ _) values = none

-- The tree of a list that is closed, as the evaluator is to see it: a list in braces is a call of eval.
unfoldable pub tree_of : Bracket → List Code → Code
tree_of round values = form (Code.of_list values)
tree_of square values = form (Code.of_list values)
tree_of curly values = form (Codes.cons (symbol_token "eval") (Code.of_list values))

unfoldable pub read_on : Frames → List Code → List Lexeme → Option (List Code)
unfolding finish same tree_of
read_on frames values [] = finish frames values
read_on frames values (atom t ∷ ts) = read_on frames (values ++ Code.atom t ∷ []) ts
read_on frames values (opening b ∷ ts) = read_on ((b, values) ∷ frames) [] ts
read_on [] values (closing b ∷ ts) = none
read_on ((last, before) ∷ frames) values (closing b ∷ ts) =
    let rest = read_on frames (before ++ tree_of last values ∷ []) ts in
    if same last b then rest else none

-- The values of a whole text: at least one, and every bracket closed.
unfoldable pub read : List Lexeme → Option (List Code)
unfolding read_on
read ts = read_on [] [] ts

-- How Parser.parse ends: it returns trees, exits by SystemExit, or raises another exception.
pub data Parsed : Type 0 where
  parsed : List Code → Parsed
  exited : Parsed
  raised : Error → Parsed

-- the handler in get_code: a SystemExit becomes a PolicyError, another exception passes
abbrev pub outcome : Parsed → Result Error (List Code)
outcome (parsed code) = ok code
outcome exited = err (policy parse_error)
outcome (raised e) = err e

abbrev pub parse_tokens : (List Lexeme → Parsed) → Option (List Lexeme) → Result Error (List Code)
parse_tokens parse none = err (policy parse_error)
parse_tokens parse (some ts) = outcome (parse ts)

-- get_code: `scan` and `parse` stand for Scanner(operators).tokenize, whose SystemExit is `none`, and
-- for Parser.parse.
unfoldable pub get_code :
    (String → Option (List Lexeme)) → (List Lexeme → Parsed) → String → Result Error (List Code)
get_code scan parse text = parse_tokens parse (scan text)

-- What SPARK's `parse` does: it returns the value of a derivation of the start symbol value_list over
-- all the tokens, if there is one; else it exits, but for a list without tokens, where it looks for
-- the last token to report: an IndexError.
pub record IsParser (parse : List Lexeme → Parsed) : Type 0 where
  pub derived : (ts : List Lexeme) (code : List Code) → parse ts ≡ parsed code → IsValues ts code []
  pub complete :
      (ts : List Lexeme) (code : List Code)
      → IsValues ts code []
      → (found : List Code) × (parse ts ≡ parsed found)
  pub exits :
      (t : Lexeme) (ts : List Lexeme)
      → ((code : List Code) → ¬ IsValues (t ∷ ts) code [])
      → parse (t ∷ ts) ≡ exited
  pub no_tokens : parse [] ≡ raised index_error
