-- ===== src/Policy/Scanner.antt =====
-- The rules of class Scanner of mom/Policy/Parser.py: what each adds to the tokens for a text that its
-- regular expression matched, and the expression of the operators. The matching is the SPARK toolkit's.
pub mod Order
use Prim.Native.Char.{Char, code}
use mom.Prelude.{
  ℕ, suc, String, Bool, Option, none, some, List, [], ◌∷◌, ◌||◌, eqb, ltb, ◌==◌, if◌then◌else◌,
}
use mom.Python.Arith.{append_text}
use mom.Policy.Code.{
  Token, Kind, number, string, symbol, operator, NumberType, float, integer, hex, octal,
}
use mom.Policy.Grammar.{Lexeme, opening, closing, atom, round, square, curly}

pub data Rule : Type 0 where
  whitespace pound_comment symbol_name double_quoted single_quoted : Rule
  float_number integer_number integer_with_exponent hex_number octal_number : Rule
  builtin_op user_op : Rule

-- s.count("\n")
unfoldable pub newlines : String → ℕ
newlines String.[] = 0
newlines (String.◌∷◌ c s) = let rest = newlines s in if eqb (code c) 10 then suc rest else rest

abbrev pub token : Kind → String → ℕ → Option Lexeme
token kind s line = some (atom (record { kind = kind; value = s; line = some line }))

-- a bracket is its own kind; the expression of the rule matches nothing else
unfoldable pub bracket : String → Option Lexeme
bracket s =
    if s == "("
    then some (opening round)
    else if s == ")"
    then some (closing round)
    else if s == "["
    then some (opening square)
    else if s == "]"
    then some (closing square)
    else if s == "{"
    then some (opening curly)
    else if s == "}"
    then some (closing curly)
    else none

-- the methods t_: the token that a rule appends, if any, for a text on a line
unfoldable pub append : Rule → String → ℕ → Option Lexeme
unfolding bracket
append Rule.whitespace s line = none
append Rule.pound_comment s line = none
append Rule.symbol_name s line = token symbol s line
append Rule.double_quoted s line = token string s line
append Rule.single_quoted s line = token string s line
append Rule.float_number s line = token (number float) s line
append Rule.integer_number s line = token (number integer) s line
append Rule.integer_with_exponent s line = token (number float) s line
append Rule.hex_number s line = token (number hex) s line
append Rule.octal_number s line = token (number octal) s line
append Rule.builtin_op s line = bracket s
append Rule.user_op s line = token operator s line

-- what a rule returns: the lines that its text ends
unfoldable pub lines_of : Rule → String → ℕ
unfolding newlines
lines_of Rule.whitespace s = newlines s
lines_of _ s = 0

-- the method escape of get_re
unfoldable pub escape : String → String
escape String.[] = String.[]
escape (String.◌∷◌ c op) =
    let rest = String.◌∷◌ c (escape op) in
    if eqb (code c) b'+' || eqb (code c) b'*' || eqb (code c) b'.'
    then append_text "\\" rest
    else rest

abbrev pub joined : List String → String
joined [] = ""
joined (op ∷ []) = escape op
joined (op ∷ next ∷ ops) = append_text (escape op) (append_text "|" (joined (next ∷ ops)))

-- get_re: `none` is the AttributeError
unfoldable pub get_re : List String → String → Option String
unfolding escape
get_re operators name =
    if name == "user_op" then some (append_text " " (append_text (joined operators) " ")) else none

-- len(x) of an operator
abbrev pub size : String → ℕ
size String.[] = 0
size (String.◌∷◌ c s) = suc (size s)

-- behind the operators that are as long, or longer
unfoldable pub put_by_size : String → List String → List String
put_by_size op [] = op ∷ []
put_by_size op (other ∷ ops) =
    let rest = put_by_size op ops in
    if ltb (size other) (size op) then op ∷ other ∷ ops else other ∷ rest

unfoldable pub sort_by_size : List String → List String → List String
unfolding put_by_size
sort_by_size [] sorted = sorted
sort_by_size (op ∷ ops) sorted = sort_by_size ops (put_by_size op sorted)

-- get_operators: sorted by length, the longest first, the equally long in their order in the map
unfoldable pub get_operators : List String → List String
unfolding sort_by_size
get_operators operators = sort_by_size operators []
