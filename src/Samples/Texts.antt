-- ===== src/Samples/Texts.antt =====
-- The theorems on texts of the policy language at a concrete text.
use mom.Prelude.{
  String, ◌≡◌, refl, Option, none, some, List, [], ◌∷◌, arith, ◌==◌, eq_iff, if◌then◌else◌,
  Bool-cases, Option-cases, inl, inr, ap, err,
}
use mom.Prelude.Int.{ℤ, pos}
use mom.Python.Text.{split, parse_int0}
use mom.Python.Value.{int, index_error}
use mom.Policy.Code.{Code, symbol, symbol_token, form, of_list}
use mom.Policy.Expressions.{Expr, code_of, depth}
use mom.Policy.Stack
use mom.Policy.Grammar.{
  Lexeme, opening, closing, curly, square, atom, IsValues, Parsed, parsed, exited, raised, IsParser,
  read, get_code,
}
use mom.Policy.Grammar.Reader.{read-IsValues, get_code-read, reference}
use mom.Policy.Grammar.Printing.{written}
use mom.Policy.Scanner.{get_operators, get_re}
use mom.Policy.Typing
use mom.Policy.Typing.{Ty, Typed, Matches}
use mom.Policy.Program.{eval_text}
use mom.Policy.Program.Soundness.{IsSafeRun, eval_text-IsSafeRun}
use mom.Samples.Fixed.{fixed}
use mom.Samples.Evaluations.{machine, guarded, machine-IsClear}

-- a parser that keeps the promise
abbrev or_exit : Option (List Code) → Parsed
or_exit none = exited
or_exit (some code) = parsed code

abbrev parse : List Lexeme → Parsed
parse [] = raised index_error
parse (t ∷ ts) = or_exit (read (t ∷ ts))

parse-derived : (ts : List Lexeme) (code : List Code) → parse ts ≡ parsed code → IsValues ts code []
parse-derived [] code e = absurd (ground (arith, e))
parse-derived (t ∷ ts) code e = elim (Option-cases (read (t ∷ ts))) [
  | inl unread ↦ absurd (ground (arith, unread, e))
  | inr (found, h) ↦ (read-IsValues (t ∷ ts) code).1 (ground (arith, h, e))
]

parse_complete :
    (ts : List Lexeme) (code : List Code)
    → IsValues ts code []
    → (found : List Code) × (parse ts ≡ parsed found)
unfolding read
parse_complete [] code d = absurd (ground (arith, (read-IsValues [] code).0 d))
parse_complete (t ∷ ts) code d = (code, ap or_exit ((read-IsValues (t ∷ ts) code).0 d))

parse-exits :
    (t : Lexeme) (ts : List Lexeme)
    → ((code : List Code) → ¬ IsValues (t ∷ ts) code [])
    → parse (t ∷ ts) ≡ exited
parse-exits t ts never = elim (Option-cases (read (t ∷ ts))) [
  | inl unread ↦ rw unread refl
  | inr (code, h) ↦ absurd (never code ((read-IsValues (t ∷ ts) code).1 h))
]

parse-IsParser : IsParser parse
parse-IsParser = record {
  derived = parse-derived;
  complete = parse_complete;
  exits = parse-exits;
  no_tokens = refl;
}

-- {f [] x}
abbrev tokens : List Lexeme
tokens =
    opening curly ∷ named "f" ∷ opening square ∷ closing square ∷ named "x" ∷ closing curly ∷ []
  where
    named : String → Lexeme
    named name = atom (record { kind = symbol; value = name; line = none })

abbrev tree : Code
tree =
    form
      (of_list (symbol_token "eval" ∷ symbol_token "f" ∷ form (of_list []) ∷ symbol_token "x" ∷ []))

read_braces : read tokens ≡ some (tree ∷ [])
unfolding read
read_braces = refl

-- a bracket of the wrong kind
read_mismatch : read (opening curly ∷ closing square ∷ []) ≡ none
unfolding read
read_mismatch = refl

abbrev scan : String → Option (List Lexeme)
scan text = if text == "{f [] x}" then some tokens else none

get_code-read_example : get_code scan parse "{f [] x}" ≡ reference scan "{f [] x}"
get_code-read_example = get_code-read scan parse parse-IsParser "{f [] x}"

-- a text that is blank, or only a comment
blank_test : get_code (λ text. some []) parse "# nothing\n" ≡ err index_error
unfolding get_code
blank_test = refl

abbrev context : String → Option Ty
context name = if name == "x" then some Ty.whole else none

machine-Matches : Matches machine context
unfolding Stack.get split
machine-Matches x τ known = elim (Bool-cases (x == "x")) [
  | inl e ↦
      let same_type : Ty.whole ≡ τ = ground (arith, e, known) in
      rw ((eq_iff x "x").0 e, ← same_type) (int (pos 3), refl, Typing.int)
  | inr e ↦ absurd (ground (arith, e, known))
]

guarded-Typed : Typed context guarded Ty.number
unfolding parse_int0
guarded-Typed =
    Typing.choose
      (Typing.bin (Typing.numbers Typing.less) (Typing.wide x) (Typing.wide (digit refl)))
      (Typing.bin (Typing.sum Typing.plus) (Typing.wide x) (Typing.wide (digit refl)))
      (Typing.bin Typing.quotient (Typing.wide x) (Typing.wide (digit refl)))
  where
    x : Typed context (Expr.var "x") Ty.whole
    x = Typing.var refl refl

    digit : {t : String} {n : ℤ} → parse_int0 t ≡ some n → Typed context (Expr.literal t) Ty.whole
    digit h = Typing.literal h

eval_text-IsSafeRun_example :
    let r = eval_text 3 (λ text. some (written (code_of (some 1) guarded) [])) parse "…" machine in
    IsSafeRun ℤ Ty.number r.0 × (r.1 ≡ machine)
unfolding depth
eval_text-IsSafeRun_example =
    eval_text-IsSafeRun 3 (λ text. some (written (code_of (some 1) guarded) [])) parse "…" (some 1)
      machine context guarded Ty.number parse-IsParser refl machine-IsClear machine-Matches
      guarded-Typed (omega arith)

-- the operators of operator_map, the longest first
scanned_operators :
    get_operators ("+" ∷ "<" ∷ "<=" ∷ "<<" ∷ "==" ∷ "and" ∷ "min" ∷ "valid" ∷ [])
    ≡ "valid" ∷ "and" ∷ "min" ∷ "<=" ∷ "<<" ∷ "==" ∷ "+" ∷ "<" ∷ []
unfolding get_operators
scanned_operators = refl

operator_expression : get_re ("<=" ∷ "+" ∷ []) "user_op" ≡ some " <=|\\+ "
unfolding get_re
operator_expression = refl
