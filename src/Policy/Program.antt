-- ===== src/Policy/Program.antt =====
-- The function `eval` of mom/Policy/Parser.py, from the text of a program to its values.
pub mod Soundness
use mom.Prelude.{ℕ, String, Option, List, Result, ok, err, raise}
use mom.Python.Value.{Floats, Error, Value}
use mom.Policy.Code.{Code}
use mom.Policy.Grammar.{Lexeme, Parsed, get_code}
use mom.Policy.Machine.{Machine, M}
use mom.Policy.Evaluator.{eval_program}

module _ {R : Type 0} ⦃F : Floats R⦄ (fuel : ℕ) where
  abbrev pub eval_code : Result Error (List Code) → M R (List (Value R))
  eval_code (err e) = raise e
  eval_code (ok code) = eval_program fuel code

  unfoldable pub eval_text :
      (String → Option (List Lexeme)) → (List Lexeme → Parsed) → String → M R (List (Value R))
  eval_text scan parse text = eval_code (get_code scan parse text)
