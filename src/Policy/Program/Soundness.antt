-- ===== src/Policy/Program/Soundness.antt =====
-- The text of a typed expression, from its tokens to its value (mom/Policy/Parser.py).
use mom.Prelude.{ℕ, ◌<◌, String, ◌≡◌, refl, Option, some, List, [], ◌∷◌, Result, ok, err, ◌>>=◌}
use mom.Python.Value.{Floats, Error, Value}
use mom.Policy.Code.{Code}
use mom.Policy.Grammar.{Lexeme, IsParser, Parsed}
use mom.Policy.Grammar.Printing.{written, get_code-written}
use mom.Policy.Machine.{Machine}
use mom.Policy.Forms.{eval_all}
use mom.Policy.Evaluator.{eval, eval_program}
use mom.Policy.Expressions.{Expr, code_of, depth, IsClear}
use mom.Policy.Typing
use mom.Policy.Typing.{Ty, HasType, Typed, Matches, IsArithmetic, IsSafe}
use mom.Policy.Typing.Safety.{eval-IsSafe}
use mom.Policy.Program.{eval_text}

-- One value of the type, or an arithmetic exception.
pub data IsSafeRun (R : Type 0) (τ : Ty) : Result Error (List (Value R)) → Type 0 where
  returns : {v : Value R} → HasType R v τ → IsSafeRun R τ (ok (v ∷ []))
  stops : {e : Error} → IsArithmetic e → IsSafeRun R τ (err e)

module _ {R : Type 0} ⦃F : Floats R⦄ where
  abbrev alone : Result Error (Value R) → Result Error (List (Value R))
  alone (ok v) = ok (v ∷ [])
  alone (err e) = err e

  alone-IsSafeRun : {τ : Ty} {r : Result Error (Value R)} → IsSafe R τ r → IsSafeRun R τ (alone r)
  alone-IsSafeRun (Typing.returns h) = returns h
  alone-IsSafeRun (Typing.stops h) = stops h

  eval_program-alone :
      (fuel : ℕ) (m m' : Machine R) (c : Code) (r : Result Error (Value R))
      → eval fuel c m ≡ (r, m')
      → eval_program fuel (c ∷ []) m ≡ (alone r, m')
  unfolding eval_program eval_all ◌>>=◌
  eval_program-alone fuel m m' c (ok v) e = rw e refl
  eval_program-alone fuel m m' c (err x) e = rw e refl

  -- A text whose tokens are those of a typed expression, with its variables' values of their types
  -- and none that hides a function: eval of the text gives a list of one value of the type, or stops
  -- with a ZeroDivisionError, an OverflowError or the ValueError of a negative shift; the machine
  -- stays as it was. The parser keeps SPARK's promise, and the fuel is above the expression's depth.
  pub eval_text-IsSafeRun :
      (fuel : ℕ) (scan : String → Option (List Lexeme)) (parse : List Lexeme → Parsed)
      (text : String) (line : Option ℕ) (m : Machine R) (context : String → Option Ty) (e : Expr)
      (τ : Ty)
      → IsParser parse
      → scan text ≡ some (written (code_of line e) [])
      → IsClear m
      → Matches m context
      → Typed context e τ
      → depth e < fuel
      → let r = eval_text fuel scan parse text m in IsSafeRun R τ r.0 × (r.1 ≡ m)
  unfolding eval_text
  eval_text-IsSafeRun fuel scan parse text line m context e τ is_parser scanned clear matches typed
        enough =
      let (safe, kept) = eval-IsSafe fuel line m context e τ clear matches typed enough in
      rw
        (
          get_code-written scan parse is_parser text (code_of line e) scanned,
          eval_program-alone fuel m m (code_of line e) _ (λ i. (r.0, kept i)),
        )
        (alone-IsSafeRun safe, refl)
    where
      r : Result Error (Value R) × Machine R
      r = eval fuel (code_of line e) m
