-- ===== src/Policy/Typing.antt =====
-- Types for the expressions of the policy language (mom/Policy/Parser.py): whole numbers and
-- Booleans, numbers with the floats among them, and texts. A rule is named after the expression
-- that it types.
pub mod Operators
pub mod Safety
use mom.Prelude.{String, ◌≡◌, false, Option, some, Result, ok, err, ◌==◌, Bool}
use mom.Prelude.Int.{ℤ}
use mom.Python.Text.{parse_int0}
use mom.Python.Value.{Error, Value}
use mom.Policy.Stack
use mom.Policy.Machine.{Machine, attr}
use mom.Policy.Expressions.{Expr, Operator}

pub data Ty : Type 0 where
  whole number text : Ty

pub data HasType (R : Type 0) : Value R → Ty → Type 0 where
  bool : {b : Bool} → HasType R (Value.bool b) whole
  int : {n : ℤ} → HasType R (Value.int n) whole
  float : {x : R} → HasType R (Value.float x) number
  str : {s : String} → HasType R (Value.str s) text
  wide : {v : Value R} → HasType R v whole → HasType R v number

pub data IsAddition : Operator → Type 0 where
  plus : IsAddition Operator.plus
  minus : IsAddition Operator.minus
  times : IsAddition Operator.times

pub data IsOrdering : Operator → Type 0 where
  less : IsOrdering Operator.less
  greater : IsOrdering Operator.greater
  at_most : IsOrdering Operator.at_most
  at_least : IsOrdering Operator.at_least

-- The types of the operands of an operator, and of its result.
pub data Takes : Operator → Ty → Ty → Ty → Type 0 where
  whole_sum : {o : Operator} → IsAddition o → Takes o whole whole whole
  sum : {o : Operator} → IsAddition o → Takes o number number number
  join : Takes Operator.plus text text text
  copies : Takes Operator.times text whole text
  copies_of : Takes Operator.times whole text text
  quotient : Takes Operator.over number number number
  numbers : {o : Operator} → IsOrdering o → Takes o number number whole
  texts : {o : Operator} → IsOrdering o → Takes o text text whole
  equal : {σ τ : Ty} → Takes Operator.equal σ τ whole
  unequal : {σ τ : Ty} → Takes Operator.unequal σ τ whole
  left : Takes Operator.left whole whole whole
  right : Takes Operator.right whole whole whole

pub data Typed (context : String → Option Ty) : Expr → Ty → Type 0 where
  literal : {t : String} {n : ℤ} → parse_int0 t ≡ some n → Typed context (Expr.literal t) whole
  var :
      {x : String} {τ : Ty}
      → (x == "nil") ≡ false
      → context x ≡ some τ
      → Typed context (Expr.var x) τ
  bin :
      {o : Operator} {a b : Expr} {σ τ ρ : Ty}
      → Takes o σ τ ρ
      → Typed context a σ
      → Typed context b τ
      → Typed context (Expr.bin o a b) ρ
  choose :
      {c a b : Expr} {σ τ : Ty}
      → Typed context c σ
      → Typed context a τ
      → Typed context b τ
      → Typed context (Expr.choose c a b) τ
  wide : {e : Expr} → Typed context e whole → Typed context e number

-- Each variable of the context has a value of its type.
abbrev pub Matches : {R : Type 0} → Machine R → (String → Option Ty) → Type 0
Matches {R} m context =
    (x : String) (τ : Ty)
    → context x ≡ some τ
    → (v : Value R) × (Stack.get (attr m.entities) x m.stack ≡ some v) × HasType R v τ

-- ZeroDivisionError, OverflowError, and the ValueError of a negative shift
pub data IsArithmetic : Error → Type 0 where
  zero_division : IsArithmetic Error.zero_division
  overflow : IsArithmetic Error.overflow
  value_error : IsArithmetic Error.value_error

pub data IsSafe (R : Type 0) (τ : Ty) : Result Error (Value R) → Type 0 where
  returns : {v : Value R} → HasType R v τ → IsSafe R τ (ok v)
  stops : {e : Error} → IsArithmetic e → IsSafe R τ (err e)
