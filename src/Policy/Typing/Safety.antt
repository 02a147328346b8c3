-- ===== src/Policy/Typing/Safety.antt =====
-- Typed expressions never raise a TypeError (mom/Policy/Parser.py).
use mom.Prelude.{
  ℕ, ◌<◌, String, ◌≡◌, refl, Bool, true, false, Option, some, Result, ok, ◌==◌, ◌>>=◌,
  if◌then◌else◌,
}
use mom.Python.Value.{Floats, Value, Error, truthy}
use mom.Policy.Code.{symbol}
use mom.Policy.Stack
use mom.Policy.Machine.{Machine, attr, get}
use mom.Policy.Functions.{eval_token}
use mom.Policy.Evaluator.{eval}
use mom.Policy.Expressions.{Expr, code_of, depth, and_then, meaning, IsClear, eval-code_of}
use mom.Policy.Typing.{
  Ty, HasType, int, wide, Typed, literal, var, bin, choose, Matches, IsSafe, returns, stops,
}
use mom.Policy.Typing.Operators.{binary-IsSafe}

module _ {R : Type 0} ⦃F : Floats R⦄ where
  wide-IsSafe : {r : Result Error (Value R)} → IsSafe R Ty.whole r → IsSafe R Ty.number r
  wide-IsSafe (returns h) = returns (wide h)
  wide-IsSafe (stops h) = stops h

  and_then-IsSafe :
      {σ τ : Ty} {r : Result Error (Value R)} {f : Value R → Result Error (Value R)}
      → IsSafe R σ r
      → ((v : Value R) → HasType R v σ → IsSafe R τ (f v))
      → IsSafe R τ (and_then r f)
  and_then-IsSafe (returns h) k = k _ h
  and_then-IsSafe (stops h) k = stops h

  branch-IsSafe :
      {τ : Ty} (test : Bool) {a b : Result Error (Value R)}
      → IsSafe R τ a
      → IsSafe R τ b
      → IsSafe R τ (if test then a else b)
  branch-IsSafe true ha hb = ha
  branch-IsSafe false ha hb = hb

  -- a variable that the stack has
  eval_token-found :
      (x : String) (line : Option ℕ) (m : Machine R) (v : Value R)
      → (x == "nil") ≡ false
      → Stack.get (attr m.entities) x m.stack ≡ some v
      → eval_token symbol (record { kind = symbol; value = x; line = line }) m ≡ (ok v, m)
  unfolding eval_token get ◌>>=◌
  eval_token-found x line m v not_nil found = rw not_nil (rw found refl)

  -- The meaning of a typed expression is a value of its type or an arithmetic exception.
  meaning-IsSafe :
      {context : String → Option Ty} {e : Expr} {τ : Ty} (line : Option ℕ) (m : Machine R)
      → Matches m context
      → Typed context e τ
      → IsSafe R τ (meaning line m e)
  unfolding meaning
  meaning-IsSafe line m matches (literal known) = rw known (returns int)
  meaning-IsSafe line m matches (var {x} {τ} not_nil known) =
      let (v, found, typed) = matches x τ known in
      rw (meaning, eval_token-found x line m v not_nil found) (returns typed)
  meaning-IsSafe line m matches (bin takes a b) =
      and_then-IsSafe (meaning-IsSafe line m matches a)
        λ _ x. and_then-IsSafe (meaning-IsSafe line m matches b) λ _ y. binary-IsSafe takes x y
  meaning-IsSafe line m matches (choose c a b) =
      and_then-IsSafe (meaning-IsSafe line m matches c) λ v _.
        branch-IsSafe (truthy v) (meaning-IsSafe line m matches a) (meaning-IsSafe line m matches b)
  meaning-IsSafe line m matches (wide d) = wide-IsSafe (meaning-IsSafe line m matches d)

  -- A typed expression, with its variables' values of their types and none that hides a function,
  -- evaluates to a value of its type, or stops with a ZeroDivisionError, an OverflowError or the
  -- ValueError of a negative shift; the machine stays as it was. Fuel above the depth is enough.
  pub eval-IsSafe :
      (fuel : ℕ) (line : Option ℕ) (m : Machine R) (context : String → Option Ty) (e : Expr)
      (τ : Ty)
      → IsClear m
      → Matches m context
      → Typed context e τ
      → depth e < fuel
      → let r = eval fuel (code_of line e) m in IsSafe R τ r.0 × (r.1 ≡ m)
  eval-IsSafe fuel line m context e τ clear matches typed enough =
      rw (eval-code_of fuel line m e clear enough) (meaning-IsSafe line m matches typed, refl)
