-- ===== src/Policy/Functions.antt =====
-- The functions c_* of mom/Policy/Parser.py that work on values, and the value of a token.
use mom.Prelude.{
  String, Bool, true, false, not, ◌&&◌, none, some, List, [], ◌∷◌, Result, ok, err, pure, eqb, ◌==◌,
  if◌then◌else◌,
}
use mom.Python.Value.{
  Floats, Error, unexpected_token, type_error, index_error, value_error, Value, nothing, bool, int,
  float, str, is_none, truthy,
}
use mom.Python.Order.{value_eq, value_lt, value_le}
use mom.Python.Arith
use mom.Python.Text.{unquote, parse_int0}
use mom.Policy.Code.{Token, Kind, number, string, symbol, operator, NumberType}
use mom.Policy.Builtins.{
  Builtin, c_add, c_sub, c_mul, c_div, c_lt, c_gt, c_lte, c_gte, c_eq, c_neq, c_shl, c_shr, c_and,
  c_or, c_min, c_max, c_null, c_valid,
}
use mom.Policy.Machine.{M, policy_at, get}

module _ {R : Type 0} ⦃F : Floats R⦄ where
  -- eval_number
  unfoldable pub eval_number : NumberType → String → M R (Value R)
  eval_number NumberType.float text m =
      (elim (F.of_text text) [ none ↦ err value_error | some x ↦ ok (float x) ], m)
  eval_number _ text m =
      (elim (parse_int0 text) [ none ↦ err value_error | some n ↦ ok (int n) ], m)

  -- eval on a Token
  unfoldable pub eval_token : Kind → Token → M R (Value R)
  eval_token (number type) t = eval_number type t.value
  eval_token string t = pure (str (unquote t.value))
  eval_token symbol t = if t.value == "nil" then pure nothing else get t.value t.line
  eval_token operator t = policy_at unexpected_token t.line

  -- min(args) and max(args): the first of the least, or of the greatest
  unfoldable pub least : Value R → List (Value R) → Result Error (Value R)
  least best [] = ok best
  least best (v ∷ vs) = elim (value_lt v best) [
    | ok smaller ↦ least (if smaller then v else best) vs
    | err e ↦ err e
  ]

  unfoldable pub greatest : Value R → List (Value R) → Result Error (Value R)
  greatest best [] = ok best
  greatest best (v ∷ vs) = elim (value_lt best v) [
    | ok larger ↦ greatest (if larger then v else best) vs
    | err e ↦ err e
  ]

  abbrev least_of : List (Value R) → Result Error (Value R)
  least_of [] = err value_error
  least_of (v ∷ vs) = least v vs

  abbrev greatest_of : List (Value R) → Result Error (Value R)
  greatest_of [] = err value_error
  greatest_of (v ∷ vs) = greatest v vs

  -- the first argument that is false, or true, and else the last
  unfoldable pub first_false : List (Value R) → Result Error (Value R)
  first_false [] = err index_error
  first_false (v ∷ []) = ok v
  first_false (v ∷ w ∷ vs) = if truthy v then first_false (w ∷ vs) else ok v

  unfoldable pub first_true : List (Value R) → Result Error (Value R)
  first_true [] = err index_error
  first_true (v ∷ []) = ok v
  first_true (v ∷ w ∷ vs) = if truthy v then ok v else first_true (w ∷ vs)

  -- all(v is None or len(v) == 0 for v in args); a TypeError of `len` gives False
  unfoldable pub all_null : List (Value R) → Bool
  all_null [] = true
  all_null (v ∷ vs) =
      if is_none v
      then all_null vs
      else elim (Arith.len v) [ none ↦ false | some n ↦ eqb n 0 && all_null vs ]

  unfoldable pub any_none : List (Value R) → Bool
  any_none [] = false
  any_none (v ∷ vs) = if is_none v then true else any_none vs

  abbrev boolean : Result Error Bool → Result Error (Value R)
  boolean (ok b) = ok (bool b)
  boolean (err e) = err e

  -- the functions of two values
  unfoldable pub binary : Builtin → Value R → Value R → Result Error (Value R)
  binary c_add x y = Arith.add x y
  binary c_sub x y = Arith.sub x y
  binary c_mul x y = Arith.mul x y
  binary c_div x y = Arith.div x y
  binary c_lt x y = boolean (value_lt x y)
  binary c_gt x y = boolean (value_lt y x)
  binary c_lte x y = boolean (value_le x y)
  binary c_gte x y = boolean (value_le y x)
  binary c_eq x y = ok (bool (value_eq x y))
  binary c_neq x y = ok (bool (not (value_eq x y)))
  binary c_shl x y = Arith.shl x y
  binary c_shr x y = Arith.shr x y
  binary _ x y = err type_error

  -- the functions that take any number of values
  unfoldable pub variadic : Builtin → List (Value R) → Result Error (Value R)
  unfolding least greatest first_false first_true all_null any_none
  variadic c_and vs = first_false vs
  variadic c_or vs = first_true vs
  variadic c_min vs = least_of vs
  variadic c_max vs = greatest_of vs
  variadic c_null vs = ok (bool (all_null vs))
  variadic c_valid vs = ok (bool (not (any_none vs)))
  variadic _ vs = err type_error
