-- ===== src/Policy/Typing/Operators.antt =====
-- Operators on operands of the types that they take (mom/Policy/Parser.py, c_add to c_shr).
use mom.Prelude.{ℕ, ◌≡◌, refl, Bool, Bool-cases, inl, inr, Option, none, some}
use mom.Prelude.Int
use mom.Prelude.Int.{ℤ, pos, negsuc, eqb_ℤ}
use mom.Python.Value.{Floats, Value}
use mom.Python.Order
use mom.Python.Order.{Number, number?, value_lt, value_le, real}
use mom.Python.Arith
use mom.Python.Arith.{
  add, sub, mul, div, shl, shr, arith_op, both, or_overflow, divide, shift, widen,
}
use mom.Policy.Functions.{binary}
use mom.Policy.Expressions.{Operator, function}
use mom.Policy.Typing.{
  Ty, whole, number, text, HasType, bool, int, float, str, wide, IsAddition, plus, minus, times,
  IsOrdering, less, greater, at_most, at_least, Takes, whole_sum, sum, join, copies, copies_of,
  quotient, numbers, texts, equal, unequal, left, right, IsSafe, returns, stops, zero_division,
  overflow, value_error,
}

module _ {R : Type 0} ⦃F : Floats R⦄ where
  -- on two numbers
  data IsNumeric : Value R → Number R → Type 0 where
    boolean : {b : Bool} → IsNumeric (Value.bool b) (Order.whole (Order.of_bool b))
    integer : {n : ℤ} → IsNumeric (Value.int n) (Order.whole n)
    fraction : {x : R} → IsNumeric (Value.float x) (real x)

  numeric : {v : Value R} → HasType R v number → (n : Number R) × IsNumeric v n
  numeric float = (_, fraction)
  numeric (wide bool) = (_, boolean)
  numeric (wide int) = (_, integer)

  add-numbers :
      {v w : Value R} {a b : Number R}
      → IsNumeric v a
      → IsNumeric w b
      → add v w ≡ arith_op Int.◌+ℤ◌ F.add a b
  unfolding add
  add-numbers boolean boolean = refl
  add-numbers integer integer = refl
  add-numbers fraction fraction = refl
  add-numbers _ _ = refl

  sub-numbers :
      {v w : Value R} {a b : Number R}
      → IsNumeric v a
      → IsNumeric w b
      → sub v w ≡ arith_op Int.◌-ℤ◌ F.sub a b
  unfolding sub
  sub-numbers boolean boolean = refl
  sub-numbers integer integer = refl
  sub-numbers fraction fraction = refl
  sub-numbers _ _ = refl

  mul-numbers :
      {v w : Value R} {a b : Number R}
      → IsNumeric v a
      → IsNumeric w b
      → mul v w ≡ arith_op Int.◌*ℤ◌ F.mul a b
  unfolding mul
  mul-numbers boolean boolean = refl
  mul-numbers integer integer = refl
  mul-numbers fraction fraction = refl
  mul-numbers _ _ = refl

  both-IsSafe : (op : R → R → R) (x y : Option R) → IsSafe R number (both op x y)
  both-IsSafe op (some x) (some y) = returns float
  both-IsSafe op none _ = stops overflow
  both-IsSafe op _ none = stops overflow

  arith_op-IsSafe :
      (on_int : ℤ → ℤ → ℤ) (on_float : R → R → R) (a b : Number R)
      → IsSafe R number (arith_op on_int on_float a b)
  arith_op-IsSafe on_int on_float (Order.whole a) (Order.whole b) = returns (wide int)
  arith_op-IsSafe on_int on_float (Order.whole a) (real y) =
      both-IsSafe on_float (widen (Order.whole a)) (some y)
  arith_op-IsSafe on_int on_float (real x) b = both-IsSafe on_float (some x) (widen b)

  quotient-IsSafe : (x y : Option R) → IsSafe R number (Arith.quotient x y)
  quotient-IsSafe (some x) (some y) = elim (Bool-cases (F.is_zero y)) [
    | inl e ↦ rw e (stops zero_division)
    | inr e ↦ rw e (returns float)
  ]
  quotient-IsSafe none _ = stops overflow
  quotient-IsSafe _ none = stops overflow

  or_overflow-IsSafe : (x : Option R) → IsSafe R number (or_overflow x)
  or_overflow-IsSafe none = stops overflow
  or_overflow-IsSafe (some x) = returns float

  divide-IsSafe : (a b : Number R) → IsSafe R number (divide a b)
  divide-IsSafe (Order.whole a) (Order.whole b) = elim (Bool-cases (eqb_ℤ b (pos 0))) [
    | inl e ↦ rw e (stops zero_division)
    | inr e ↦ rw e (or_overflow-IsSafe _)
  ]
  divide-IsSafe (Order.whole a) (real y) = quotient-IsSafe (widen (Order.whole a)) (some y)
  divide-IsSafe (real x) b = quotient-IsSafe (some x) (widen b)

  div-numbers :
      {v w : Value R} {a b : Number R} → IsNumeric v a → IsNumeric w b → div v w ≡ divide a b
  unfolding div
  div-numbers boolean boolean = refl
  div-numbers integer integer = refl
  div-numbers fraction fraction = refl
  div-numbers _ _ = refl

  sum-IsSafe :
      {o : Operator} {v w : Value R} {a b : Number R}
      → IsAddition o
      → IsNumeric v a
      → IsNumeric w b
      → IsSafe R number (binary (function o) v w)
  unfolding binary
  sum-IsSafe {a} {b} plus x y = rw (add-numbers x y) (arith_op-IsSafe _ _ a b)
  sum-IsSafe {a} {b} minus x y = rw (sub-numbers x y) (arith_op-IsSafe _ _ a b)
  sum-IsSafe {a} {b} times x y = rw (mul-numbers x y) (arith_op-IsSafe _ _ a b)

  whole_sum-IsSafe :
      {o : Operator} {v w : Value R}
      → IsAddition o
      → HasType R v whole
      → HasType R w whole
      → IsSafe R whole (binary (function o) v w)
  unfolding binary add sub mul
  whole_sum-IsSafe plus bool bool = returns int
  whole_sum-IsSafe plus int int = returns int
  whole_sum-IsSafe minus bool bool = returns int
  whole_sum-IsSafe minus int int = returns int
  whole_sum-IsSafe times bool bool = returns int
  whole_sum-IsSafe times int int = returns int
  whole_sum-IsSafe _ _ _ = returns int

  join-IsSafe : {v w : Value R} → HasType R v text → HasType R w text → IsSafe R text (add v w)
  unfolding add
  join-IsSafe str str = returns str

  copies-IsSafe : {v w : Value R} → HasType R v text → HasType R w whole → IsSafe R text (mul v w)
  unfolding mul
  copies-IsSafe str bool = returns str
  copies-IsSafe str int = returns str

  copies_of-IsSafe :
      {v w : Value R} → HasType R v whole → HasType R w text → IsSafe R text (mul v w)
  unfolding mul
  copies_of-IsSafe bool str = returns str
  copies_of-IsSafe int str = returns str

  numbers-IsSafe :
      {o : Operator} {v w : Value R} {a b : Number R}
      → IsOrdering o
      → IsNumeric v a
      → IsNumeric w b
      → IsSafe R whole (binary (function o) v w)
  unfolding binary value_lt value_le
  numbers-IsSafe less boolean boolean = returns bool
  numbers-IsSafe less integer integer = returns bool
  numbers-IsSafe less fraction fraction = returns bool
  numbers-IsSafe greater boolean boolean = returns bool
  numbers-IsSafe greater integer integer = returns bool
  numbers-IsSafe greater fraction fraction = returns bool
  numbers-IsSafe at_most boolean boolean = returns bool
  numbers-IsSafe at_most integer integer = returns bool
  numbers-IsSafe at_most fraction fraction = returns bool
  numbers-IsSafe at_least boolean boolean = returns bool
  numbers-IsSafe at_least integer integer = returns bool
  numbers-IsSafe at_least fraction fraction = returns bool
  numbers-IsSafe _ _ _ = returns bool

  texts-IsSafe :
      {o : Operator} {v w : Value R}
      → IsOrdering o
      → HasType R v text
      → HasType R w text
      → IsSafe R whole (binary (function o) v w)
  unfolding binary value_lt value_le
  texts-IsSafe less str str = returns bool
  texts-IsSafe greater str str = returns bool
  texts-IsSafe at_most str str = returns bool
  texts-IsSafe at_least str str = returns bool

  shift-IsSafe :
      (op : ℤ → ℕ → ℤ) (a b : ℤ) → IsSafe R whole (shift op (Order.whole a) (Order.whole b))
  shift-IsSafe op a (pos k) = returns int
  shift-IsSafe op a (negsuc k) = stops value_error

  -- the number that a whole value is
  as_whole : {v : Value R} → HasType R v whole → (n : ℤ) × (number? v ≡ some (Order.whole n))
  as_whole bool = (_, refl)
  as_whole int = (_, refl)

  shl-IsSafe : {v w : Value R} → HasType R v whole → HasType R w whole → IsSafe R whole (shl v w)
  unfolding shl
  shl-IsSafe x y =
      rw ((as_whole x).1, (as_whole y).1) (shift-IsSafe Int.shl (as_whole x).0 (as_whole y).0)

  shr-IsSafe : {v w : Value R} → HasType R v whole → HasType R w whole → IsSafe R whole (shr v w)
  unfolding shr
  shr-IsSafe x y =
      rw ((as_whole x).1, (as_whole y).1) (shift-IsSafe Int.shr (as_whole x).0 (as_whole y).0)

  -- An operator on operands of its types returns a value of its type or stops with an arithmetic
  -- exception.
  pub binary-IsSafe :
      {o : Operator} {σ τ ρ : Ty} {v w : Value R}
      → Takes o σ τ ρ
      → HasType R v σ
      → HasType R w τ
      → IsSafe R ρ (binary (function o) v w)
  unfolding binary
  binary-IsSafe (whole_sum o) x y = whole_sum-IsSafe o x y
  binary-IsSafe (sum o) x y = sum-IsSafe o (numeric x).1 (numeric y).1
  binary-IsSafe join x y = join-IsSafe x y
  binary-IsSafe copies x y = copies-IsSafe x y
  binary-IsSafe copies_of x y = copies_of-IsSafe x y
  binary-IsSafe quotient x y =
      rw (div-numbers (numeric x).1 (numeric y).1) (divide-IsSafe (numeric x).0 (numeric y).0)
  binary-IsSafe (numbers o) x y = numbers-IsSafe o (numeric x).1 (numeric y).1
  binary-IsSafe (texts o) x y = texts-IsSafe o x y
  binary-IsSafe equal x y = returns bool
  binary-IsSafe unequal x y = returns bool
  binary-IsSafe left x y = shl-IsSafe x y
  binary-IsSafe right x y = shr-IsSafe x y
