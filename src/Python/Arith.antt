-- ===== src/Python/Arith.antt =====
-- `+`, `-`, `*`, `/`, `<<`, `>>`, `abs`, `len`, `int` and iteration on Python values.
use mom.Prelude.{
  ℕ, zero, suc, String, Option, none, some, List, [], ◌++◌, map, Result, ok, err, length,
  if◌then◌else◌,
}
use mom.Prelude.Int
use mom.Prelude.Int.{ℤ, pos, negsuc, ◌+ℤ◌, ◌-ℤ◌, ◌*ℤ◌, eqb_ℤ, pos_part}
use mom.Python.Value.{
  Floats, Error, type_error, value_error, zero_division, overflow, Value, bool, int, float, str,
  list, of_list, to_list,
}
use mom.Python.Order.{Number, whole, real, number?, of_bool}
use mom.Python.Text.{characters, parse_int}

abbrev pub append_text : String → String → String
append_text String.[] t = t
append_text (String.◌∷◌ c s) t = String.◌∷◌ c (append_text s t)

abbrev repeat_text : ℕ → String → String
repeat_text zero s = String.[]
repeat_text (suc n) s = append_text s (repeat_text n s)

abbrev repeat_list {ℓ} : {A : Type ℓ} → ℕ → List A → List A
repeat_list zero xs = []
repeat_list (suc n) xs = xs ++ repeat_list n xs

module _ {R : Type 0} where
  -- len(v), `none` for the TypeError
  abbrev pub len : Value R → Option ℕ
  len (str s) = some (length (characters s))
  len (list vs) = some (length (to_list vs))
  len _ = none

  -- iter(v), `none` for the TypeError
  abbrev pub iterate : Value R → Option (List (Value R))
  iterate (str s) = some (map str (characters s))
  iterate (list vs) = some (to_list vs)
  iterate _ = none

abbrev or_value_error : Option ℤ → Result Error ℤ
or_value_error none = err value_error
or_value_error (some n) = ok n

module _ {R : Type 0} ⦃F : Floats R⦄ where
  -- an operand that meets a float
  abbrev pub widen : Number R → Option R
  widen (whole a) = F.of_int a
  widen (real x) = some x

  abbrev pub both : (R → R → R) → Option R → Option R → Result Error (Value R)
  both op (some x) (some y) = ok (float (op x y))
  both op _ _ = err overflow

  abbrev pub arith_op : (ℤ → ℤ → ℤ) → (R → R → R) → Number R → Number R → Result Error (Value R)
  arith_op on_int on_float (whole a) (whole b) = ok (int (on_int a b))
  arith_op on_int on_float a b = both on_float (widen a) (widen b)

  abbrev pub on_numbers :
      (Number R → Number R → Result Error (Value R))
      → Option (Number R)
      → Option (Number R)
      → Result Error (Value R)
  on_numbers op (some a) (some b) = op a b
  on_numbers op _ _ = err type_error

  unfoldable pub add : Value R → Value R → Result Error (Value R)
  add (str s) (str t) = ok (str (append_text s t))
  add (list xs) (list ys) = ok (list (of_list (to_list xs ++ to_list ys)))
  add v w = on_numbers (arith_op ◌+ℤ◌ F.add) (number? v) (number? w)

  unfoldable pub sub : Value R → Value R → Result Error (Value R)
  sub v w = on_numbers (arith_op ◌-ℤ◌ F.sub) (number? v) (number? w)

  -- s * n, for a count that is an integer; a negative count repeats nothing
  abbrev repeat : (ℕ → Value R) → Option (Number R) → Result Error (Value R)
  repeat copies (some (whole n)) = ok (copies (pos_part n))
  repeat copies _ = err type_error

  unfoldable pub mul : Value R → Value R → Result Error (Value R)
  mul (str s) w = repeat (λ n. str (repeat_text n s)) (number? w)
  mul (list vs) w = repeat (λ n. list (of_list (repeat_list n (to_list vs)))) (number? w)
  mul v (str s) = repeat (λ n. str (repeat_text n s)) (number? v)
  mul v (list vs) = repeat (λ n. list (of_list (repeat_list n (to_list vs)))) (number? v)
  mul v w = on_numbers (arith_op ◌*ℤ◌ F.mul) (number? v) (number? w)

  abbrev pub or_overflow : Option R → Result Error (Value R)
  or_overflow none = err overflow
  or_overflow (some x) = ok (float x)

  abbrev pub quotient : Option R → Option R → Result Error (Value R)
  quotient (some x) (some y) = if F.is_zero y then err zero_division else ok (float (F.quot x y))
  quotient _ _ = err overflow

  -- `from __future__ import division`: the quotient is always a float
  abbrev pub divide : Number R → Number R → Result Error (Value R)
  divide (whole a) (whole b) =
      if eqb_ℤ b (pos 0) then err zero_division else or_overflow (F.quot_int a b)
  divide a b = quotient (widen a) (widen b)

  unfoldable pub div : Value R → Value R → Result Error (Value R)
  div v w = on_numbers divide (number? v) (number? w)

  abbrev pub shift : (ℤ → ℕ → ℤ) → Number R → Number R → Result Error (Value R)
  shift op (whole a) (whole (pos k)) = ok (int (op a k))
  shift op (whole a) (whole (negsuc k)) = err value_error
  shift op _ _ = err type_error

  unfoldable pub shl : Value R → Value R → Result Error (Value R)
  shl v w = on_numbers (shift Int.shl) (number? v) (number? w)

  unfoldable pub shr : Value R → Value R → Result Error (Value R)
  shr v w = on_numbers (shift Int.shr) (number? v) (number? w)

  unfoldable pub abs : Value R → Result Error (Value R)
  abs (bool b) = ok (int (of_bool b))
  abs (int n) = ok (int (Int.abs n))
  abs (float x) = ok (float (F.magnitude x))
  abs _ = err type_error

  -- int(v)
  unfoldable pub to_int : Value R → Result Error ℤ
  to_int (bool b) = ok (of_bool b)
  to_int (int n) = ok n
  to_int (float x) = F.to_int x
  to_int (str s) = or_value_error (parse_int s)
  to_int _ = err type_error

  -- float(v), for a number
  unfoldable pub to_float : Value R → Result Error (Value R)
  to_float v = elim (number? v) [ none ↦ err type_error | some n ↦ or_overflow (widen n) ]
