-- ===== src/Python/Order.antt =====
-- `==`, `<` and `<=` on Python values.
use Prim.Native.Char.{code}
use mom.Prelude.{
  String, Bool, true, false, not, ◌&&◌, ◌||◌, Option, none, some, Result, ok, err, eqb, ltb, ◌==◌,
  if◌then◌else◌,
}
use mom.Prelude.Int.{ℤ, pos, eqb_ℤ, ltb_ℤ, leb_ℤ}
use mom.Python.Value.{
  Floats, Error, type_error, External, abs, debug, Value, Values, nothing, bool, int, float, str,
  list, external, entity, bound, nil, cons,
}

-- bool is a subtype of int, and both compare with floats.
pub data Number (R : Type 0) : Type 0 where
  whole : ℤ → Number R
  real : R → Number R

abbrev pub of_bool : Bool → ℤ
of_bool true = pos 1
of_bool false = pos 0

-- Texts are ordered by their code points.
unfoldable pub text_lt : String → String → Bool
text_lt String.[] String.[] = false
text_lt String.[] (String.◌∷◌ d t) = true
text_lt (String.◌∷◌ c s) String.[] = false
text_lt (String.◌∷◌ c s) (String.◌∷◌ d t) =
    ltb (code c) (code d) || (eqb (code c) (code d) && text_lt s t)

abbrev pub external_eq : External → External → Bool
external_eq abs abs = true
external_eq debug debug = true
external_eq _ _ = false

module _ {R : Type 0} where
  abbrev pub number? : Value R → Option (Number R)
  number? (bool b) = some (whole (of_bool b))
  number? (int n) = some (whole n)
  number? (float x) = some (real x)
  number? _ = none

module _ {R : Type 0} ⦃F : Floats R⦄ where
  abbrev pub number_eq : Number R → Number R → Bool
  number_eq (whole a) (whole b) = eqb_ℤ a b
  number_eq (whole a) (real y) = F.eq_int y a
  number_eq (real x) (whole b) = F.eq_int x b
  number_eq (real x) (real y) = F.eq x y

  abbrev pub number_lt : Number R → Number R → Bool
  number_lt (whole a) (whole b) = ltb_ℤ a b
  number_lt (whole a) (real y) = F.int_lt a y
  number_lt (real x) (whole b) = F.lt_int x b
  number_lt (real x) (real y) = F.lt x y

  abbrev pub number_le : Number R → Number R → Bool
  number_le (whole a) (whole b) = leb_ℤ a b
  number_le (whole a) (real y) = F.int_le a y
  number_le (real x) (whole b) = F.le_int x b
  number_le (real x) (real y) = F.le x y

  abbrev numbers_eq : Option (Number R) → Option (Number R) → Bool
  numbers_eq (some a) (some b) = number_eq a b
  numbers_eq _ _ = false

  -- x == y
  unfoldable mutual
    pub value_eq : Value R → Value R → Bool
    value_eq nothing nothing = true
    value_eq (bool a) w = numbers_eq (some (whole (of_bool a))) (number? w)
    value_eq (int a) w = numbers_eq (some (whole a)) (number? w)
    value_eq (float x) w = numbers_eq (some (real x)) (number? w)
    value_eq (str s) (str t) = s == t
    value_eq (list xs) (list ys) = values_eq xs ys
    value_eq (external f) (external g) = external_eq f g
    value_eq (entity i) (entity j) = eqb i j
    value_eq (bound i f) (bound j g) = eqb i j && f == g
    value_eq _ _ = false

    pub values_eq : Values R → Values R → Bool
    values_eq nil nil = true
    values_eq (cons x xs) (cons y ys) = value_eq x y && values_eq xs ys
    values_eq _ _ = false

  abbrev compare_numbers :
      (Number R → Number R → Bool) → Option (Number R) → Option (Number R) → Result Error Bool
  compare_numbers test (some a) (some b) = ok (test a b)
  compare_numbers test _ _ = err type_error

  -- x < y; lists compare at their first difference
  unfoldable mutual
    pub value_lt : Value R → Value R → Result Error Bool
    value_lt (bool a) w = compare_numbers number_lt (some (whole (of_bool a))) (number? w)
    value_lt (int a) w = compare_numbers number_lt (some (whole a)) (number? w)
    value_lt (float x) w = compare_numbers number_lt (some (real x)) (number? w)
    value_lt (str s) (str t) = ok (text_lt s t)
    value_lt (list xs) (list ys) = values_lt xs ys
    value_lt _ _ = err type_error

    pub values_lt : Values R → Values R → Result Error Bool
    values_lt nil nil = ok false
    values_lt nil (cons y ys) = ok true
    values_lt (cons x xs) nil = ok false
    values_lt (cons x xs) (cons y ys) =
        let rest = values_lt xs ys in let here = value_lt x y in if value_eq x y then rest else here

  -- x <= y
  unfoldable mutual
    pub value_le : Value R → Value R → Result Error Bool
    value_le (bool a) w = compare_numbers number_le (some (whole (of_bool a))) (number? w)
    value_le (int a) w = compare_numbers number_le (some (whole a)) (number? w)
    value_le (float x) w = compare_numbers number_le (some (real x)) (number? w)
    value_le (str s) (str t) = ok (not (text_lt t s))
    value_le (list xs) (list ys) = values_le xs ys
    value_le _ _ = err type_error

    pub values_le : Values R → Values R → Result Error Bool
    values_le nil nil = ok true
    values_le nil (cons y ys) = ok true
    values_le (cons x xs) nil = ok false
    values_le (cons x xs) (cons y ys) =
        let rest = values_le xs ys in let here = value_le x y in if value_eq x y then rest else here
