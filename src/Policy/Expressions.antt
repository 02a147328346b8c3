-- ===== src/Policy/Expressions.antt =====
-- Expressions over variables and integer literals as programs of the policy language, and their
-- meaning, stated without the evaluator's dispatch: operands from left to right, an exception ends
-- the expression, a conditional evaluates one branch (mom/Policy/Parser.py).
use mom.Prelude.{
  ℕ, zero, suc, ◌+◌, ◌<◌, String, ◌≡◌, refl, ◌∙◌, inl, inr, Bool-cases, ◌==◌, Option, none, some,
  List, [], ◌∷◌, arith, Result, ok, err, ◌>>=◌, if◌then◌else◌,
}
use Prim.Native.Nat.{max}
use mom.Prelude.Int.{ℤ}
use mom.Python.Text.{parse_int0}
use mom.Python.Value.{Floats, Error, value_error, Value, nothing, int, truthy}
use mom.Policy.Code
use mom.Policy.Code.{Code, Token, Kind, number, symbol, operator, atom, form, NumberType}
use mom.Policy.Builtins.{
  Builtin, c_add, c_sub, c_mul, c_div, c_lt, c_gt, c_lte, c_gte, c_eq, c_neq, c_shl, c_shr, c_if,
  doc, builtin?, operator_name,
}
use mom.Policy.Functions.{binary, eval_token, eval_number}
use mom.Policy.Machine.{Machine, M, get, found, policy_at, get_defined}
use mom.Policy.Forms.{apply}
use mom.Policy.Dispatch.{dispatch, check_arity, convert_all, convert}
use mom.Policy.Evaluator.{eval, step, call_name}

pub data Operator : Type 0 where
  plus minus times over less greater at_most at_least equal unequal left right : Operator

-- the operator as it is written, the name that operator_map gives, and the function of that name
abbrev pub text : Operator → String
text plus = "+"
text minus = "-"
text times = "*"
text over = "/"
text less = "<"
text greater = ">"
text at_most = "<="
text at_least = ">="
text equal = "=="
text unequal = "!="
text left = "<<"
text right = ">>"

abbrev pub long_name : Operator → String
long_name plus = "add"
long_name minus = "sub"
long_name times = "mul"
long_name over = "div"
long_name less = "lt"
long_name greater = "gt"
long_name at_most = "lte"
long_name at_least = "gte"
long_name equal = "eq"
long_name unequal = "neq"
long_name left = "shl"
long_name right = "shr"

abbrev pub function : Operator → Builtin
function plus = c_add
function minus = c_sub
function times = c_mul
function over = c_div
function less = c_lt
function greater = c_gt
function at_most = c_lte
function at_least = c_gte
function equal = c_eq
function unequal = c_neq
function left = c_shl
function right = c_shr

pub data Expr : Type 0 where
  literal : String → Expr
  var : String → Expr
  bin : Operator → Expr → Expr → Expr
  choose : Expr → Expr → Expr → Expr

abbrev token : Kind → String → Option ℕ → Code
token kind value line = atom (record { kind = kind; value = value; line = line })

-- The tree of an expression on one line.
unfoldable pub code_of : Option ℕ → Expr → Code
code_of line (literal t) = token (number NumberType.integer) t line
code_of line (var x) = token symbol x line
code_of line (bin o a b) =
    form (Code.of_list (token operator (text o) line ∷ code_of line a ∷ code_of line b ∷ []))
code_of line (choose c a b) =
    form (
      Code.of_list (token symbol "if" line ∷ code_of line c ∷ code_of line a ∷ code_of line b ∷ []))

unfoldable pub depth : Expr → ℕ
depth (literal t) = 0
depth (var x) = 0
depth (bin o a b) = max (depth a) (depth b) + 1
depth (choose c a b) = max (depth c) (max (depth a) (depth b)) + 1

operator_name-text : (o : Operator) → operator_name (text o) ≡ some (long_name o)
unfolding operator_name
operator_name-text plus = refl
operator_name-text _ = refl

builtin?-long_name : (o : Operator) → builtin? (long_name o) ≡ some (function o)
unfolding builtin?
builtin?-long_name plus = refl
builtin?-long_name _ = refl

builtin?-if : builtin? "if" ≡ some c_if
unfolding builtin?
builtin?-if = refl

module _ {R : Type 0} where
  abbrev pub and_then :
      Result Error (Value R) → (Value R → Result Error (Value R)) → Result Error (Value R)
  and_then (ok v) f = f v
  and_then (err e) f = err e

module _ {R : Type 0} ⦃F : Floats R⦄ where
  abbrev of_text : Option ℤ → Result Error (Value R)
  of_text none = err value_error
  of_text (some n) = ok (int n)

  unfoldable pub meaning : Option ℕ → Machine R → Expr → Result Error (Value R)
  meaning line m (literal t) = of_text (parse_int0 t)
  meaning line m (var x) =
      (eval_token symbol (record { kind = symbol; value = x; line = line }) m).0
  meaning line m (bin o a b) =
      and_then (meaning line m a) λ x. and_then (meaning line m b) λ y. binary (function o) x y
  meaning line m (choose c a b) =
      let yes_value = meaning line m a in
      let no_value = meaning line m b in
      and_then (meaning line m c) λ x. if truthy x then yes_value else no_value

  -- No variable of the machine hides a function that an expression calls.
  pub record IsClear (m : Machine R) : Type 0 where
    pub operators : (o : Operator) → get_defined (long_name o) m ≡ (ok nothing, m)
    pub conditional : get_defined "if" m ≡ (ok nothing, m)

  module _ (rec : Code → M R (Value R)) (m : Machine R) (line : Option ℕ) where
    -- The dispatcher on a function of two values, whose arguments leave the machine alone.
    dispatch-two :
        (o : Operator) (a b : Code) (ra rb : Result Error (Value R))
        → rec a m ≡ (ra, m)
        → rec b m ≡ (rb, m)
        → dispatch rec (function o) (a ∷ b ∷ []) line m
          ≡ (and_then ra λ x. and_then rb λ y. binary (function o) x y, m)
    unfolding dispatch check_arity convert_all convert doc apply ◌>>=◌
    dispatch-two plus a b (err e) rb ha hb = rw ha
    dispatch-two plus a b (ok x) (err e) ha hb = rw (ha, hb)
    dispatch-two plus a b (ok x) (ok y) ha hb = rw (ha, hb)
    dispatch-two _ a b (err e) rb ha hb = rw ha
    dispatch-two _ a b (ok x) (err e) ha hb = rw (ha, hb)
    dispatch-two _ a b (ok x) (ok y) ha hb = rw (ha, hb)

    dispatch-if :
        (c a b : Code) (rc ra rb : Result Error (Value R))
        → rec c m ≡ (rc, m)
        → rec a m ≡ (ra, m)
        → rec b m ≡ (rb, m)
        → dispatch rec c_if (c ∷ a ∷ b ∷ []) line m
          ≡ (and_then rc λ x. if truthy x then ra else rb, m)
    unfolding dispatch check_arity convert_all convert doc apply ◌>>=◌
    dispatch-if c a b (err e) ra rb hc ha hb = rw hc
    dispatch-if c a b (ok x) ra rb hc ha hb = elim (Bool-cases (truthy x)) [
      | inl t ↦ rw (hc, t) ha
      | inr t ↦ rw (hc, t) hb
    ]

    call_name-function :
        (name : String) (fn : Builtin) (args : List Code)
        → get_defined name m ≡ (ok nothing, m)
        → builtin? name ≡ some fn
        → call_name rec name args line m ≡ dispatch rec fn args line m
    unfolding call_name ◌>>=◌
    call_name-function name fn args clear known = rw clear (rw known)

  number_case :
      (t : String) (m : Machine R)
      → eval_number NumberType.integer t m ≡ (of_text (parse_int0 t), m)
  unfolding eval_number
  number_case t m = ground arith

  found-state :
      (name : String) (line : Option ℕ) (o : Option (Value R)) (m : Machine R)
      → found name line o m ≡ ((found name line o m).0, m)
  unfolding policy_at ◌>>=◌
  found-state name none none m = refl
  found-state name (some l) none m = refl
  found-state name line (some v) m = refl

  var_case :
      (x : String) (line : Option ℕ) (m : Machine R)
      → let v = eval_token symbol (record { kind = symbol; value = x; line = line }) m in
        v ≡ (v.0, m)
  unfolding eval_token get ◌>>=◌
  var_case x line m = elim (Bool-cases (x == "nil")) [
    | inl e ↦ rw e refl
    | inr e ↦ rw e (found-state x line _ m)
  ]

  -- An expression that no variable disturbs evaluates to its meaning, a value or an exception, and
  -- leaves the machine as it was, with any fuel above its depth.
  pub eval-code_of :
      (fuel : ℕ) (line : Option ℕ) (m : Machine R) (e : Expr)
      → IsClear m
      → depth e < fuel
      → eval fuel (code_of line e) m ≡ (meaning line m e, m)
  unfolding eval step code_of depth meaning eval_token ◌>>=◌
  eval-code_of zero line m e clear h = elim h [ ]
  eval-code_of (suc f) line m (literal t) clear h = number_case t m
  eval-code_of (suc f) line m (var x) clear h = var_case x line m
  eval-code_of (suc f) line m (bin o a b) clear h = rw (operator_name-text o) (
      call_name-function (eval f) m line (long_name o) (function o) _ (clear.operators o)
        (builtin?-long_name o)
      ∙ dispatch-two (eval f) m line o (code_of line a) (code_of line b) _ _
          (eval-code_of f line m a clear (omega arith))
          (eval-code_of f line m b clear (omega arith)))
  eval-code_of (suc f) line m (choose c a b) clear h =
      call_name-function (eval f) m line "if" c_if _ clear.conditional builtin?-if
      ∙ dispatch-if (eval f) m line (code_of line c) (code_of line a) (code_of line b) _ _ _
          (eval-code_of f line m c clear (omega arith))
          (eval-code_of f line m a clear (omega arith))
          (eval-code_of f line m b clear (omega arith))
