-- ===== src/Samples/Programs.antt =====
-- Programs of the policy language as trees, and what they evaluate to (tests/ParserTests.py).
use mom.Prelude.{ℕ, String, ◌≡◌, refl, some, List, [], ◌∷◌, Result, ok, ◌>>=◌}
use mom.Prelude.Int.{ℤ, pos, ◌+ℤ◌, ◌-ℤ◌, ◌*ℤ◌}
use mom.Python.Arith
use mom.Python.Order
use mom.Python.Text
use mom.Python.Value.{Error, External, external, Value, int}
use mom.Entity
use mom.Entity.Methods.{call}
use mom.Policy.Builtins.{doc, builtin?, operator_name}
use mom.Policy.Code.{Code, Kind, number, string, symbol, operator, atom, form, of_list, NumberType}
use mom.Policy.Dispatch.{dispatch, check_arity, convert_all, convert}
use mom.Policy.Evaluator.{eval, step, eval_program, initial, call_name, default, call_function}
use mom.Policy.Forms.{apply, let_form, bind_all, eval_all, eval_body, for_each, with_form}
use mom.Policy.Functions.{eval_token, eval_number, binary, variadic}
use mom.Policy.Machine.{
  Machine, get_defined, get, set_variable, alloc_variable, enter_scope, leave_scope, define,
  policy_at, call_value,
}
use mom.Samples.Fixed.{fixed}

abbrev token : Kind → String → Code
token kind value = atom (record { kind = kind; value = value; line = some 1 })

abbrev pub num : String → Code
num = token (number NumberType.integer)

abbrev pub sym : String → Code
sym = token symbol

abbrev pub op : String → Code
op = token operator

abbrev pub text : String → Code
text = token string

abbrev pub lst : List Code → Code
lst cs = form (of_list cs)

-- What a program evaluates to from a new evaluator.
interpret : ℕ → List Code → Result Error (List (Value ℤ))
unfolding eval_program step initial call_name default call_function dispatch check_arity convert_all
    convert apply let_form bind_all eval_all eval_body for_each with_form eval_token eval_number
    binary variadic get_defined get set_variable alloc_variable enter_scope leave_scope define
    policy_at call_value call doc builtin? operator_name ◌>>=◌ Arith.add Arith.sub Arith.mul
    Arith.div Order.value_lt Order.value_eq Order.value_le Text.unquote Text.parse_int0 Text.split
    Entity.stat Entity.control ◌+ℤ◌ ◌-ℤ◌ ◌*ℤ◌
interpret fuel codes = (eval_program fuel codes initial).0

-- (let ((x 3)) (+ x 4))
abbrev pub let_program : Code
let_program = lst (
    sym "let"
    ∷ lst (lst (sym "x" ∷ num "3" ∷ []) ∷ [])
    ∷ lst (op "+" ∷ sym "x" ∷ num "4" ∷ [])
    ∷ [])

abbrev pub let_machine : Machine ℤ
let_machine = record {
  stack = (("abs", external External.abs) ∷ ("debug", external External.debug) ∷ []) ∷ [];
  funcs = [];
  entities = [];
}

-- One tree, with the machine after it.
run : ℕ → Code → Machine ℤ → Result Error (Value ℤ) × Machine ℤ
unfolding interpret
run fuel code m = eval fuel code m

pub let_runs : eval 3 let_program (initial {R = ℤ}) ≡ (ok (int (pos 7)), let_machine)
unfolding run
let_runs = refl

let_test : interpret 3 (let_program ∷ []) ≡ ok (int (pos 7) ∷ [])
unfolding interpret
let_test = refl

-- (defvar x 3) (defvar x 5) x: a second defvar of a name in one scope does not change it
defvar_test :
    interpret 3 (
      lst (sym "defvar" ∷ sym "x" ∷ num "3" ∷ [])
      ∷ lst (sym "defvar" ∷ sym "x" ∷ num "5" ∷ [])
      ∷ sym "x"
      ∷ [])
    ≡ ok (int (pos 3) ∷ int (pos 3) ∷ int (pos 3) ∷ [])
unfolding interpret
defvar_test = refl
