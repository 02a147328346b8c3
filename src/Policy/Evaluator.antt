-- ===== src/Policy/Evaluator.antt =====
-- GenericEvaluator and Evaluator of mom/Policy/Parser.py. `eval` ties the knot of the functions that
-- take the evaluation of a tree as `rec`. It runs on fuel, one unit for each level of nesting, since
-- a policy can define functions that call themselves for ever.
pub mod Balance
pub mod Fuel
use mom.Prelude.{
  ℕ, zero, suc, String, Option, none, some, List, [], ◌∷◌, raise, or_raise, ◌>>=◌, last, length,
  eqb, ◌==◌, if◌then◌else◌,
}
use mom.Prelude.Dict.{lookup}
use mom.Python.Value.{
  Floats, policy, unexpected_token, expected_token, incorrect_arity, key_error, type_error,
  index_error, out_of_fuel, External, Value, external, is_none,
}
use mom.Policy.Code
use mom.Policy.Code.{
  Code, atom, form, Token, Kind, number, string, symbol, operator, NumberType, symbol_token,
}
use mom.Policy.Builtins.{Builtin, builtin?, operator_name}
use mom.Policy.Machine.{Machine, M, policy_at, get_defined, call_value}
use mom.Policy.Functions.{eval_token}
use mom.Policy.Forms.{eval_all}
use mom.Policy.Dispatch.{dispatch}

-- [[params[i], args[i]] for each i], of two lists of one length
abbrev pub pairs : List Code → List Code → List Code
pairs (p ∷ params) (a ∷ args) = form (Code.of_list (p ∷ a ∷ [])) ∷ pairs params args
pairs _ _ = []

-- [Token('symbol', 'let'), scope, code]
abbrev pub call_code : List Code → List Code → Code → Code
call_code params args code =
    form (Code.of_list (symbol_token "let" ∷ form (Code.of_list (pairs params args)) ∷ code ∷ []))

module _ {R : Type 0} ⦃F : Floats R⦄ where
  module _ (rec : Code → M R (Value R)) where
    -- [[params[i], args[i]] for each i], which is given two lists of one length
    -- a call of a function that the policy defined: a `let` of its parameters; a parameter list that
    -- is no list has no length
    unfoldable pub call_function : Option (Code × Code) → List Code → Option ℕ → M R (Value R)
    call_function none args line = raise key_error
    call_function (some (atom t, code)) args line = raise type_error
    call_function (some (form params, code)) args line =
        if eqb (length (Code.to_list params)) (length args)
        then rec (call_code (Code.to_list params) args code)
        else policy_at incorrect_arity line

    -- Evaluator.default
    unfoldable pub default : String → List Code → Option ℕ → M R (Value R)
    unfolding call_function
    default name args line =
        if name == "eval"
        then (do vs ← eval_all rec args; or_raise (last vs) index_error)
        else (λ m. call_function (lookup name m.funcs) args line m)

    abbrev pub call_builtin : Option Builtin → String → List Code → Option ℕ → M R (Value R)
    call_builtin (some b) name args line = dispatch rec b args line
    call_builtin none name args line = default name args line

    -- variables come before the functions of the language, and these before the policy's own
    unfoldable pub call_name : String → List Code → Option ℕ → M R (Value R)
    call_name name args line = do
      func ← get_defined name
      if is_none func
          then call_builtin (builtin? name) name args line
          else (do vs ← eval_all rec args; call_value func vs)

    abbrev pub eval_node : Kind → Token → List Code → M R (Value R)
    eval_node symbol t args = call_name t.value args t.line
    eval_node operator t args = do
      name ← or_raise (operator_name t.value) key_error
      call_name name args t.line
    eval_node _ t args = policy_at unexpected_token t.line

    abbrev pub eval_form : List Code → M R (Value R)
    eval_form [] = raise index_error
    eval_form (form cs ∷ args) = raise (policy expected_token)
    eval_form (atom t ∷ args) = eval_node t.kind t args

    -- GenericEvaluator.eval
    unfoldable pub step : Code → M R (Value R)
    step (atom t) = eval_token t.kind t
    step (form cs) = eval_form (Code.to_list cs)

  unfoldable pub eval : ℕ → Code → M R (Value R)
  eval zero code = raise out_of_fuel
  eval (suc fuel) code = step (eval fuel) code

  -- the loop over the expressions of a program
  unfoldable pub eval_program : ℕ → List Code → M R (List (Value R))
  unfolding eval eval_all
  eval_program fuel codes = eval_all (eval fuel) codes

  -- Evaluator(): the outermost scope holds the external functions
  unfoldable pub initial : Machine R
  initial = record {
    stack = (("abs", external External.abs) ∷ ("debug", external External.debug) ∷ []) ∷ [];
    funcs = [];
    entities = [];
  }
