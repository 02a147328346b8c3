-- ===== src/Policy/Forms.antt =====
-- The functions c_* of mom/Policy/Parser.py that evaluate code or change the machine. Each takes
-- `rec`, the evaluation of a tree.
use mom.Prelude.{
  String, not, Option, none, some, List, [], ◌∷◌, pure, raise, lift, or_raise, ◌>>=◌, ◌>>◌,
  if◌then◌else◌,
}
use mom.Python.Value.{
  Floats, Error, Fault, policy, arity_mismatch, not_enough_arguments, malformed, unexpected_token,
  expected_token, unknown_function, incorrect_arity, expecting_list, expecting_tuples,
  expecting_symbol, key_error, type_error, attribute_error, index_error, value_error, overflow,
  unbound_local, out_of_fuel, External, Value, nothing, bool, int, float, str, external, is_none,
  truthy,
}
use mom.Python.Value
use mom.Python.Arith
use mom.Policy.Code
use mom.Policy.Code.{
  Code, atom, form, Token, Kind, number, string, symbol, operator, NumberType, symbol_token,
}
use mom.Policy.Builtins.{
  Builtin, c_def, c_set, c_defvar, c_let, c_with, c_if, c_and, c_or, c_not, c_min, c_max, c_null,
  c_valid,
}
use mom.Policy.Machine.{M, get, set_variable, alloc_variable, enter_scope, leave_scope, define}
use mom.Policy.Functions.{binary, variadic}

-- An argument after dispatch: a tree, the text of a symbol, or a value.
pub data Arg (R : Type 0) : Type 0 where
  tree : Code → Arg R
  label : String → Arg R
  val : Value R → Arg R

module _ {R : Type 0} ⦃F : Floats R⦄ where
  -- `*args` of a function whose arguments are all values
  abbrev pub vals : List (Arg R) → List (Value R)
  vals [] = []
  vals (val v ∷ args) = v ∷ vals args
  vals (_ ∷ args) = vals args

  -- `*code`
  abbrev pub raws : List (Arg R) → List Code
  raws [] = []
  raws (tree c ∷ args) = c ∷ raws args
  raws (_ ∷ args) = raws args

  module _ (rec : Code → M R (Value R)) where
    -- list(map(self.eval, codes))
    unfoldable pub eval_all : List Code → M R (List (Value R))
    eval_all [] = pure []
    eval_all (c ∷ cs) = do v ← rec c; vs ← eval_all cs; pure (v ∷ vs)

    abbrev pub bind_symbol : Kind → Token → Code → M R (Unit {0})
    bind_symbol symbol t value = do v ← rec value; alloc_variable t.value v; pure tt
    bind_symbol _ t value = raise (policy expecting_symbol)

    -- one binding of `let`; a name that is a list has no `kind`
    abbrev pub bind_pair : List Code → M R (Unit {0})
    bind_pair (atom t ∷ value ∷ []) = bind_symbol t.kind t value
    bind_pair (form cs ∷ value ∷ []) = raise attribute_error
    bind_pair _ = raise (policy expecting_tuples)

    abbrev pub bind_one : Code → M R (Unit {0})
    bind_one (atom t) = raise (policy expecting_tuples)
    bind_one (form cs) = bind_pair (Code.to_list cs)

    unfoldable pub bind_all : List Code → M R (Unit {0})
    bind_all [] = pure tt
    bind_all (c ∷ cs) = do bind_one c; bind_all cs

    -- the value of the last expression; `result` is unbound if there is none
    unfoldable pub eval_body : List Code → M R (Option (Value R))
    eval_body [] = pure none
    eval_body (c ∷ []) = do v ← rec c; pure (some v)
    eval_body (c ∷ d ∷ cs) = do rec c; eval_body (d ∷ cs)

    unfoldable pub let_form : Code → List Code → M R (Value R)
    let_form (atom t) body = raise (policy expecting_list)
    let_form (form syms) body = do
      enter_scope
      bind_all (Code.to_list syms)
      result ← eval_body body
      leave_scope
      or_raise result unbound_local

    unfoldable pub for_each : String → Code → List (Value R) → M R (List (Value R))
    for_each iterator code [] = pure []
    for_each iterator code (item ∷ items) = do
      enter_scope
      alloc_variable iterator item
      v ← rec code
      leave_scope
      vs ← for_each iterator code items
      pure (v ∷ vs)

    unfoldable pub with_form : String → String → Code → M R (Value R)
    with_form iterable iterator code = do
      seq ← get iterable none
      items ← or_raise (Arith.iterate seq) type_error
      results ← for_each iterator code items
      pure (Value.list (Value.of_list results))

    -- fn(*args) for the function `c_...` on the arguments after dispatch
    unfoldable pub apply : Builtin → List (Arg R) → M R (Value R)
    apply c_def (label f ∷ tree params ∷ tree code ∷ []) = do define f params code; pure (str f)
    apply c_set (label x ∷ val v ∷ []) = set_variable x v
    apply c_defvar (label x ∷ val v ∷ []) = alloc_variable x v
    apply c_let (tree syms ∷ body) = let_form syms (raws body)
    apply c_with (label iterable ∷ label iterator ∷ tree code ∷ []) =
        with_form iterable iterator code
    apply c_if (val cond ∷ tree yes_code ∷ tree no_code ∷ []) =
        rec (if truthy cond then yes_code else no_code)
    apply c_not (val x ∷ []) = pure (bool (not (truthy x)))
    apply c_and args = lift (variadic c_and (vals args))
    apply c_or args = lift (variadic c_or (vals args))
    apply c_min args = lift (variadic c_min (vals args))
    apply c_max args = lift (variadic c_max (vals args))
    apply c_null args = lift (variadic c_null (vals args))
    apply c_valid args = lift (variadic c_valid (vals args))
    apply b (val x ∷ val y ∷ []) = lift (binary b x y)
    apply _ _ = raise type_error
