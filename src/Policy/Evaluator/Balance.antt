-- ===== src/Policy/Evaluator/Balance.antt =====
-- Evaluation that returns leaves every scope that it entered, whatever the code and however deep
-- (mom/Policy/Parser.py; an exception leaves the stack as it stood).
mod Rules
use mom.Prelude.{
  ℕ, zero, suc, ◌+◌, String, ◌≡◌, ◌∙◌, refl, Option-cases, inl, inr, Bool, true, false, Option,
  none, some, List, [], ◌∷◌, arith, Result, ok, err, Exec, pure, raise, lift, or_raise, proceed,
  ◌>>=◌, length, if◌then◌else◌,
}
use mom.Prelude.{get_elem?, last, set, ◌==◌}
use mom.Python.Value.{
  Floats, Error, Fault, Value, External, abs, debug, external, bound, index_error, out_of_fuel,
  is_none, unbound_local, malformed, unexpected_token,
}
use mom.Python.Arith
use mom.Entity.{Entity}
use mom.Entity.Methods.{Method, method?, call}
use mom.Policy.Code
use mom.Policy.Code.{Code, atom, form, Token, Kind, NumberType, number, string, symbol, operator}
use mom.Policy.Dispatch.{convert, convert_all, check_arity, dispatch}
use mom.Policy.Builtins.{
  Builtin, DocType, c_def, c_set, c_defvar, c_let, c_with, c_if, c_not, c_and, c_or, c_min, c_max,
  c_null, c_valid, builtin?, doc, operator_name,
}
use mom.Prelude.Dict.{lookup}
use mom.Policy.Evaluator.{
  step, eval, call_name, default, call_function, call_builtin, eval_node, eval_form,
}
use mom.Policy.Functions.{eval_token, eval_number}
use mom.Policy.Forms.{
  eval_all, bind_symbol, bind_pair, bind_one, bind_all, eval_body, let_form, for_each, with_form,
  apply, Arg, tree, label, val, vals, raws,
}
use mom.Policy.Stack
use mom.Policy.Stack.{Scopes}
use mom.Policy.Machine.{
  Machine, M, policy_at, get_defined, get, found, assigned, allocated, set_variable, alloc_variable,
  enter_scope, leave_scope, define, call_value, on_entity,
}
use mom.Policy.Evaluator.Balance.Rules.{
  Moves, Moves-alloc_variable, Moves-bind, Moves-call_value, Moves-define, Moves-enter_scope,
  Moves-eval_token, Moves-get, Moves-get_defined, Moves-if, Moves-leave_scope, Moves-lift,
  Moves-or_raise, Moves-policy_at, Moves-pure, Moves-raise, Moves-seq, Moves-set_variable, Lands,
  Lands-allocated, Lands-assigned, Lands-found, Lands-level, Lands-on_entity, Lands-result, moves,
}

module _ {R : Type 0} ⦃F : Floats R⦄ (rec : Code → M R (Value R))
    (rec-Moves : (i : ℕ) (c : Code) → Moves i i (rec c)) where
  Moves-eval_all : (i : ℕ) (cs : List Code) → Moves i i (eval_all rec cs)
  unfolding eval_all
  Moves-eval_all i [] = search moves
  Moves-eval_all i (c ∷ cs) =
      Moves-seq i _ _ (rec-Moves i c) (λ v. search (moves, Moves-eval_all i cs))

  Moves-bind_symbol :
      (i : ℕ) (k : Kind) (t : Token) (value : Code) → Moves i i (bind_symbol rec k t value)
  Moves-bind_symbol i symbol t value = search (moves, rec-Moves)
  Moves-bind_symbol i _ t value = search moves

  Moves-bind_one : (i : ℕ) (c : Code) → Moves i i (bind_one rec c)
  Moves-bind_one i (atom t) = search moves
  Moves-bind_one i (form cs) = pair (Code.to_list cs)
    where
      pair : (parts : List Code) → Moves i i (bind_pair rec parts)
      pair (atom t ∷ value ∷ []) = Moves-bind_symbol i t.kind t value
      pair (form name ∷ value ∷ []) = search moves
      pair _ = search moves

  Moves-bind_all : (i : ℕ) (cs : List Code) → Moves i i (bind_all rec cs)
  unfolding bind_all
  Moves-bind_all i [] = search moves
  Moves-bind_all i (c ∷ cs) = search (moves, Moves-bind_one i c, Moves-bind_all i cs)

  Moves-eval_body : (i : ℕ) (cs : List Code) → Moves i i (eval_body rec cs)
  unfolding eval_body
  Moves-eval_body i [] = search moves
  Moves-eval_body i (c ∷ []) = search (moves, rec-Moves)
  Moves-eval_body i (c ∷ d ∷ cs) = Moves-seq i _ _ (rec-Moves i c) (λ v. Moves-eval_body i (d ∷ cs))

  -- a block between `enter_scope` and `leave_scope`
  Moves-scoped :
      {A B : Type 0} (act : M R A) (f : A → M R B)
      → Moves 1 1 act
      → ((a : A) → Moves 0 0 (f a))
      → Moves 0 0 (enter_scope >>= λ _. act >>= λ a. leave_scope >>= λ _. f a)
  Moves-scoped act f ka kf =
      Moves-bind 0 1 0 _ _ Moves-enter_scope
        λ _. Moves-bind 1 1 0 _ _ ka λ a. Moves-bind 1 0 0 _ _ Moves-leave_scope λ _. kf a

  -- what holds from every number of scopes
  Moves-raised : {A : Type 0} (i : ℕ) (act : M R A) → Moves 0 0 act → Moves i i act
  Moves-raised i act k = record {
    at = λ n m h. Lands-level i n (act m).0 (act m).1 (k.at (i + n) m (omega arith));
  }

  Moves-let_form : (i : ℕ) (syms : Code) (body : List Code) → Moves i i (let_form rec syms body)
  unfolding let_form
  Moves-let_form i (atom t) body = search moves
  Moves-let_form i (form syms) body = Moves-raised i _ (
      Moves-bind 0 1 0 _ _ Moves-enter_scope λ _.
        Moves-bind 1 1 0 _ _ (Moves-bind_all 1 (Code.to_list syms)) λ _.
          Moves-bind 1 1 0 _ _ (Moves-eval_body 1 body) λ result.
            Moves-bind 1 0 0 _ _ Moves-leave_scope λ _. Moves-or_raise 0 result unbound_local)

  Moves-for_each :
      (i : ℕ) (iterator : String) (code : Code) (items : List (Value R))
      → Moves i i (for_each rec iterator code items)
  unfolding for_each
  Moves-for_each i iterator code [] = search moves
  Moves-for_each i iterator code (item ∷ items) = Moves-raised i _ (
      Moves-bind 0 1 0 _ _ Moves-enter_scope λ _.
        Moves-bind 1 1 0 _ _ (Moves-alloc_variable 1 iterator item) λ _.
          Moves-bind 1 1 0 _ _ (rec-Moves 1 code) λ v. Moves-bind 1 0 0 _ _ Moves-leave_scope λ _.
            Moves-bind 0 0 0 _ _ (Moves-for_each 0 iterator code items) λ vs. Moves-pure 0 (v ∷ vs))

  Moves-with_form :
      (i : ℕ) (iterable iterator : String) (code : Code)
      → Moves i i (with_form rec iterable iterator code)
  unfolding with_form
  Moves-with_form i iterable iterator code = search (moves, Moves-for_each)

  Moves-apply : (i : ℕ) (b : Builtin) (args : List (Arg R)) → Moves i i (apply rec b args)
  unfolding apply
  Moves-apply i c_def (label f ∷ tree params ∷ tree code ∷ []) = search moves
  Moves-apply i c_let (tree syms ∷ body) = Moves-let_form i syms (raws body)
  Moves-apply i c_with (label x ∷ label y ∷ tree code ∷ []) = Moves-with_form i x y code
  Moves-apply i c_if (val cond ∷ tree yes_code ∷ tree no_code ∷ []) = search rec-Moves
  Moves-apply i c_set (label x ∷ val v ∷ []) = search moves
  Moves-apply i c_defvar (label x ∷ val v ∷ []) = search moves
  Moves-apply i c_not (val x ∷ []) = search moves
  Moves-apply i _ (val x ∷ val y ∷ []) = search moves
  Moves-apply i _ args = search moves

  Moves-convert :
      (i : ℕ) (type : DocType) (line : Option ℕ) (c : Code) → Moves i i (convert rec type line c)
  unfolding convert
  Moves-convert i DocType.code line c = search moves
  Moves-convert i DocType.symbol line (atom t) = by_kind t.kind
    where
      by_kind :
          (k : Kind)
          → Moves {R = R} {A = Arg R} i i
              (elim k [ symbol ↦ pure (label t.value) | _ ↦ policy_at malformed line ])
      by_kind symbol = search moves
      by_kind _ = search moves
  Moves-convert i DocType.symbol line (form cs) = search moves
  Moves-convert i DocType.value line c = Moves-seq i _ _ (rec-Moves i c) (λ v. search moves)
  Moves-convert i DocType.dots line c = Moves-seq i _ _ (rec-Moves i c) (λ v. search moves)

  Moves-convert_all :
      (i : ℕ) (current : Option DocType) (types : List DocType) (line : Option ℕ) (cs : List Code)
      → Moves i i (convert_all rec current types line cs)
  unfolding convert_all
  Moves-convert_all i current types line [] = search moves
  Moves-convert_all i current [] line (c ∷ cs) =
      search (moves, Moves-convert_all i current [] line cs)
  Moves-convert_all i none (DocType.dots ∷ types) line (c ∷ cs) = search (
    moves,
    Moves-convert i DocType.dots line c,
    Moves-convert_all i (some DocType.dots) (DocType.dots ∷ types) line cs,
  )
  Moves-convert_all i (some type) (DocType.dots ∷ types) line (c ∷ cs) = search (
    moves,
    Moves-convert i type line c,
    Moves-convert_all i (some type) (DocType.dots ∷ types) line cs,
  )
  Moves-convert_all i _ (type ∷ types) line (c ∷ cs) =
      search (moves, Moves-convert i type line c, Moves-convert_all i (some type) types line cs)

  Moves-dispatch :
      (i : ℕ) (b : Builtin) (args : List Code) (line : Option ℕ)
      → Moves i i (dispatch rec b args line)
  unfolding dispatch check_arity
  Moves-dispatch i b args line = search (moves, Moves-convert_all, Moves-apply) depth 8

  Moves-call_function :
      (i : ℕ) (f : Option (Code × Code)) (args : List Code) (line : Option ℕ)
      → Moves i i (call_function rec f args line)
  unfolding call_function
  Moves-call_function i none args line = search moves
  Moves-call_function i (some (atom t, code)) args line = search moves
  Moves-call_function i (some (form params, code)) args line = search (moves, rec-Moves)

  Moves-default :
      (i : ℕ) (name : String) (args : List Code) (line : Option ℕ)
      → Moves i i (default rec name args line)
  unfolding default
  Moves-default i name args line =
      Moves-if i i (name == "eval") _ _ (search (moves, Moves-eval_all))
        (record { at = λ n m h. (Moves-call_function i (lookup name m.funcs) args line).at n m h })

  Moves-call_name :
      (i : ℕ) (name : String) (args : List Code) (line : Option ℕ)
      → Moves i i (call_name rec name args line)
  unfolding call_name
  Moves-call_name i name args line = Moves-seq i _ _ (Moves-get_defined i name) λ func.
      Moves-if i i (is_none func) _ _ (builtin (builtin? name))
        (Moves-seq i _ _ (Moves-eval_all i args) (λ vs. Moves-call_value i func vs))
    where
      builtin : (b : Option Builtin) → Moves i i (call_builtin rec b name args line)
      builtin none = Moves-default i name args line
      builtin (some b) = Moves-dispatch i b args line

  Moves-eval_form : (i : ℕ) (cs : List Code) → Moves i i (eval_form rec cs)
  Moves-eval_form i [] = search moves
  Moves-eval_form i (form cs ∷ args) = search moves
  Moves-eval_form i (atom t ∷ args) = by_kind t.kind
    where
      by_kind : (k : Kind) → Moves i i (eval_node rec k t args)
      by_kind symbol = Moves-call_name i t.value args t.line
      by_kind operator = search (moves, Moves-call_name)
      by_kind _ = search moves

  Moves-step : (i : ℕ) (c : Code) → Moves i i (step rec c)
  unfolding step
  Moves-step i (atom t) = Moves-eval_token i t.kind t
  Moves-step i (form cs) = Moves-eval_form i (Code.to_list cs)

module _ {R : Type 0} ⦃F : Floats R⦄ where
  Moves-eval : (fuel i : ℕ) (c : Code) → Moves {R = R} i i (eval fuel c)
  unfolding eval
  Moves-eval zero i c = Moves-raise i i out_of_fuel
  Moves-eval (suc fuel) i c = Moves-step (eval fuel) (Moves-eval fuel) i c

  -- Evaluation that returns a value leaves as many scopes as it found, for every tree, fuel and
  -- machine: each scope that a `let`, a `with` or a function call entered has been left.
  pub eval-balanced :
      (fuel : ℕ) (c : Code) (m m' : Machine R) (v : Value R)
      → eval fuel c m ≡ (ok v, m')
      → length m'.stack ≡ length m.stack
  eval-balanced fuel c m m' v h =
      omega (arith, rw h at ((Moves-eval fuel 0 c).at (length m.stack) m (omega arith)))
