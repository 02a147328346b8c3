-- ===== src/Policy/Evaluator/Fuel.antt =====
-- Fuel of the evaluator: more fuel does not change an evaluation that has ended, by a value or by
-- an exception of the program (mom/Policy/Parser.py).
use mom.Prelude.{
  ℕ, zero, suc, ◌≤◌, ◌≢◌, String, ◌≡◌, refl, Bool, true, false, Option, none, some, List, [], ◌∷◌,
  arith, Result, ok, err, or_raise, proceed, ◌>>=◌, eqb, length, ◌==◌, if◌then◌else◌,
}
use mom.Prelude.Dict.{lookup}
use mom.Python.Arith
use mom.Python.Value.{Floats, Error, type_error, out_of_fuel, incorrect_arity, Value, is_none}
use mom.Policy.Code
use mom.Policy.Code.{Code, atom, form, Token, Kind, symbol, operator}
use mom.Policy.Builtins.{
  Builtin, DocType, c_def, c_set, c_defvar, c_not, c_let, c_with, c_if, builtin?, doc,
}
use mom.Policy.Machine.{
  Machine, M, policy_at, get, get_defined, alloc_variable, enter_scope, leave_scope,
}
use mom.Policy.Forms.{
  Arg, tree, label, val, raws, bind_symbol, bind_pair, bind_one, eval_all, bind_all, eval_body,
  let_form, for_each, with_form, apply,
}
use mom.Policy.Dispatch.{convert, convert_all, dispatch}
use mom.Policy.Evaluator.{
  call_code, call_function, default, call_builtin, call_name, eval_node, eval_form, step, eval,
}

-- The left outcome is the right one, unless the left one ran out of fuel.
data Approx {R A : Type 0} : Result Error A × Machine R → Result Error A × Machine R → Type 0 where
  stopped : {m : Machine R} {q : Result Error A × Machine R} → Approx (err out_of_fuel, m) q
  same : {p : Result Error A × Machine R} → Approx p p

record Below {R A : Type 0} (x y : M R A) : Type 0 where
  at : (m : Machine R) → Approx (x m) (y m)

module _ {R A : Type 0} where
  Below-refl : (x : M R A) → Below x x
  Below-refl x = record { at = λ m. same }

  Below-if :
      (b : Bool) {x x' y y' : M R A}
      → Below x x'
      → Below y y'
      → Below (if b then x else y) (if b then x' else y')
  Below-if true hx hy = hx
  Below-if false hx hy = hy

module _ {R A B : Type 0} where
  proceeds :
      {p q : Result Error A × Machine R} {f g : A → M R B}
      → Approx p q
      → ((a : A) → Below (f a) (g a))
      → Approx (proceed p.0 f p.1) (proceed q.0 g q.1)
  proceeds stopped h = stopped
  proceeds (same {p = (ok a, m)}) h = (h a).at m
  proceeds (same {p = (err e, m)}) h = same

  Below-bind :
      {x y : M R A} {f g : A → M R B}
      → Below x y
      → ((a : A) → Below (f a) (g a))
      → Below (x >>= f) (y >>= g)
  unfolding ◌>>=◌
  Below-bind hx hf = record { at = λ m. proceeds (hx.at m) hf }

-- the rest of a block after an action that does not evaluate
Below-after :
    {R A B : Type 0} (x : M R A) {f g : A → M R B}
    → ((a : A) → Below (f a) (g a))
    → Below (x >>= f) (x >>= g)
Below-after x hf = Below-bind (Below-refl x) hf

module _ {R : Type 0} ⦃F : Floats R⦄ (r r' : Code → M R (Value R))
    (up : (c : Code) → Below (r c) (r' c)) where
  Below-eval_all : (cs : List Code) → Below (eval_all r cs) (eval_all r' cs)
  unfolding eval_all
  Below-eval_all [] = Below-refl _
  Below-eval_all (c ∷ cs) = Below-bind (up c) λ v. Below-bind (Below-eval_all cs) λ vs. Below-refl _

  Below-bind_symbol :
      (k : Kind) (t : Token) (c : Code) → Below (bind_symbol r k t c) (bind_symbol r' k t c)
  Below-bind_symbol symbol t c = Below-bind (up c) λ v. Below-refl _
  Below-bind_symbol _ t c = Below-refl _

  Below-bind_one : (c : Code) → Below (bind_one r c) (bind_one r' c)
  Below-bind_one (atom t) = Below-refl _
  Below-bind_one (form cs) = pair (Code.to_list cs)
    where
      pair : (parts : List Code) → Below (bind_pair r parts) (bind_pair r' parts)
      pair (atom t ∷ value ∷ []) = Below-bind_symbol t.kind t value
      pair (form name ∷ value ∷ []) = Below-refl _
      pair _ = Below-refl _

  Below-bind_all : (cs : List Code) → Below (bind_all r cs) (bind_all r' cs)
  unfolding bind_all
  Below-bind_all [] = Below-refl _
  Below-bind_all (c ∷ cs) = Below-bind (Below-bind_one c) λ _. Below-bind_all cs

  Below-eval_body : (cs : List Code) → Below (eval_body r cs) (eval_body r' cs)
  unfolding eval_body
  Below-eval_body [] = Below-refl _
  Below-eval_body (c ∷ []) = Below-bind (up c) λ v. Below-refl _
  Below-eval_body (c ∷ d ∷ cs) = Below-bind (up c) λ v. Below-eval_body (d ∷ cs)

  Below-let_form :
      (syms : Code) (body : List Code) → Below (let_form r syms body) (let_form r' syms body)
  unfolding let_form
  Below-let_form (atom t) body = Below-refl _
  Below-let_form (form syms) body = Below-after enter_scope λ _.
      Below-bind (Below-bind_all (Code.to_list syms))
        λ _. Below-bind (Below-eval_body body) λ result. Below-refl _

  Below-for_each :
      (x : String) (c : Code) (items : List (Value R))
      → Below (for_each r x c items) (for_each r' x c items)
  unfolding for_each
  Below-for_each x c [] = Below-refl _
  Below-for_each x c (item ∷ items) = Below-after enter_scope λ _.
      Below-after (alloc_variable x item) λ _.
        Below-bind (up c)
          λ v. Below-after leave_scope λ _. Below-bind (Below-for_each x c items) λ vs. Below-refl _

  Below-with_form : (xs x : String) (c : Code) → Below (with_form r xs x c) (with_form r' xs x c)
  unfolding with_form
  Below-with_form xs x c = Below-after (get xs none) λ seq.
      Below-after (or_raise (Arith.iterate seq) type_error)
        λ items. Below-bind (Below-for_each x c items) λ vs. Below-refl _

  Below-apply : (b : Builtin) (args : List (Arg R)) → Below (apply r b args) (apply r' b args)
  unfolding apply
  Below-apply c_let (tree syms ∷ body) = Below-let_form syms (raws body)
  Below-apply c_with (label xs ∷ label x ∷ tree c ∷ []) = Below-with_form xs x c
  Below-apply c_if (val cond ∷ tree yes_code ∷ tree no_code ∷ []) = up _
  Below-apply c_def (label f ∷ tree params ∷ tree code ∷ []) = Below-refl _
  Below-apply c_set (label x ∷ val v ∷ []) = Below-refl _
  Below-apply c_defvar (label x ∷ val v ∷ []) = Below-refl _
  Below-apply c_not (val x ∷ []) = Below-refl _
  Below-apply _ (val x ∷ val y ∷ []) = Below-refl _
  Below-apply _ args = Below-refl _

  Below-convert :
      (type : DocType) (line : Option ℕ) (c : Code)
      → Below (convert r type line c) (convert r' type line c)
  unfolding convert
  Below-convert DocType.code line c = Below-refl _
  Below-convert DocType.symbol line (atom t) = Below-refl _
  Below-convert DocType.symbol line (form cs) = Below-refl _
  Below-convert DocType.value line c = Below-bind (up c) λ v. Below-refl _
  Below-convert DocType.dots line c = Below-bind (up c) λ v. Below-refl _

  Below-convert_all :
      (current : Option DocType) (types : List DocType) (line : Option ℕ) (cs : List Code)
      → Below (convert_all r current types line cs) (convert_all r' current types line cs)
  unfolding convert_all
  Below-convert_all current types line [] = Below-refl _
  Below-convert_all current [] line (c ∷ cs) =
      Below-bind (Below-convert_all current [] line cs) λ rest. Below-refl _
  Below-convert_all none (DocType.dots ∷ types) line (c ∷ cs) =
      Below-bind (Below-convert DocType.dots line c) λ a.
        Below-bind (Below-convert_all (some DocType.dots) (DocType.dots ∷ types) line cs)
          λ rest. Below-refl _
  Below-convert_all (some type) (DocType.dots ∷ types) line (c ∷ cs) =
      Below-bind (Below-convert type line c) λ a.
        Below-bind (Below-convert_all (some type) (DocType.dots ∷ types) line cs)
          λ rest. Below-refl _
  Below-convert_all _ (type ∷ types) line (c ∷ cs) =
      Below-bind (Below-convert type line c)
        λ a. Below-bind (Below-convert_all (some type) types line cs) λ rest. Below-refl _

  Below-dispatch :
      (b : Builtin) (args : List Code) (line : Option ℕ)
      → Below (dispatch r b args line) (dispatch r' b args line)
  unfolding dispatch
  Below-dispatch b args line =
      Below-after _
        λ _. Below-bind (Below-convert_all none (doc b) line args) λ xs. Below-apply b xs

  Below-call_function :
      (f : Option (Code × Code)) (args : List Code) (line : Option ℕ)
      → Below (call_function r f args line) (call_function r' f args line)
  unfolding call_function
  Below-call_function none args line = Below-refl _
  Below-call_function (some (atom t, code)) args line = Below-refl _
  Below-call_function (some (form params, code)) args line =
      Below-if (eqb (length (Code.to_list params)) (length args))
        (up (call_code (Code.to_list params) args code))
        (Below-refl (policy_at incorrect_arity line))

  Below-default :
      (name : String) (args : List Code) (line : Option ℕ)
      → Below (default r name args line) (default r' name args line)
  unfolding default
  Below-default name args line =
      Below-if (name == "eval") (Below-bind (Below-eval_all args) λ vs. Below-refl _)
        (record { at = λ m. (Below-call_function (lookup name m.funcs) args line).at m })

  Below-call_name :
      (name : String) (args : List Code) (line : Option ℕ)
      → Below (call_name r name args line) (call_name r' name args line)
  unfolding call_name
  Below-call_name name args line = Below-after (get_defined name) λ func.
      Below-if (is_none func) (builtin (builtin? name))
        (Below-bind (Below-eval_all args) λ vs. Below-refl _)
    where
      builtin :
          (b : Option Builtin)
          → Below (call_builtin r b name args line) (call_builtin r' b name args line)
      builtin none = Below-default name args line
      builtin (some b) = Below-dispatch b args line

  Below-eval_form : (cs : List Code) → Below (eval_form r cs) (eval_form r' cs)
  Below-eval_form [] = Below-refl _
  Below-eval_form (form cs ∷ args) = Below-refl _
  Below-eval_form (atom t ∷ args) = by_kind t.kind
    where
      by_kind : (k : Kind) → Below (eval_node r k t args) (eval_node r' k t args)
      by_kind symbol = Below-call_name t.value args t.line
      by_kind operator = Below-after _ λ name. Below-call_name name args t.line
      by_kind _ = Below-refl _

  Below-step : (c : Code) → Below (step r c) (step r' c)
  unfolding step
  Below-step (atom t) = Below-refl _
  Below-step (form cs) = Below-eval_form (Code.to_list cs)

module _ {R : Type 0} ⦃F : Floats R⦄ where
  Below-eval : (f g : ℕ) → f ≤ g → (c : Code) → Below {R = R} (eval f c) (eval g c)
  unfolding eval ◌>>=◌
  Below-eval zero g h c = record { at = λ m. stopped }
  Below-eval (suc f) zero h c = absurd (omega arith)
  Below-eval (suc f) (suc g) h c = Below-step (eval f) (eval g) (Below-eval f g (omega arith)) c

  ended : {p q : Result Error (Value R) × Machine R} → Approx p q → p.0 ≢ err out_of_fuel → q ≡ p
  ended stopped h = absurd (h refl)
  ended same h = refl

  -- An evaluation that ended, by a value or by an exception, ends in the same way and in the same
  -- machine with any larger fuel.
  pub eval_mono :
      (f g : ℕ) (c : Code) (m : Machine R)
      → f ≤ g
      → (eval f c m).0 ≢ err out_of_fuel
      → eval g c m ≡ eval f c m
  eval_mono f g c m h e = ended ((Below-eval f g h c).at m) e
