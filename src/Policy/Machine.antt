-- ===== src/Policy/Machine.antt =====
-- The state of an Evaluator of mom/Policy/Parser.py: its variable stack, the functions that the
-- policy defined, and the entities (mom/Entity.py) that its values refer to.
use mom.Prelude.{
  ℕ, String, Bool, true, false, Option, none, some, List, [], ◌∷◌, Result, ok, err, Exec, pure,
  raise, lift, or_raise, last, get_elem?, set,
}
use mom.Prelude.Dict.{Dict, lookup}
use mom.Python.Value.{
  Floats, Error, Fault, policy, undefined_symbol, type_error, index_error, abs, debug, Value,
  nothing, external, entity, bound,
}
use mom.Python.Arith
use mom.Entity.{Entity}
use mom.Entity.Methods.{Method, method?, call}
use mom.Policy.Code.{Code}
use mom.Policy.Stack
use mom.Policy.Stack.{Scopes}

pub record Machine (R : Type 0) : Type 0 where
  pub stack : Scopes (Value R)
  -- parameters and body
  pub funcs : Dict (Code × Code)
  pub entities : List (Entity R)

-- Evaluation: a value or an exception, and the machine after it.
abbrev pub M : Type 0 → Type 0 → Type 0
M R A = Exec (Machine R) Error A

module _ {R : Type 0} where
  abbrev method_of : ℕ → String → Option Method → Option (Value R)
  method_of i name none = none
  method_of i name (some m) = some (bound i name)

  abbrev member : ℕ → String → Option (Value R) → Option (Value R)
  member i name none = method_of i name (method? name)
  member i name (some v) = some v

  abbrev of_entity : ℕ → String → Option (Entity R) → Option (Value R)
  of_entity i name none = none
  of_entity i name (some e) = member i name (lookup name e.attributes)

  -- getattr: what `_finalize` set on the object, then the methods of its class. Attributes of
  -- other values are not modelled: they have none.
  unfoldable pub attr : List (Entity R) → Value R → String → Option (Value R)
  unfolding method?
  attr heap (entity i) name = of_entity i name (get_elem? heap i)
  attr heap v name = none

  -- A PolicyError whose message formats a line with %d: without a line that is a TypeError.
  unfoldable pub policy_at : {A : Type 0} → Fault → Option ℕ → M R A
  policy_at fault none = raise type_error
  policy_at fault (some line) = raise (policy fault)

  -- stack.get(name, allow_undefined=True), where a variable that is None counts as undefined
  unfoldable pub get_defined : String → M R (Value R)
  unfolding Stack.get attr
  get_defined name m =
      (ok (elim (Stack.get (attr m.entities) name m.stack) [ none ↦ nothing | some v ↦ v ]), m)

  abbrev pub found : String → Option ℕ → Option (Value R) → M R (Value R)
  found name line (some v) = pure v
  found name line none = policy_at (undefined_symbol name) line

  -- stack.get(name, line=line)
  unfoldable pub get : String → Option ℕ → M R (Value R)
  unfolding Stack.get attr policy_at
  get name line m = found name line (Stack.get (attr m.entities) name m.stack) m

  abbrev pub assigned : String → Value R → Option (Scopes (Value R)) → M R (Value R)
  assigned name value none m = (err (policy (undefined_symbol name)), m)
  assigned name value (some stack) m = (ok value, record m { stack = stack })

  -- stack.set(name, value)
  unfoldable pub set_variable : String → Value R → M R (Value R)
  unfolding Stack.set
  set_variable name value m = assigned name value (Stack.set name value m.stack) m

  abbrev pub allocated : Option (Value R × Scopes (Value R)) → M R (Value R)
  allocated none m = (err index_error, m)
  allocated (some (value, stack)) m = (ok value, record m { stack = stack })

  -- stack.set(name, value, True)
  unfoldable pub alloc_variable : String → Value R → M R (Value R)
  unfolding Stack.alloc
  alloc_variable name value m = allocated (Stack.alloc name value m.stack) m

  unfoldable pub enter_scope : M R (Unit {0})
  unfolding Stack.enter_scope
  enter_scope m = (ok tt, record m { stack = Stack.enter_scope m.stack })

  unfoldable pub leave_scope : M R (Unit {0})
  unfolding Stack.leave_scope
  leave_scope m = (ok tt, record m { stack = Stack.leave_scope m.stack })

  unfoldable pub define : String → Code → Code → M R (Unit {0})
  define name params code m =
      (ok tt, record m { funcs = mom.Prelude.Dict.insert name (params, code) m.funcs })

module _ {R : Type 0} ⦃F : Floats R⦄ where
  abbrev pub store :
      ℕ → Machine R → Result Error (Value R) × Entity R → Result Error (Value R) × Machine R
  store i m (r, e) = (r, record m { entities = set m.entities i e })

  abbrev pub on_entity : Option (Entity R) → ℕ → Option Method → List (Value R) → M R (Value R)
  on_entity (some e) i (some f) args m = store i m (call f args e)
  on_entity _ i _ args m = (err type_error, m)

  -- func(*args)
  unfoldable pub call_value : Value R → List (Value R) → M R (Value R)
  unfolding call method?
  call_value (external abs) (x ∷ []) m = (Arith.abs x, m)
  call_value (external debug) args m = or_raise (last args) index_error m
  call_value (bound i name) args m = on_entity (get_elem? m.entities i) i (method? name) args m
  call_value _ args m = (err type_error, m)
