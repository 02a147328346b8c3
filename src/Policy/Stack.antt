-- ===== src/Policy/Stack.antt =====
-- VariableStack of mom/Policy/Parser.py: scopes from the innermost outwards. `attr v name` is
-- `getattr(v, name)`, with `none` where `hasattr` is false.
pub mod Laws
use mom.Prelude.{String, Option, none, some, List, [], ◌∷◌, if◌then◌else◌}
use mom.Prelude.Dict.{Dict, lookup, insert, has, setdefault}
use mom.Python.Text.{split}

abbrev pub Scopes : Type 0 → Type 0
Scopes V = List (Dict V)

module _ {V : Type 0} where
  unfoldable pub enter_scope : Scopes V → Scopes V
  enter_scope stack = [] ∷ stack

  -- self.stack[1:]
  unfoldable pub leave_scope : Scopes V → Scopes V
  leave_scope [] = []
  leave_scope (scope ∷ stack) = stack

  -- the object itself, or its attribute; further parts of a name are not looked at
  abbrev resolve : (V → String → Option V) → V → List String → Option V
  resolve attr v [] = some v
  resolve attr v (name ∷ more) = attr v name

  abbrev or_else : Option V → Option V → Option V
  or_else (some v) rest = some v
  or_else none rest = rest

  abbrev in_scope : (V → String → Option V) → List String → Option V → Option V
  in_scope attr more none = none
  in_scope attr more (some v) = resolve attr v more

  -- an object without the attribute is passed over, and the outer scopes are searched
  unfoldable pub find : (V → String → Option V) → String → List String → Scopes V → Option V
  find attr obj more [] = none
  find attr obj more (scope ∷ stack) =
      or_else (in_scope attr more (lookup obj scope)) (find attr obj more stack)

  abbrev find_parts : (V → String → Option V) → List String → Scopes V → Option V
  find_parts attr [] stack = none
  find_parts attr (obj ∷ more) stack = find attr obj more stack

  -- the search of `get`, `none` where the name is undefined
  unfoldable pub get : (V → String → Option V) → String → Scopes V → Option V
  unfolding find
  get attr name stack = find_parts attr (split b'.' name) stack

  abbrev in_outer : Dict V → Option (Scopes V) → Option (Scopes V)
  in_outer scope none = none
  in_outer scope (some stack) = some (scope ∷ stack)

  -- set(name, value): the innermost scope that has the name; `none` where none has
  unfoldable pub set : String → V → Scopes V → Option (Scopes V)
  set name value [] = none
  set name value (scope ∷ stack) =
      let outer = in_outer scope (set name value stack) in
      if has name scope then some (insert name value scope ∷ stack) else outer

  -- set(name, value, alloc=True), with the value that it returns; `none` is the IndexError of an
  -- empty stack
  unfoldable pub alloc : String → V → Scopes V → Option (V × Scopes V)
  alloc name value [] = none
  alloc name value (scope ∷ stack) = some (
    elim (lookup name scope) [ none ↦ value | some old ↦ old ],
    setdefault name value scope ∷ stack,
  )
