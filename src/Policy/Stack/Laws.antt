-- ===== src/Policy/Stack/Laws.antt =====
-- Laws of VariableStack (mom/Policy/Parser.py) for names without a dot: what a read returns after an
-- assignment and after a declaration, and what these leave alone.
use mom.Prelude.{
  String, ◌≡◌, refl, inl, inr, Bool-cases, Option-cases, true, Option, none, some, ◌↔◌, List, [],
  ◌∷◌, arith, is_some, eq_iff, ◌==◌, if◌then◌else◌,
}
use mom.Prelude.Dict.{Dict, insert, has, keys, lookup-insert, lookup-setdefault}
use mom.Python.Text.{split}
use mom.Policy.Stack.{Scopes, find, get, set, alloc, leave_scope}

-- A name with no dot is one part.
abbrev pub IsPlain : String → Type 0
IsPlain name = split b'.' name ≡ name ∷ []

module _ {V : Type 0} (attr : V → String → Option V) where
  find-set :
      (k j : String) (v : V) (stack stack' : Scopes V)
      → set k v stack ≡ some stack'
      → find attr j [] stack' ≡ (if k == j then some v else find attr j [] stack)
  unfolding find set
  find-set k j v [] stack' h = ground arith
  find-set k j v (scope ∷ stack) stack' h = elim (Bool-cases (has k scope)) [
    | inl here ↦ ground (arith, lookup-insert j k v scope, eq_iff k j)
    | inr there ↦ elim (Option-cases (set k v stack)) [
      | inl e ↦ ground arith
      | inr (t, e) ↦ ground (arith, find-set k j v stack t e, eq_iff k j)
    ]
  ]

  set-some :
      (k : String) (v : V) (stack : Scopes V)
      → is_some (set k v stack) ≡ is_some (find attr k [] stack)
  unfolding find set
  set-some k v [] = refl
  set-some k v (scope ∷ stack) = ground (arith, set-some k v stack)

keys-insert {ℓ} :
    {V : Type ℓ} (k : String) (v : V) (d : Dict V) → has k d ≡ true → keys (insert k v d) ≡ keys d
keys-insert k v [] h = ground arith
keys-insert k v ((j, w) ∷ d) h = ground (arith, keys-insert k v d, eq_iff j k)

-- The names of each scope, from the innermost outwards.
abbrev pub names {ℓ} : {V : Type ℓ} → List (Dict V) → List (List String)
names [] = []
names (scope ∷ stack) = keys scope ∷ names stack

module _ {V : Type 0} where
  names-set :
      (k : String) (v : V) (stack stack' : Scopes V)
      → set k v stack ≡ some stack'
      → names stack' ≡ names stack
  unfolding set
  names-set k v [] stack' h = ground arith
  names-set k v (scope ∷ stack) stack' h = elim (Bool-cases (has k scope)) [
    | inl here ↦ ground (arith, keys-insert k v scope)
    | inr there ↦ elim (Option-cases (set k v stack)) [
      | inl e ↦ ground arith
      | inr (t, e) ↦ ground (arith, names-set k v stack t e)
    ]
  ]

  leave_scope-alloc :
      (k : String) (v w : V) (stack stack' : Scopes V)
      → alloc k v stack ≡ some (w, stack')
      → leave_scope stack' ≡ leave_scope stack
  unfolding alloc leave_scope
  leave_scope-alloc k v w [] stack' h = cc
  leave_scope-alloc k v w (scope ∷ stack) stack' h = ground arith

module _ {V : Type 0} (attr : V → String → Option V) where
  find-alloc :
      (k j : String) (v w : V) (stack stack' : Scopes V)
      → alloc k v stack ≡ some (w, stack')
      → find attr j [] stack' ≡ (if k == j then some w else find attr j [] stack)
  unfolding find alloc
  find-alloc k j v w [] stack' h = cc
  find-alloc k j v w (scope ∷ stack) stack' h =
      ground (arith, lookup-setdefault j k v scope, eq_iff k j)

  -- An assignment to a defined variable changes what reads of that variable return and no other
  -- read, and no scope gains or loses a name; to an undefined variable it is refused.
  pub get-set :
      (k j : String) (v : V) (stack stack' : Scopes V)
      → IsPlain k
      → IsPlain j
      → set k v stack ≡ some stack'
      → (get attr j stack' ≡ (if k == j then some v else get attr j stack))
        × (is_some (get attr k stack) ≡ true)
        × (names stack' ≡ names stack)
  unfolding get
  get-set k j v stack stack' pk pj h = (
    rw pj (find-set attr k j v stack stack' h),
    rw pk (ground (arith, set-some attr k v stack)),
    names-set k v stack stack' h,
  )

  pub set-eq-none :
      (k : String) (v : V) (stack : Scopes V)
      → IsPlain k
      → (set k v stack ≡ none) ↔ (get attr k stack ≡ none)
  unfolding get
  set-eq-none k v stack pk = rw pk (ground (arith, set-some attr k v stack))

  -- A declaration returns what the innermost scope has for the name afterwards: the value that was
  -- there before, or else the new one. Reads of other names and the outer scopes do not change.
  pub get-alloc :
      (k j : String) (v w : V) (stack stack' : Scopes V)
      → IsPlain k
      → IsPlain j
      → alloc k v stack ≡ some (w, stack')
      → (get attr j stack' ≡ (if k == j then some w else get attr j stack))
        × (leave_scope stack' ≡ leave_scope stack)
  unfolding get
  get-alloc k j v w stack stack' pk pj h =
      (rw pj (find-alloc k j v w stack stack' h), leave_scope-alloc k v w stack stack' h)
