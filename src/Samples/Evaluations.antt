-- ===== src/Samples/Evaluations.antt =====
-- The theorems on the policy language at concrete programs.
use mom.Prelude.{
  String, ◌≡◌, refl, true, Option, none, some, [], ◌∷◌, arith, length, is_some, ◌==◌, if◌then◌else◌,
}
use mom.Prelude.Int.{ℤ, pos}
use mom.Python.Text.{split}
use mom.Python.Value.{Value, int}
use mom.Policy.Expressions.{
  Expr, literal, var, bin, choose, plus, minus, times, over, less, greater, at_most, at_least,
  equal, unequal, left, right, code_of, depth, meaning, IsClear, eval-code_of,
}
use mom.Policy.Machine.{Machine, get_defined}
use mom.Policy.Stack.{Scopes, get, set, alloc, leave_scope}
use mom.Policy.Stack.Laws.{names, get-set, get-alloc}
use mom.Policy.Evaluator.{eval, initial}
use mom.Policy.Evaluator.Balance.{eval-balanced}
use mom.Samples.Fixed.{fixed}
use mom.Samples.Programs.{let_program, let_machine, let_runs}

abbrev pub machine : Machine ℤ
machine = record { stack = (("x", int (pos 3)) ∷ []) ∷ []; funcs = []; entities = [] }

-- (if (< x 4) (+ x 1) (/ x 0)): the branch that would raise is not evaluated
abbrev pub guarded : Expr
guarded =
    choose (bin less (var "x") (literal "4")) (bin plus (var "x") (literal "1"))
      (bin over (var "x") (literal "0"))

pub machine-IsClear : IsClear machine
unfolding get_defined split
machine-IsClear = record {
  operators = elim [
    | plus ↦ refl
    | minus ↦ refl
    | times ↦ refl
    | over ↦ refl
    | less ↦ refl
    | greater ↦ refl
    | at_most ↦ refl
    | at_least ↦ refl
    | equal ↦ refl
    | unequal ↦ refl
    | left ↦ refl
    | right ↦ refl
  ];
  conditional = refl;
}

eval-code_of_example :
    eval 3 (code_of (some 1) guarded) machine ≡ (meaning (some 1) machine guarded, machine)
unfolding depth
eval-code_of_example = eval-code_of 3 (some 1) machine guarded machine-IsClear (omega arith)

eval-balanced_example : length let_machine.stack ≡ length (initial {R = ℤ}).stack
eval-balanced_example = eval-balanced 3 let_program initial let_machine (int (pos 7)) let_runs

-- x and y are in different scopes; the assignment reaches the outer one
abbrev scopes : Scopes (Value ℤ)
scopes = (("y", int (pos 1)) ∷ []) ∷ (("x", int (pos 2)) ∷ []) ∷ []

abbrev assigned : Scopes (Value ℤ)
assigned = (("y", int (pos 1)) ∷ []) ∷ (("x", int (pos 5)) ∷ []) ∷ []

abbrev no_attr : Value ℤ → String → Option (Value ℤ)
no_attr v name = none

get-set_example :
    (get no_attr "y" assigned ≡ (if "x" == "y" then some (int (pos 5)) else get no_attr "y" scopes))
    × (is_some (get no_attr "x" scopes) ≡ true)
    × (names assigned ≡ names scopes)
unfolding set split
get-set_example = get-set no_attr "x" "y" (int (pos 5)) scopes assigned refl refl refl

get-alloc_example :
    (get no_attr "y" scopes ≡ (if "y" == "y" then some (int (pos 1)) else get no_attr "y" scopes))
    × (leave_scope scopes ≡ leave_scope scopes)
unfolding alloc split
get-alloc_example =
    get-alloc no_attr "y" "y" (int (pos 9)) (int (pos 1)) scopes scopes refl refl refl
