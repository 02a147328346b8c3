-- ===== src/Policy/Store.antt =====
-- mom/Policy/Policy.py: the named policies and their compiled code. `get_code` of
-- mom/Policy/Parser.py (the SPARK scanner and parser) is a parameter: the trees of a text, a
-- PolicyError or another exception. `policy_sem` makes each method one step.
pub mod Laws
use mom.Prelude.{
  ℕ, String, Bool, true, false, Option, none, some, List, [], ◌∷◌, map, Result, ok, err, length,
  if◌then◌else◌,
}
use mom.Prelude.Dict.{Dict, lookup, insert, erase, has, keys}
use mom.Python.Value.{Floats, Error, policy, key_error, out_of_fuel, Value, Values, entity, of_list}
use mom.Python.Value
use mom.Python.Order.{text_lt}
use mom.Python.Arith.{append_text}
use mom.Policy.Code.{Code}
use mom.Policy.Stack
use mom.Policy.Machine.{Machine, alloc_variable}
use mom.Policy.Evaluator.{eval_program, initial}
use mom.Entity.{Entity}

pub record Store : Type 0 where
  pub policy_strings : Dict String
  pub code : List Code

-- DEFAULT_POLICY_NAME
abbrev pub default_policy_name : String
default_policy_name = "50_main_"

-- sorted(names), by insertion
insert_sorted : String → List String → List String
insert_sorted x [] = x ∷ []
insert_sorted x (y ∷ ys) =
    let rest = y ∷ insert_sorted x ys in if text_lt y x then rest else x ∷ y ∷ ys

unfoldable pub sorted : List String → List String
unfolding insert_sorted
sorted [] = []
sorted (x ∷ xs) = insert_sorted x (sorted xs)

-- '\n'.join(texts)
unfoldable pub join_lines : List String → String
join_lines [] = ""
join_lines (s ∷ []) = s
join_lines (s ∷ t ∷ ss) = append_text s (append_text "\n" (join_lines (t ∷ ss)))

abbrev or_empty : Option String → String
or_empty none = ""
or_empty (some s) = s

abbrev pub or_zero : String → String
or_zero String.[] = "0"
or_zero (String.◌∷◌ c s) = String.◌∷◌ c s

unfoldable pub cat_policies : Dict String → String
unfolding sorted join_lines
cat_policies strings =
    or_zero (join_lines (map (λ k. or_empty (lookup k strings)) (sorted (keys strings))))

unfoldable pub clear_policy : Store
clear_policy = record { policy_strings = []; code = [] }

abbrev pub or_default : Option String → String
or_default none = default_policy_name
or_default (some name) = name

-- get_strings without a name, a copy of the dictionary, and with one
unfoldable pub get_strings : Store → Dict String
get_strings s = s.policy_strings

unfoldable pub get_named : String → Store → Option String
get_named name s = lookup name s.policy_strings

unfoldable pub get_string : Store → String
unfolding cat_policies
get_string s = cat_policies s.policy_strings

-- a new text for the name, or its deletion
abbrev pub changed : String → Option String → Dict String → Dict String
changed name none strings = erase name strings
changed name (some text) strings = insert name text strings

-- the handler of the PolicyError; `del` of a missing name is a KeyError
abbrev pub restored : String → Option String → Dict String → Result Error Bool × Dict String
restored name (some old) strings = (ok false, insert name old strings)
restored name none strings =
    if has name strings then (ok false, erase name strings) else (err key_error, strings)

abbrev pub is_policy_error : Error → Bool
is_policy_error (policy fault) = true
is_policy_error _ = false

-- The call of get_code: only a PolicyError has a handler. Another exception passes, and the texts stay
-- as they were changed, with the old code.
abbrev pub compiled :
    String
    → Option String
    → Dict String
    → Result Error (List Code)
    → Store
    → Result Error Bool × Store
compiled name old strings (ok code) s = (ok true, record { policy_strings = strings; code = code })
compiled name old strings (err e) s =
    let back = restored name old strings in
    if is_policy_error e
    then (back.0, record s { policy_strings = back.1 })
    else (err e, record s { policy_strings = strings })

module _ (get_code : String → Result Error (List Code)) where
  unfoldable pub set_policy : Option String → Option String → Store → Result Error Bool × Store
  unfolding cat_policies
  set_policy name text s =
      let n = or_default name in
      let strings = changed n text s.policy_strings in
      compiled n (lookup n s.policy_strings) strings (get_code (cat_policies strings)) s

module _ {R : Type 0} ⦃F : Floats R⦄ where
  -- Entities 0 and 1, 2, … stand for the host and the guests.
  abbrev pub references : ℕ → List (Entity R) → List (Value R)
  references i [] = []
  references i (guest ∷ guests) = entity i ∷ references (mom.Prelude.suc i) guests

  -- Evaluator(), with Host and Guests in its outermost scope
  unfoldable pub start : Entity R → List (Entity R) → Machine R
  unfolding initial alloc_variable
  start host guests =
      let m = record initial { entities = host ∷ guests } in
      let m₁ = (alloc_variable "Host" (entity 0) m).1 in
      (alloc_variable "Guests" (Value.list (of_list (references 1 guests))) m₁).1

  abbrev verdict : Result Error (List (Value R)) → Option Bool
  verdict (ok results) = some true
  verdict (err out_of_fuel) = none
  verdict (err e) = some false

  -- Every exception is logged and gives False; the entities keep what the rules did before it.
  -- `none`: the fuel ran out.
  unfoldable pub evaluate : ℕ → Store → Entity R → List (Entity R) → Option Bool × List (Entity R)
  unfolding start eval_program
  evaluate fuel s host guests =
      let (r, m) = eval_program fuel s.code (start host guests) in (verdict r, m.entities)
