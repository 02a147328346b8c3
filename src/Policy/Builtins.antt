-- ===== src/Policy/Builtins.antt =====
-- The functions c_* of Evaluator in mom/Policy/Parser.py: their names, the types that their
-- docstrings declare for the dispatcher, and the operators that stand for them.
use mom.Prelude.{String, Option, none, some, List, [], ◌∷◌, ◌==◌, if◌then◌else◌}

pub data Builtin : Type 0 where
  c_def c_set c_defvar c_let c_with c_if : Builtin
  c_add c_sub c_mul c_div c_lt c_gt c_lte c_gte c_eq c_neq c_shl c_shr : Builtin
  c_and c_or c_not c_min c_max c_null c_valid : Builtin

-- A docstring: `code` and `symbol` arguments are not evaluated; `dots` is the ellipsis.
pub data DocType : Type 0 where
  code symbol value dots : DocType

unfoldable pub doc : Builtin → List DocType
doc c_def = symbol ∷ code ∷ code ∷ []
doc c_set = symbol ∷ value ∷ []
doc c_defvar = symbol ∷ value ∷ []
doc c_let = code ∷ code ∷ dots ∷ []
doc c_with = symbol ∷ symbol ∷ code ∷ []
doc c_if = value ∷ code ∷ code ∷ []
doc c_and = value ∷ dots ∷ []
doc c_or = value ∷ dots ∷ []
doc c_not = value ∷ []
doc c_min = value ∷ dots ∷ []
doc c_max = value ∷ dots ∷ []
doc c_null = dots ∷ []
doc c_valid = dots ∷ []
doc _ = value ∷ value ∷ []

-- The methods whose name is `c_` and the given name; `defun` and `setq` are aliases.
abbrev form_name : String → Option Builtin
form_name name =
    if name == "def"
    then some c_def
    else if name == "defun"
    then some c_def
    else if name == "set"
    then some c_set
    else if name == "setq"
    then some c_set
    else if name == "defvar"
    then some c_defvar
    else if name == "let"
    then some c_let
    else if name == "with"
    then some c_with
    else if name == "if"
    then some c_if
    else none

abbrev arith_name : String → Option Builtin
arith_name name =
    if name == "add"
    then some c_add
    else if name == "sub"
    then some c_sub
    else if name == "mul"
    then some c_mul
    else if name == "div"
    then some c_div
    else if name == "shl"
    then some c_shl
    else if name == "shr"
    then some c_shr
    else none

abbrev test_name : String → Option Builtin
test_name name =
    if name == "lt"
    then some c_lt
    else if name == "gt"
    then some c_gt
    else if name == "lte"
    then some c_lte
    else if name == "gte"
    then some c_gte
    else if name == "eq"
    then some c_eq
    else if name == "neq"
    then some c_neq
    else none

abbrev list_name : String → Option Builtin
list_name name =
    if name == "and"
    then some c_and
    else if name == "or"
    then some c_or
    else if name == "not"
    then some c_not
    else if name == "min"
    then some c_min
    else if name == "max"
    then some c_max
    else if name == "null"
    then some c_null
    else if name == "valid"
    then some c_valid
    else none

abbrev first_of_two : Option Builtin → Option Builtin → Option Builtin
first_of_two (some b) other = some b
first_of_two none other = other

unfoldable pub builtin? : String → Option Builtin
builtin? name =
    first_of_two (form_name name)
      (first_of_two (arith_name name) (first_of_two (test_name name) (list_name name)))

-- operator_map; `none` is the KeyError
unfoldable pub operator_name : String → Option String
operator_name op =
    if op == "+"
    then some "add"
    else if op == "-"
    then some "sub"
    else if op == "*"
    then some "mul"
    else if op == "/"
    then some "div"
    else if op == "<"
    then some "lt"
    else if op == ">"
    then some "gt"
    else if op == "<="
    then some "lte"
    else if op == ">="
    then some "gte"
    else if op == "<<"
    then some "shl"
    else if op == ">>"
    then some "shr"
    else if op == "=="
    then some "eq"
    else if op == "!="
    then some "neq"
    else if op == "and"
    then some "and"
    else if op == "or"
    then some "or"
    else if op == "not"
    then some "not"
    else if op == "min"
    then some "min"
    else if op == "max"
    then some "max"
    else if op == "null"
    then some "null"
    else if op == "valid"
    then some "valid"
    else none
