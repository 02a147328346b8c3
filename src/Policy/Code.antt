-- ===== src/Policy/Code.antt =====
-- The tokens and the trees of mom/Policy/Parser.py. Scanner and Parser (which rest on the SPARK
-- toolkit) are not modelled: a program is the list of trees that `get_code` returns.
use mom.Prelude.{ℕ, ◌≡◌, refl, String, Option, none, List, [], ◌∷◌}

-- The `type` of a NumericToken.
pub data NumberType : Type 0 where
  float integer hex octal : NumberType

pub data Kind : Type 0 where
  number : NumberType → Kind
  string symbol operator : Kind

pub record Token : Type 0 where
  pub kind : Kind
  pub value : String
  pub line : Option ℕ

mutual
  pub data Code : Type 0 where
    atom : Token → Code
    form : Codes → Code

  pub data Codes : Type 0 where
    nil : Codes
    cons : Code → Codes → Codes

abbrev pub of_list : List Code → Codes
of_list [] = nil
of_list (c ∷ cs) = cons c (of_list cs)

abbrev pub to_list : Codes → List Code
to_list nil = []
to_list (cons c cs) = c ∷ to_list cs

-- Token('symbol', name), as the evaluator builds it: without a line
abbrev pub symbol_token : String → Code
symbol_token name = atom (record { kind = symbol; value = name; line = none })

pub to_list-of_list : (cs : List Code) → to_list (of_list cs) ≡ cs
to_list-of_list [] = refl
to_list-of_list (c ∷ cs) = λ i. c ∷ to_list-of_list cs i
