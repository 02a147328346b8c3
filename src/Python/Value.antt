-- ===== src/Python/Value.antt =====
-- Values of the policy language and of the statistics: what mom/Policy/Parser.py, mom/Entity.py and
-- mom/Monitor.py pass around. Floats are a parameter: a type `R` with the operations of Python's
-- `float` that the program uses.
use mom.Prelude.{ℕ, String, ◌≡◌, refl, Bool, true, false, not, Option, List, [], ◌∷◌, Result, eqb}
use mom.Prelude.Int.{ℤ, pos, negsuc}

-- What a PolicyError says.
pub data Fault : Type 0 where
  undefined_symbol : String → Fault
  arity_mismatch not_enough_arguments malformed parse_error : Fault
  unexpected_token expected_token unknown_function incorrect_arity : Fault
  expecting_list expecting_tuples expecting_symbol : Fault

-- The exceptions; `out_of_fuel` is no exception of the program: the model's fuel ran out.
pub data Error : Type 0 where
  policy : Fault → Error
  key_error type_error attribute_error index_error value_error : Error
  zero_division overflow unbound_local entity_error : Error
  -- HypervisorInterfaceError, vdsmException, ConnectionError, ProtocolError, ServerError
  hypervisor_error vdsm_error connection_error protocol_error server_error : Error
  name_error : Error
  -- libvirt.libvirtError, by its code
  libvirt_error : ℕ → Error
  out_of_fuel : Error

pub record Floats (R : Type 0) : Type 0 where
  -- float(n), and n / m on integers; `none` is the OverflowError
  pub of_int : ℤ → Option R
  pub quot_int : ℤ → ℤ → Option R
  -- float(text); `none` is the ValueError
  pub of_text : String → Option R
  -- int(x); NaN is a ValueError, an infinity an OverflowError
  pub to_int : R → Result Error ℤ
  pub add : R → R → R
  pub sub : R → R → R
  pub mul : R → R → R
  pub quot : R → R → R
  pub magnitude : R → R
  pub is_zero : R → Bool
  pub eq : R → R → Bool
  pub lt : R → R → Bool
  pub le : R → R → Bool
  -- comparisons with an integer are exact in Python
  pub eq_int : R → ℤ → Bool
  pub lt_int : R → ℤ → Bool
  pub le_int : R → ℤ → Bool
  pub int_lt : ℤ → R → Bool
  pub int_le : ℤ → R → Bool

-- The static methods of ExternalFunctions.
pub data External : Type 0 where
  abs debug : External

mutual
  pub data Value (R : Type 0) : Type 0 where
    nothing : Value R
    bool : Bool → Value R
    int : ℤ → Value R
    float : R → Value R
    str : String → Value R
    list : Values R → Value R
    external : External → Value R
    -- a reference to an Entity, by its number, and an attribute of its class
    entity : ℕ → Value R
    bound : ℕ → String → Value R

  pub data Values (R : Type 0) : Type 0 where
    nil : Values R
    cons : Value R → Values R → Values R

module _ {R : Type 0} where
  abbrev pub of_list : List (Value R) → Values R
  of_list [] = nil
  of_list (v ∷ vs) = cons v (of_list vs)

  abbrev pub to_list : Values R → List (Value R)
  to_list nil = []
  to_list (cons v vs) = v ∷ to_list vs

  pub to_list-of_list : (vs : List (Value R)) → to_list (of_list vs) ≡ vs
  to_list-of_list [] = refl
  to_list-of_list (v ∷ vs) = λ i. v ∷ to_list-of_list vs i

  -- `v is None`
  abbrev pub is_none : Value R → Bool
  is_none nothing = true
  is_none _ = false

-- `bool(v)`
module _ {R : Type 0} ⦃F : Floats R⦄ where
  abbrev pub truthy : Value R → Bool
  truthy nothing = false
  truthy (bool b) = b
  truthy (int (pos n)) = not (eqb n 0)
  truthy (int (negsuc n)) = true
  truthy (float x) = not (F.is_zero x)
  truthy (str String.[]) = false
  truthy (str (String.◌∷◌ c s)) = true
  truthy (list nil) = false
  truthy (list (cons v vs)) = true
  truthy _ = true
