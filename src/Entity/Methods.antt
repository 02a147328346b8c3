-- ===== src/Entity/Methods.antt =====
-- The methods of mom/Entity.py as a policy calls them: attribute lookup on an entity, and a call of
-- a bound method with values for arguments. The names that a policy gives are texts.
use mom.Prelude.{
  String, Option, none, some, List, [], ◌∷◌, Result, ok, err, Exec, ◌==◌, if◌then◌else◌,
}
use mom.Python.Value.{Floats, Error, type_error, Value, nothing, str}
use mom.Entity.{Entity, prop, stat, stat_avg, set_var, get_var, control, get_control}

pub data Method : Type 0 where
  prop_m stat_m stat_avg_m set_var_m get_var_m control_m get_control_m : Method

-- The rule-accessible methods of the class.
unfoldable pub method? : String → Option Method
method? name =
    if name == "Prop"
    then some prop_m
    else if name == "Stat"
    then some stat_m
    else if name == "StatAvg"
    then some stat_avg_m
    else if name == "SetVar"
    then some set_var_m
    else if name == "GetVar"
    then some get_var_m
    else if name == "Control"
    then some control_m
    else if name == "GetControl"
    then some get_control_m
    else none

module _ {R : Type 0} ⦃F : Floats R⦄ where
  abbrev returning : Result Error (Value R) → Exec (Entity R) Error (Value R)
  returning r e = (r, e)

  -- A call with the wrong number of arguments is a TypeError.
  unfoldable pub call : Method → List (Value R) → Exec (Entity R) Error (Value R)
  call prop_m (str name ∷ []) e = (prop e name, e)
  call stat_m (str name ∷ []) e = (stat e name nothing, e)
  call stat_m (str name ∷ default ∷ []) e = (stat e name default, e)
  call stat_avg_m (str name ∷ []) e = (stat_avg e name, e)
  call set_var_m (str name ∷ val ∷ []) e = (ok nothing, set_var name val e)
  call get_var_m (str name ∷ []) e = (ok (get_var e name), e)
  call control_m (str name ∷ val ∷ []) e = (ok nothing, control name val e)
  call get_control_m (str name ∷ []) e = (ok (get_control e name), e)
  call _ _ e = (err type_error, e)
