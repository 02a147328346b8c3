-- ===== src/Entity.antt =====
-- mom/Entity.py: a snapshot of a Monitor that the rules of a policy read and write.
-- A method returns its result and the entity after it; `attributes` holds what `_finalize` adds to
-- the object by `setattr`. Of its monitor an entity reads `valid_fields` only.
pub mod Methods
use mom.Prelude.{
  ℕ, String, Bool, true, false, Option, none, some, List, [], ◌∷◌, ◌++◌, Result, ok, err, Exec,
  contains, last, length, not, if◌then◌else◌,
}
use mom.Prelude.Dict.{Dict, lookup, insert}
use mom.Prelude.Int.{pos}
use mom.Python.Value.{
  Floats, Error, key_error, attribute_error, entity_error, Value, nothing, int, is_none,
}
use mom.Python.Arith.{add, div, to_float}

pub record Entity (R : Type 0) : Type 0 where
  pub properties : Dict (Value R)
  pub variables : Dict (Value R)
  pub statistics : List (Dict (Value R))
  pub controls : Dict (Value R)
  pub attributes : Dict (Value R)
  -- `None`, or the valid fields of the monitor
  pub monitor : Option (List String)

-- the test `name not in self.monitor.valid_fields`
abbrev pub declared : Option (List String) → String → Result Error (Unit {0})
declared none name = err attribute_error
declared (some valid) name = if contains name valid then ok tt else err key_error

module _ {R : Type 0} where
  -- the `None` that stands for a missing key
  abbrev pub or_none : Option (Value R) → Value R
  or_none none = nothing
  or_none (some v) = v

  -- Entity(monitor)
  unfoldable pub create : Option (List String) → Entity R
  create monitor = record {
    properties = [];
    variables = [];
    statistics = [];
    controls = [];
    attributes = [];
    monitor = monitor;
  }

  unfoldable pub set_property : String → Value R → Entity R → Entity R
  set_property name val e = record e { properties = insert name val e.properties }

  unfoldable pub set_variable : String → Value R → Entity R → Entity R
  set_variable name val e = record e { variables = insert name val e.variables }

  abbrev pub append_rows : List (Dict (Value R)) → List (Dict (Value R)) → List (Dict (Value R))
  append_rows rows [] = rows
  append_rows rows (row ∷ stats) = append_rows (rows ++ row ∷ []) stats

  unfoldable pub set_statistics : List (Dict (Value R)) → Entity R → Entity R
  set_statistics stats e = record e { statistics = append_rows e.statistics stats }

  -- the loop of `_finalize`: a field that no collector declares is skipped
  unfoldable pub publish : List String → Dict (Value R) → Dict (Value R) → Dict (Value R)
  publish valid [] attributes = attributes
  publish valid ((stat, v) ∷ row) attributes =
      publish valid row (if contains stat valid then insert stat v attributes else attributes)

  abbrev pub publish_last :
      Option (List String) → Option (Dict (Value R)) → Exec (Entity R) Error (Unit {0})
  publish_last monitor none e = (ok tt, e)
  publish_last (some valid) (some row) e =
      (ok tt, record e { attributes = publish valid row e.attributes })
  -- no monitor: `self.monitor.valid_fields`, or `self.monitor.logger`, is an AttributeError
  publish_last none (some []) e = (ok tt, e)
  publish_last none (some (kv ∷ row)) e = (err attribute_error, e)

  unfoldable pub finalize : Exec (Entity R) Error (Unit {0})
  unfolding publish
  finalize e = publish_last e.monitor (last e.statistics) e

  abbrev or_key_error : Option (Value R) → Result Error (Value R)
  or_key_error none = err key_error
  or_key_error (some v) = ok v

  unfoldable pub prop : Entity R → String → Result Error (Value R)
  prop e name = or_key_error (lookup name e.properties)

  abbrev pub in_row : String → Value R → Option (Dict (Value R)) → Value R
  in_row name default none = nothing
  in_row name default (some row) = elim (lookup name row) [ none ↦ default | some v ↦ v ]

  abbrev pub stat_in :
      Option (List String) → Option (Dict (Value R)) → String → Value R → Result Error (Value R)
  stat_in monitor row name default = elim (declared monitor name) [
    | ok _ ↦ ok (in_row name default row)
    | err x ↦ err x
  ]

  unfoldable pub stat : Entity R → String → Value R → Result Error (Value R)
  stat e name default = stat_in e.monitor (last e.statistics) name default

  -- the rows of a statistic that are there and not None
  unfoldable pub present : String → List (Dict (Value R)) → List (Value R)
  present name [] = []
  present name (row ∷ rows) =
      let rest = present name rows in
      let v = or_none (lookup name row) in if is_none v then rest else v ∷ rest

module _ {R : Type 0} ⦃F : Floats R⦄ where
  unfoldable pub total : Value R → List (Value R) → Result Error (Value R)
  total acc [] = ok acc
  total acc (v ∷ vs) = elim (add acc v) [ ok acc' ↦ total acc' vs | err x ↦ err x ]

  abbrev mean : List (Value R) → Result Error (Value R)
  mean [] = to_float (int (pos 0))
  mean (v ∷ vs) = elim (total (int (pos 0)) (v ∷ vs)) [
    | ok sum ↦ elim (div sum (int (pos (length (v ∷ vs))))) [ ok m ↦ to_float m | err x ↦ err x ]
    | err x ↦ err x
  ]

  abbrev average : String → List (Dict (Value R)) → Result Error (Value R)
  average name [] = err entity_error
  average name (row ∷ rows) = mean (present name (row ∷ rows))

  unfoldable pub stat_avg : Entity R → String → Result Error (Value R)
  unfolding present total
  stat_avg e name = elim (declared e.monitor name) [
    | ok _ ↦ average name e.statistics
    | err x ↦ err x
  ]

module _ {R : Type 0} where
  unfoldable pub set_var : String → Value R → Entity R → Entity R
  set_var name val e = record e { variables = insert name val e.variables }

  unfoldable pub get_var : Entity R → String → Value R
  get_var e name = or_none (lookup name e.variables)

  unfoldable pub control : String → Value R → Entity R → Entity R
  control name val e = record e { controls = insert name val e.controls }

  unfoldable pub get_control : Entity R → String → Value R
  get_control e name = or_none (lookup name e.controls)
