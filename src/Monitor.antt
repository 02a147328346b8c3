-- ===== src/Monitor.antt =====
-- mom/Monitor.py: the statistics of the host or of one guest. A collector (mom/Collectors) is what
-- it declares and what its `collect()` does in this round. The plotter and the log are output and
-- left out; `data_lock` makes each update of the history one step.
pub mod Sets
pub mod Merge
pub mod Collect
pub mod Snapshot
pub mod Threads
pub mod Plotter
use mom.Prelude.{
  ℕ, String, Bool, true, false, not, ◌&&◌, Option, none, some, List, [], ◌∷◌, ◌++◌, Result, ok, err,
  length, ltb, if◌then◌else◌,
}
use mom.Prelude.Dict.{Dict, lookup, insert, keys, setdefault, update}
use mom.Python.Value.{Floats, Error, Value, nothing, is_none}
use mom.Entity
use mom.Entity.{Entity}
use mom.Monitor.Sets.{union, difference, superset}

-- What a call of `collect()` does: return a dictionary or None, or raise.
pub data Collected (R : Type 0) : Type 0 where
  stats : Dict (Value R) → Collected R
  no_data collection_error fatal_error crashed : Collected R

pub record Collector (R : Type 0) : Type 0 where
  pub fields : List String
  pub optional_fields : List String
  pub collected : Collected R

pub record Monitor (R : Type 0) : Type 0 where
  pub properties : Dict (Value R)
  -- the oldest row first
  pub statistics : List (Dict (Value R))
  pub variables : Dict (Value R)
  pub fields : Option (List String)
  pub optional_fields : Option (List String)
  -- `None` until the first round
  pub ready : Option Bool
  pub terminated : Bool

-- `self.fields`, or the names that a first round computes
abbrev pub or_set : Option (List String) → List String → List String
or_set none names = names
or_set (some old) names = old

module _ {R : Type 0} where
  unfoldable pub create : Dict (Value R) → Monitor R
  create properties = record {
    properties = properties;
    statistics = [];
    variables = [];
    fields = none;
    optional_fields = none;
    ready = none;
    terminated = false;
  }

  abbrev pub all_fields : List (Collector R) → List String
  all_fields [] = []
  all_fields (c ∷ cs) = union c.fields (all_fields cs)

  abbrev pub all_optional_fields : List (Collector R) → List String
  all_optional_fields [] = []
  all_optional_fields (c ∷ cs) = union c.optional_fields (all_optional_fields cs)

  -- the fields that a round uses: those of the first round
  unfoldable pub fields_of : List (Collector R) → Monitor R → List String
  fields_of cs m = or_set m.fields (all_fields cs)

  unfoldable pub optional_fields_of : List (Collector R) → Monitor R → List String
  unfolding fields_of
  optional_fields_of cs m =
      difference (or_set m.optional_fields (all_optional_fields cs)) (fields_of cs m)

  -- a statistic is taken if there is none yet, or only a None
  unfoldable pub offer : String → Value R → Dict (Value R) → Dict (Value R)
  offer key val taken = elim (lookup key taken) [
    | none ↦ insert key val taken
    | some old ↦ if is_none old then insert key val taken else taken
  ]

  unfoldable pub take_all : Dict (Value R) → Dict (Value R) → Dict (Value R)
  take_all [] taken = taken
  take_all ((key, val) ∷ row) taken = take_all row (offer key val taken)

  -- one round of the loop over the collectors; a fatal error ends it
  abbrev pub continue_with :
      Collected R
      → (Dict (Value R) → Option (Dict (Value R)))
      → Dict (Value R)
      → Option (Dict (Value R))
  continue_with (stats row) rest taken = rest (take_all row taken)
  continue_with fatal_error rest taken = none
  continue_with _ rest taken = rest taken

  unfoldable pub merge : List (Collector R) → Dict (Value R) → Option (Dict (Value R))
  merge [] taken = some taken
  merge (c ∷ cs) taken = continue_with c.collected (merge cs) taken

  unfoldable pub fill : List String → Dict (Value R) → Dict (Value R)
  fill [] row = row
  fill (k ∷ ks) row = fill ks (setdefault k nothing row)

  abbrev drop_first : List (Dict (Value R)) → List (Dict (Value R))
  drop_first [] = []
  drop_first (row ∷ rows) = rows

  -- append and, past the history length, popleft
  unfoldable pub push : ℕ → Dict (Value R) → List (Dict (Value R)) → List (Dict (Value R))
  push limit row rows =
      if ltb limit (length (rows ++ row ∷ []))
      then drop_first (rows ++ row ∷ [])
      else rows ++ row ∷ []

  unfoldable pub terminate : Monitor R → Monitor R
  terminate m = record m { terminated = true }

  unfoldable pub set_ready : Monitor R → Monitor R
  set_ready m = record m { ready = some true }

  unfoldable pub set_not_ready : Monitor R → Monitor R
  set_not_ready m = record m { ready = some false }

  -- the start of a round: the fields are known from now on
  abbrev pub with_fields : List (Collector R) → Monitor R → Monitor R
  with_fields cs m = record m {
    fields = some (fields_of cs m);
    optional_fields = some (optional_fields_of cs m);
  }

  abbrev pub finish :
      ℕ
      → List String
      → List String
      → Option (Dict (Value R))
      → Monitor R
      → Option (Dict (Value R)) × Monitor R
  finish limit fields optional none m = (none, terminate (set_not_ready m))
  finish limit fields optional (some taken) m =
      if superset (keys taken) fields
      then (
        some (fill optional taken),
        set_ready (record m { statistics = push limit (fill optional taken) m.statistics }),
      )
      else (none, set_not_ready m)

  unfoldable pub collect : ℕ → List (Collector R) → Monitor R → Option (Dict (Value R)) × Monitor R
  unfolding merge fill push terminate set_ready set_not_ready
  collect limit cs m =
      finish limit (fields_of cs m) (optional_fields_of cs m) (merge cs []) (with_fields cs m)

  unfoldable pub valid_fields : Monitor R → List String
  valid_fields m = union (or_set m.fields []) (or_set m.optional_fields [])

  abbrev pub is_ready : Monitor R → Bool
  is_ready m = elim m.ready [ some true ↦ true | _ ↦ false ]

  abbrev pub finalized : Result Error (Unit {0}) × Entity R → Option (Entity R)
  finalized (r, e) = some e

  -- the copy of the monitor's data; with a monitor `_finalize` does not raise
  unfoldable pub snapshot : Monitor R → Entity R
  snapshot m = Entity.set_statistics m.statistics (record (Entity.create (some (valid_fields m))) {
    properties = update [] m.properties;
    variables = update [] m.variables;
  })

  unfoldable pub interrogate : Monitor R → Option (Entity R)
  unfolding snapshot
  interrogate m = if is_ready m then finalized (Entity.finalize (snapshot m)) else none

  unfoldable pub update_variables : Dict (Value R) → Monitor R → Monitor R
  update_variables variables m = record m { variables = update m.variables variables }

  -- `running` is the configuration's flag
  unfoldable pub should_run : Bool → Monitor R → Bool
  should_run running m = running && not m.terminated
