-- ===== src/Daemon/Api.antt =====
-- mom/MOMFuncs.py: the calls that the RPC server and the owner of the daemon may make. They go to the
-- policy engine, the host monitor and the guest manager.
use mom.Prelude.{
  String, Bool, true, Option, none, some, List, [], ◌∷◌, Result, ok, err, last, if◌then◌else◌,
}
use mom.Prelude.Dict.{Dict, lookup, values}
use mom.Python.Value.{Floats, Error, key_error, attribute_error, index_error, Value}
use mom.Python.Order.{value_eq}
use mom.Policy.Code.{Code}
use mom.Policy.Store.{Store}
use mom.Entity.{Entity}
use mom.Monitor
use mom.Monitor.{Monitor}
use mom.GuestManager
use mom.GuestManager.{Guest}
use mom.PolicyEngine
use mom.PolicyEngine.{Change}
use mom.Daemon.Server.{Level, log_set_verbosity}

unfoldable pub ping : Bool
ping = true

-- the level of the root logger, and the result
unfoldable pub set_verbosity : String → Level × Bool
unfolding log_set_verbosity
set_verbosity verbosity = (log_set_verbosity verbosity, true)

module _ (get_code : String → Result Error (List Code))
    (read : String → Result Error (Option String))
    (list_dir : String → Result Error (Option (List String)))
    (join : String → String → String) where
  -- `policy` and `policy_dir` are the options of the configuration
  unfoldable pub reset_policies : String → String → Change (Option Bool)
  reset_policies policy policy_dir =
      PolicyEngine.rpc_reset_policy get_code read list_dir join policy policy_dir

module _ (get_code : String → Result Error (List Code)) where
  unfoldable pub set_policy : Option String → Change Bool
  set_policy policy = PolicyEngine.rpc_set_policy get_code policy

  unfoldable pub set_named_policy : String → Option String → Change Bool
  set_named_policy name policy = PolicyEngine.rpc_set_named_policy get_code name policy

unfoldable pub get_policy : Store → String
get_policy s = PolicyEngine.rpc_get_policy s

unfoldable pub get_named_policies : Store → Dict String
get_named_policies s = PolicyEngine.rpc_get_named_policies s

-- a dictionary from the names, which are values, to rows
abbrev pub Rows : Type 0 → Type 0
Rows R = List (Value R × Dict (Value R))

abbrev pub and_then : {A B : Type 0} → Result Error A → (A → Result Error B) → Result Error B
and_then (ok a) f = f a
and_then (err e) f = err e

module _ {R : Type 0} ⦃F : Floats R⦄ where
  unfoldable pub put : Value R → Dict (Value R) → Rows R → Rows R
  put name row [] = (name, row) ∷ []
  put name row ((other, old) ∷ rows) =
      if value_eq other name then (other, row) ∷ rows else (other, old) ∷ put name row rows

  abbrev pub put_guest : Option (Value R) → Option (Dict (Value R)) → Rows R → Result Error (Rows R)
  put_guest name none rows = err index_error
  put_guest none (some row) rows = err key_error
  put_guest (some name) (some row) rows = ok (put name row rows)

  -- the loop over the entities of the guests; `statistics[-1]` comes before the name
  unfoldable pub guest_rows : List (Entity R) → Rows R → Result Error (Rows R)
  unfolding put
  guest_rows [] rows = ok rows
  guest_rows (e ∷ entities) rows =
      and_then (put_guest (lookup "name" e.properties) (last e.statistics) rows)
        (guest_rows entities)

  abbrev pub newest : Option (Entity R) → Result Error (Dict (Value R))
  newest none = err attribute_error
  newest (some e) = elim (last e.statistics) [ none ↦ err index_error | some row ↦ ok row ]

  unfoldable pub get_statistics :
      Monitor R → Dict (Guest R) → Result Error (Dict (Value R) × Rows R)
  unfolding guest_rows
  get_statistics host guests = and_then (newest (Monitor.interrogate host)) λ row.
      and_then (guest_rows (values (GuestManager.interrogate guests)) []) λ rows. ok (row, rows)

  unfoldable pub get_active_guests : Dict (Guest R) → List (Value R)
  get_active_guests guests = GuestManager.rpc_get_active_guests guests
