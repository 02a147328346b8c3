-- ===== src/PolicyEngine.antt =====
-- mom/PolicyEngine.py: the policies that are loaded at the start or by RPC, and a pass of the rules
-- and the controllers. The file system and the import of a controller are parameters; the thread and
-- the log are left out.
pub mod Loading
pub mod Complete
pub mod Passes
pub mod Running
use mom.Prelude.{
  ℕ, String, Bool, true, false, not, ◌&&◌, ◌||◌, Option, none, some, List, [], ◌∷◌, Result, ok, err,
  Exec, ◌==◌, pure, raise, ◌>>=◌, ◌>>◌, if◌then◌else◌,
}
use mom.Prelude.Dict.{Dict, values}
use mom.Python.Value.{Floats, Error}
use mom.Python.Text.{split, lstrip, starts_with, ends_with, before}
use mom.Policy.Code.{Code}
use mom.Policy.Store.{Store, get_string, get_strings, sorted, set_policy, clear_policy, evaluate}
use mom.Entity.{Entity}
use mom.Monitor
use mom.Monitor.{Monitor}
use mom.GuestManager
use mom.GuestManager.{Guest}
use mom.Controllers.Calls.{Call, C}

-- A method that changes the policies.
abbrev pub Change : Type 0 → Type 0
Change A = Exec Store Error A

-- a configured value that is not empty
abbrev pub is_given : String → Bool
is_given name = not (name == "")

abbrev pub is_policy_file : String → Bool
is_policy_file name = not (starts_with "." name) && ends_with ".policy" name

unfoldable pub rpc_get_policy : Store → String
rpc_get_policy s = get_string s

unfoldable pub rpc_get_named_policies : Store → Dict String
rpc_get_named_policies s = get_strings s

module _ (get_code : String → Result Error (List Code)) where
  unfoldable pub rpc_set_policy : Option String → Change Bool
  unfolding clear_policy
  rpc_set_policy text s = set_policy get_code none text clear_policy

  unfoldable pub rpc_set_named_policy : String → Option String → Change Bool
  rpc_set_named_policy name text s = set_policy get_code (some name) text s

  -- The text of a file, `ok none` for an IOError, or another exception; the names in a directory,
  -- `ok none` for an OSError, or another exception.
  module _ (read : String → Result Error (Option String))
      (list_dir : String → Result Error (Option (List String)))
      (join : String → String → String) where
    abbrev pub store_text : Option String → Result Error (Option String) → Change Bool
    store_text name (err e) s = (err e, s)
    store_text name (ok none) s = (ok false, s)
    store_text name (ok (some text)) s = set_policy get_code name (some text) s

    unfoldable pub read_policy : String → Option String → Change Bool
    read_policy file_name policy_name = store_text policy_name (read file_name)

    -- the loop over the names; what `read_policy` returns is not looked at
    unfoldable pub read_all : String → List String → Change (Unit {0})
    unfolding read_policy
    read_all policy_dir [] = pure tt
    read_all policy_dir (name ∷ names) =
        let rest = read_all policy_dir names in
        if is_policy_file name
        then (do read_policy (join policy_dir name) (some (before ".policy" name)); rest)
        else rest

    abbrev pub load_directory : String → Result Error (Option (List String)) → Change (Option Bool)
    load_directory policy_dir (err e) = raise e
    load_directory policy_dir (ok none) = pure (some false)
    load_directory policy_dir (ok (some names)) = do
      read_all policy_dir (sorted names)
      pure (some true)

    -- `none`, which is None, if neither a file nor a directory is configured
    unfoldable pub load_policy : String → String → Change (Option Bool)
    unfolding read_all
    load_policy policy policy_dir =
        if is_given policy
        then (do r ← read_policy policy none; pure (some r))
        else if is_given policy_dir
        then load_directory policy_dir (list_dir policy_dir)
        else pure none

    unfoldable pub rpc_reset_policy : String → String → Change (Option Bool)
    unfolding load_policy
    rpc_reset_policy policy policy_dir s = load_policy policy policy_dir clear_policy

-- A controller: `process(host, guests)`.
abbrev pub Controller : Type 0 → Type 0
Controller R = Entity R → List (Entity R) → C R (Unit {0})

module _ {R : Type 0} where
  abbrev pub with_controller :
      Option (Controller R) → Option (List (Controller R)) → Option (List (Controller R))
  with_controller none rest = rest
  with_controller (some c) none = none
  with_controller (some c) (some cs) = some (c ∷ cs)

  -- `has_ksm`: the host monitor has a HostKSM collector. `none` is the RuntimeError. A controller that
  -- cannot be imported is left out.
  module _ (has_ksm : Bool) (import : String → Option (Controller R)) where
    unfoldable pub controllers_of : List String → Option (List (Controller R))
    controllers_of [] = some []
    controllers_of (name ∷ names) =
        let rest = controllers_of names in
        if lstrip name == ""
        then rest
        else if lstrip name == "KSM" && not has_ksm
        then none
        else with_controller (import (lstrip name)) rest

    unfoldable pub get_controllers : String → Option (List (Controller R))
    unfolding controllers_of
    get_controllers config_str = controllers_of (split b',' config_str)

  unfoldable pub process_all : List (Controller R) → Entity R → List (Entity R) → C R (Unit {0})
  process_all [] host guests = pure tt
  process_all (c ∷ cs) host guests = do c host guests; process_all cs host guests

module _ {R : Type 0} ⦃F : Floats R⦄ where
  -- the controllers see the entities that the rules left; the list is never empty
  abbrev pub controlled :
      List (Controller R)
      → Option Bool × List (Entity R)
      → List (Call R)
      → Option (Result Error (Unit {0}) × List (Call R))
  controlled controllers (some true, host ∷ guests) calls =
      some (process_all controllers host guests calls)
  controlled controllers (none, entities) calls = none
  controlled controllers _ calls = some (ok tt, calls)

  abbrev pub controls_for :
      ℕ
      → Store
      → Option (Entity R)
      → List (Entity R)
      → List (Controller R)
      → List (Call R)
      → Option (Result Error (Unit {0}) × List (Call R))
  controls_for fuel s none guests controllers calls = some (ok tt, calls)
  controls_for fuel s (some host) guests controllers calls =
      controlled controllers (evaluate fuel s host guests) calls

  -- One pass; `none` if the fuel of the policy ran out.
  unfoldable pub do_controls :
      ℕ
      → Store
      → Monitor R
      → Dict (Guest R)
      → List (Controller R)
      → List (Call R)
      → Option (Result Error (Unit {0}) × List (Call R))
  unfolding process_all
  do_controls fuel s host guests controllers calls =
      controls_for fuel s (Monitor.interrogate host) (values (GuestManager.interrogate guests))
        controllers calls
