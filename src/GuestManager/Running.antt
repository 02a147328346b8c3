-- ===== src/GuestManager/Running.antt =====
-- GuestManager.run and _wait_for_guest_monitors of mom/GuestManager.py. For each round the flag
-- `running`, what the hypervisor interface answers and what the collectors do are a parameter.
use mom.Prelude.{
  ℕ, zero, suc, ◌+◌, String, Bool, not, ◌++◌, Option, none, some, List, [], ◌∷◌, Result, ok, err,
  if◌then◌else◌,
}
use mom.Prelude.Dict.{Dict}
use mom.Python.Value.{Error, Value}
use mom.Monitor.{Collector}
use mom.GuestManager.{Guest, follow, collect_from_guest_monitors}

pub record Round (R : Type 0) : Type 0 where
  pub running : Bool
  -- getVmList(): None, a list or an exception; getVmInfo, which raises nothing here
  pub domains : Result Error (Option (List String))
  pub info : String → Option (Dict (Value R))
  pub lives : String → Bool
  pub collectors : String → List (Collector R)

-- How the thread ended: by an exception, or with the guests whose threads it joined, in this order.
pub data Ending : Type 0 where
  crashed : Error → Ending
  ended : List String → Ending

abbrev pub joined : Option Bool → String → List String
joined none id = []
joined (some is_alive) id = id ∷ []

module _ {R : Type 0} where
  -- popitem until the dictionary is empty: the last guest first, each thread joined without a wait
  unfoldable pub wait_for_guest_monitors : Dict (Guest R) → List String
  wait_for_guest_monitors [] = []
  wait_for_guest_monitors ((id, guest) ∷ guests) =
      wait_for_guest_monitors guests ++ joined guest.thread id

module _ {R : Type 0} (threaded : Bool) (limit : ℕ) (world : ℕ → Round R) where
  -- a round: the guests are followed, and in the single-threaded mode asked for their statistics
  unfoldable pub round : Round R → Option (List String) → Dict (Guest R) → Dict (Guest R)
  unfolding follow collect_from_guest_monitors
  round r domains guests =
      let followed = (follow threaded r.info r.lives domains guests).1 in
      if not threaded
      then collect_from_guest_monitors r.running limit r.collectors followed
      else followed

  abbrev pub continue_with :
      (Dict (Guest R) → Option Ending)
      → Round R
      → Result Error (Option (List String))
      → Dict (Guest R)
      → Option Ending
  continue_with rest r (err e) guests = some (crashed e)
  continue_with rest r (ok domains) guests = rest (round r domains guests)

  -- GuestManager.run from the round `i`; `none` if the fuel ran out
  unfoldable pub run : ℕ → ℕ → Dict (Guest R) → Option Ending
  unfolding round wait_for_guest_monitors
  run zero i guests = none
  run (suc fuel) i guests =
      let rest = continue_with (run fuel (i + 1)) (world i) (world i).domains guests in
      if (world i).running
      then rest
      else some (ended (if threaded then wait_for_guest_monitors guests else []))
