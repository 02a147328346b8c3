-- ===== src/PolicyEngine/Running.antt =====
-- PolicyEngine.run of mom/PolicyEngine.py. For each round the flag `running`, and what the passes
-- read, are a parameter.
use mom.Prelude.{
  ℕ, zero, suc, ◌+◌, String, Bool, Option, none, some, List, [], Result, ok, err, if◌then◌else◌,
}
use mom.Prelude.Dict.{Dict}
use mom.Python.Value.{Floats, Error}
use mom.Policy.Store.{Store}
use mom.Monitor.{Monitor}
use mom.GuestManager.{Guest}
use mom.Controllers.Calls.{Call}
use mom.PolicyEngine.{Controller, get_controllers, do_controls}

-- what a round reads: the flag, the policies, the host's monitor and the guests
pub record Round (R : Type 0) : Type 0 where
  pub running : Bool
  pub store : Store
  pub host : Monitor R
  pub guests : Dict (Guest R)

-- How the thread ended, with the calls of the hypervisor interface that it made.
pub data Ending (R : Type 0) : Type 0 where
  -- a controller that its collector is missing for
  refused : Ending R
  crashed : Error → List (Call R) → Ending R
  ended : List (Call R) → Ending R

module _ {R : Type 0} ⦃F : Floats R⦄ (fuel : ℕ) (controllers : List (Controller R))
    (world : ℕ → Round R) where
  abbrev pub continue_with :
      (List (Call R) → Option (Ending R))
      → Option (Result Error (Unit {0}) × List (Call R))
      → Option (Ending R)
  continue_with rest none = none
  continue_with rest (some (ok tt, calls)) = rest calls
  continue_with rest (some (err e, calls)) = some (crashed e calls)

  -- the loop from the round `i`, with at most `rounds` rounds; `none` if a bound was met
  unfoldable pub loop : ℕ → ℕ → List (Call R) → Option (Ending R)
  unfolding do_controls
  loop zero i calls = none
  loop (suc rounds) i calls =
      let pass =
        do_controls fuel (world i).store (world i).host (world i).guests controllers calls in
      let rest = continue_with (loop rounds (i + 1)) pass in
      if (world i).running then rest else some (ended calls)

module _ {R : Type 0} ⦃F : Floats R⦄ (fuel : ℕ) (rounds : ℕ) (world : ℕ → Round R) where
  abbrev pub with_controllers : Option (List (Controller R)) → Option (Ending R)
  with_controllers none = some refused
  with_controllers (some controllers) = loop fuel controllers world rounds 0 []

  -- PolicyEngine.run
  unfoldable pub run : Bool → (String → Option (Controller R)) → String → Option (Ending R)
  unfolding loop get_controllers
  run has_ksm import config_str = with_controllers (get_controllers has_ksm import config_str)
