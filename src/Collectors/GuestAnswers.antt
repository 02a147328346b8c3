-- ===== src/Collectors/GuestAnswers.antt =====
-- mom/Collectors/GuestMemory.py, GuestBalloon.py and GuestCpuTune.py: collectors that pass on what the
-- hypervisor interface answers for a guest, which is a parameter. The state is the flag that keeps an
-- error from being logged more than once; what is logged is part of the result.
pub mod Warnings
use mom.Prelude.{String, Bool, true, false, Option, none, some, List, [], ◌∷◌}
use mom.Prelude.Dict.{Dict}
use mom.Python.Value.{Value}
use mom.Monitor.{Collected, stats, no_data}

-- What a collection gives: its result, whether an error was logged, and the flag after it.
pub record Outcome (R : Type 0) : Type 0 where
  pub collected : Collected R
  pub logged : Bool
  pub available : Bool

-- The methods `stats_error`: log if the flag is set, and clear it.
unfoldable pub stats_error : {R : Type 0} → Collected R → Bool → Outcome R
stats_error collected available = record {
  collected = collected;
  logged = available;
  available = false;
}

unfoldable pub answered : {R : Type 0} → Dict (Value R) → Outcome R
answered row = record { collected = stats row; logged = false; available = true }

module _ {R : Type 0} where
  -- GuestMemory: `none` is a HypervisorInterfaceError, which gives an empty dictionary
  unfoldable pub collect_memory : Option (Dict (Value R)) → Bool → Outcome R
  unfolding stats_error answered
  collect_memory none available = stats_error (stats []) available
  collect_memory (some row) available = answered row

  -- GuestBalloon: `none` is an answer of None, which is passed on
  unfoldable pub collect_balloon : Option (Dict (Value R)) → Bool → Outcome R
  unfolding stats_error answered
  collect_balloon none available = stats_error no_data available
  collect_balloon (some row) available = answered row

  -- GuestCpuTune
  unfoldable pub collect_cpu_tune : Option (Dict (Value R)) → Bool → Outcome R
  unfolding stats_error answered
  collect_cpu_tune none available = stats_error no_data available
  collect_cpu_tune (some row) available = answered row

  -- one collection after another
  unfoldable pub collect_all :
      (Option (Dict (Value R)) → Bool → Outcome R)
      → List (Option (Dict (Value R)))
      → Bool
      → List (Outcome R)
  collect_all collect [] available = []
  collect_all collect (answer ∷ answers) available =
      let o = collect answer available in o ∷ collect_all collect answers o.available
