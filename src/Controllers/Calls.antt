-- ===== src/Controllers/Calls.antt =====
-- The calls of the hypervisor interface that the controllers make, and the loop
-- `for guest in guests: self.process_guest(guest)` that they share.
use mom.Prelude.{String, List, [], ◌∷◌, ◌++◌, Exec, Result, ok, err, Option, none, some, pure, ◌>>◌}
use mom.Prelude.Int.{ℤ}
use mom.Prelude.Dict.{Dict, lookup}
use mom.Python.Value.{Error, attribute_error, Value}
use mom.Entity.{Entity}

pub data Call (R : Type 0) : Type 0 where
  -- setVmBalloonTarget(uuid, target)
  balloon_target : Value R → ℤ → Call R
  -- setVmCpuTune(uuid, quota, period)
  cpu_tune : Value R → ℤ → ℤ → Call R
  -- ksmTune(outputs)
  ksm_tune : Dict ℤ → Call R

-- A method of a controller: the calls so far, and those after it.
abbrev pub C : Type 0 → Type 0 → Type 0
C R A = Exec (List (Call R)) Error A

module _ {R : Type 0} where
  unfoldable pub emit : Call R → C R (Unit {0})
  emit call calls = (ok tt, calls ++ call ∷ [])

  abbrev or_attribute_error : Option (Value R) → Result Error (Value R)
  or_attribute_error none = err attribute_error
  or_attribute_error (some v) = ok v

  -- guest.name, for a statistic
  unfoldable pub attribute : Entity R → String → Result Error (Value R)
  attribute e name = or_attribute_error (lookup name e.attributes)

  unfoldable pub for_each : (Entity R → C R (Unit {0})) → List (Entity R) → C R (Unit {0})
  for_each process_guest [] = pure tt
  for_each process_guest (guest ∷ guests) = do process_guest guest; for_each process_guest guests
