-- ===== src/Collectors/GuestAnswers/Warnings.antt =====
-- How often the collectors of mom/Collectors/GuestMemory.py, GuestBalloon.py and GuestCpuTune.py log
-- an error.
use mom.Prelude.{
  ℕ, ◌+◌, ◌≤◌, ◌≡◌, refl, Bool, true, false, Option, none, some, List, [], ◌∷◌, arith,
}
use mom.Prelude.Dict.{Dict}
use mom.Python.Value.{Value}
use mom.Collectors.GuestAnswers.{
  Outcome, collect_memory, collect_balloon, collect_cpu_tune, collect_all,
}

abbrev pub one_if : Bool → ℕ
one_if true = 1
one_if false = 0

-- the logged errors
abbrev pub warnings : {R : Type 0} → List (Outcome R) → ℕ
warnings [] = 0
warnings (o ∷ os) = one_if o.logged + warnings os

-- the answers that were there
abbrev pub answers_of : {R : Type 0} → List (Option (Dict (Value R))) → ℕ
answers_of [] = 0
answers_of (none ∷ answers) = answers_of answers
answers_of (some row ∷ answers) = 1 + answers_of answers

module _ {R : Type 0} where
  -- A collector that logs a missing answer only while the flag is set.
  record IsQuiet (collect : Option (Dict (Value R)) → Bool → Outcome R) : Type 0 where
    missing_logged : (b : Bool) → (collect none b).logged ≡ b
    missing_flag : (b : Bool) → (collect none b).available ≡ false
    present_logged : (row : Dict (Value R)) (b : Bool) → (collect (some row) b).logged ≡ false
    present_flag : (row : Dict (Value R)) (b : Bool) → (collect (some row) b).available ≡ true

  memory-IsQuiet : IsQuiet collect_memory
  unfolding collect_memory
  memory-IsQuiet = record {
    missing_logged = λ b. refl;
    missing_flag = λ b. refl;
    present_logged = λ row b. refl;
    present_flag = λ row b. refl;
  }

  balloon-IsQuiet : IsQuiet collect_balloon
  unfolding collect_balloon
  balloon-IsQuiet = record {
    missing_logged = λ b. refl;
    missing_flag = λ b. refl;
    present_logged = λ row b. refl;
    present_flag = λ row b. refl;
  }

  cpu_tune-IsQuiet : IsQuiet collect_cpu_tune
  unfolding collect_cpu_tune
  cpu_tune-IsQuiet = record {
    missing_logged = λ b. refl;
    missing_flag = λ b. refl;
    present_logged = λ row b. refl;
    present_flag = λ row b. refl;
  }

  warnings_le :
      (collect : Option (Dict (Value R)) → Bool → Outcome R)
      → IsQuiet collect
      → (answers : List (Option (Dict (Value R)))) (available : Bool)
      → warnings (collect_all collect answers available) ≤ answers_of answers + one_if available
  unfolding collect_all
  warnings_le collect q [] available = omega arith
  warnings_le collect q (none ∷ answers) available =
      rw (q.missing_logged available, q.missing_flag available)
        (omega (arith, warnings_le collect q answers false))
  warnings_le collect q (some row ∷ answers) available =
      rw (q.present_logged row available, q.present_flag row available)
        (omega (arith, warnings_le collect q answers true))

-- From a new collector each of the three logs at most one error, and one more for each answer that
-- it got: an error that lasts is logged once.
pub collect_all-warnings :
    (R : Type 0) (answers : List (Option (Dict (Value R))))
    → (warnings (collect_all collect_memory answers true) ≤ answers_of answers + 1)
      × (warnings (collect_all collect_balloon answers true) ≤ answers_of answers + 1)
      × (warnings (collect_all collect_cpu_tune answers true) ≤ answers_of answers + 1)
collect_all-warnings R answers = (
  warnings_le collect_memory memory-IsQuiet answers true,
  warnings_le collect_balloon balloon-IsQuiet answers true,
  warnings_le collect_cpu_tune cpu_tune-IsQuiet answers true,
)
