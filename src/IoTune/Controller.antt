-- ===== src/IoTune/Controller.antt =====
-- mom/Controllers/IoTune.py. The state is the list of the calls of setVmIoTune.
use mom.Prelude.{
  String, List, [], ◌∷◌, ◌++◌, Result, ok, err, Exec, pure, lift, modify, ◌>>=◌, ◌>>◌,
  if◌then◌else◌,
}
use mom.Python.Value.{Error, index_error}
use mom.Hypervisor.Json.{Json, item}
use mom.IoTune.{Tune, io_tune}
use mom.IoTune.Equality.{equal}

-- A guest's entity: the statistics io_tune and io_tune_current, where an empty list is None too, and
-- the property uuid.
pub record Guest : Type 0 where
  pub uuid : String
  pub tunes : List Tune
  pub states : List Json

-- setVmIoTune(uuid, changedList)
abbrev pub Call : Type 0
Call = String × List Json

-- the loop over the tunes
unfoldable pub changed_list : List Tune → List Json → Result Error (List Json)
unfolding io_tune equal
changed_list [] states = ok []
changed_list (tune ∷ tunes) [] = err index_error
changed_list (tune ∷ tunes) (state ∷ states) = elim (item state "ioTune") [
  | err e ↦ err e
  | ok previous ↦ elim (changed_list tunes states) [
    | err e ↦ err e
    | ok rest ↦ ok (if equal tune.current previous then rest else io_tune tune ∷ rest)
  ]
]

abbrev sent : String → List Json → Exec (List Call) Error (Unit {0})
sent uuid [] = pure tt
sent uuid (j ∷ js) = modify (λ calls. calls ++ (uuid, j ∷ js) ∷ [])

unfoldable pub process_guest : Guest → Exec (List Call) Error (Unit {0})
unfolding changed_list
process_guest guest = elim guest.tunes [
  | [] ↦ pure tt
  | _ ∷ _ ↦ elim guest.states [
    | [] ↦ pure tt
    | _ ∷ _ ↦ do changed ← lift (changed_list guest.tunes guest.states); sent guest.uuid changed
  ]
]

unfoldable pub process : List Guest → Exec (List Call) Error (Unit {0})
unfolding process_guest
process [] = pure tt
process (guest ∷ guests) = do process_guest guest; process guests
