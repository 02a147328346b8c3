-- ===== src/Controllers/CpuTune.antt =====
-- mom/Controllers/CpuTune.py: tune the quota and the period of each guest's virtual processors.
pub mod Changes
use mom.Prelude.{List, Bool, true, false, not, ◌&&◌, ◌||◌, pure, lift, ◌>>=◌, ◌>>◌, if◌then◌else◌}
use mom.Python.Value.{Floats, Value, is_none}
use mom.Python.Order.{value_eq}
use mom.Python.Arith.{to_int}
use mom.Entity.{Entity, get_control, prop}
use mom.Controllers.Calls.{C, emit, attribute, cpu_tune, for_each}

module _ {R : Type 0} ⦃F : Floats R⦄ where
  unfoldable pub get_changed_val : Value R → Value R → Value R
  get_changed_val v prev = if not (value_eq v prev) && not (is_none v) then v else prev

  unfoldable pub tune : Entity R → Value R → Value R → Value R → Value R → C R (Unit {0})
  tune guest quota period prev_quota prev_period =
      if not (value_eq quota prev_quota) || not (value_eq period prev_period)
      then (do
        q ← lift (to_int quota)
        p ← lift (to_int period)
        uuid ← lift (prop guest "uuid")
        name ← lift (prop guest "name")
        emit (cpu_tune uuid q p))
      else pure tt

  unfoldable pub process_guest : Entity R → C R (Unit {0})
  process_guest guest = do
    let quota = get_control guest "vcpu_quota"
    let period = get_control guest "vcpu_period"
    prev_quota ← lift (attribute guest "vcpu_quota")
    prev_period ← lift (attribute guest "vcpu_period")
    tune guest (get_changed_val quota prev_quota) (get_changed_val period prev_period) prev_quota
        prev_period

  unfoldable pub process : List (Entity R) → C R (Unit {0})
  unfolding process_guest for_each
  process guests = for_each process_guest guests
