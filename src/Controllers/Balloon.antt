-- ===== src/Controllers/Balloon.antt =====
-- mom/Controllers/Balloon.py: resize the balloon of each guest whose rules set `balloon_target`.
pub mod Targets
use mom.Prelude.{List, Bool, pure, lift, ◌>>=◌, ◌>>◌, if◌then◌else◌}
use mom.Python.Value.{Floats, Value, nothing, is_none}
use mom.Python.Arith.{to_int}
use mom.Entity.{Entity, get_control, prop, stat}
use mom.Controllers.Calls.{C, emit, balloon_target, for_each}

module _ {R : Type 0} ⦃F : Floats R⦄ where
  abbrev pub resize : Entity R → Value R → C R (Unit {0})
  resize guest control = do
    target ← lift (to_int control)
    uuid ← lift (prop guest "uuid")
    name ← lift (prop guest "name")
    prev_target ← lift (stat guest "balloon_cur" nothing)
    emit (balloon_target uuid target)

  unfoldable pub process_guest : Entity R → C R (Unit {0})
  process_guest guest =
      let control = get_control guest "balloon_target" in
      if is_none control then pure tt else resize guest control

  unfoldable pub process : List (Entity R) → C R (Unit {0})
  unfolding process_guest for_each
  process guests = for_each process_guest guests
