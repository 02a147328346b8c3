-- ===== src/Samples/Controls.antt =====
-- The theorems on the controllers at concrete guests.
use mom.Prelude.{String, ◌≡◌, refl, some, List, [], ◌∷◌, ok, ◌>>=◌}
use mom.Prelude.Dict.{Dict}
use mom.Prelude.Int.{ℤ, pos}
use mom.Python.Value.{Value, int, str}
use mom.Python.Order.{value_eq}
use mom.Python.Arith.{to_int}
use mom.Entity.{Entity, prop, stat, get_control}
use mom.Controllers.Calls.{balloon_target, cpu_tune, ksm_tune, attribute, emit}
use mom.Controllers.Loop.{Outcome}
use mom.Controllers.Balloon
use mom.Controllers.CpuTune
use mom.Controllers.Ksm
use mom.Controllers.Balloon.Targets.{target, process-sends}
use mom.Controllers.CpuTune.Changes.{tuning, process-tunes}
use mom.Controllers.Ksm.Outputs.{Tuned, process-Tuned}
use mom.Samples.Fixed.{fixed}

abbrev guest : String → Dict (Value ℤ) → Dict (Value ℤ) → Entity ℤ
guest id controls attributes = record {
  properties = ("uuid", str id) ∷ ("name", str id) ∷ [];
  variables = [];
  statistics = attributes ∷ [];
  controls = controls;
  attributes = attributes;
  monitor = some ("balloon_cur" ∷ "vcpu_quota" ∷ "vcpu_period" ∷ []);
}

abbrev stats : Dict (Value ℤ)
stats =
    ("balloon_cur", int (pos 900))
    ∷ ("vcpu_quota", int (pos 50))
    ∷ ("vcpu_period", int (pos 100))
    ∷ []

abbrev guests : List (Entity ℤ)
guests =
    guest "a" (("balloon_target", int (pos 700)) ∷ []) stats
    ∷ guest "b" (("vcpu_quota", int (pos 40)) ∷ []) stats
    ∷ []

process-sends_example :
    Outcome target guests [] (Balloon.process guests []).0 (Balloon.process guests []).1
process-sends_example = process-sends guests []

process-tunes_example :
    Outcome tuning guests [] (CpuTune.process guests []).0 (CpuTune.process guests []).1
process-tunes_example = process-tunes guests []

abbrev host : Entity ℤ
host =
    guest "host" (("ksm_run", int (pos 1)) ∷ ("ksm_sleep_millisecs", int (pos 20)) ∷ [])
      (("ksm_run", int (pos 0)) ∷ ("ksm_sleep_millisecs", int (pos 20)) ∷ [])

process-Tuned_example : Tuned host [] (Ksm.process host []).0 (Ksm.process host []).1
process-Tuned_example = process-Tuned host []

balloon_test : Balloon.process guests [] ≡ (ok tt, balloon_target (str "a") (pos 700) ∷ [])
unfolding Balloon.process to_int prop stat get_control emit ◌>>=◌
balloon_test = refl

cpu_tune_test : CpuTune.process guests [] ≡ (ok tt, cpu_tune (str "b") (pos 40) (pos 100) ∷ [])
unfolding CpuTune.process CpuTune.process_guest CpuTune.tune CpuTune.get_changed_val to_int prop
    get_control attribute emit value_eq ◌>>=◌
cpu_tune_test = refl

ksm_test : Ksm.process host [] ≡ (ok tt, ksm_tune (("run", pos 1) ∷ []) ∷ [])
unfolding Ksm.process get_control to_int value_eq emit ◌>>=◌
ksm_test = refl
