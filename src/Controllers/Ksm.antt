-- ===== src/Controllers/Ksm.antt =====
-- mom/Controllers/KSM.py: hand the KSM parameters that the rules changed to the hypervisor
-- interface, in one call. (`write_value` is file output that nothing calls.)
pub mod Outputs
use mom.Prelude.{
  String, List, [], ◌∷◌, Bool, Option, none, some, pure, lift, ◌>>=◌, ◌>>◌, if◌then◌else◌,
}
use mom.Prelude.Int.{ℤ}
use mom.Prelude.Dict.{Dict, lookup, insert}
use mom.Python.Value.{Floats, Value, int, is_none}
use mom.Python.Order.{value_eq}
use mom.Python.Arith.{to_int, append_text}
use mom.Entity.{Entity, or_none, get_control}
use mom.Controllers.Calls.{C, emit, ksm_tune}

abbrev pub ksm_keys : List String
ksm_keys = "run" ∷ "pages_to_scan" ∷ "sleep_millisecs" ∷ "merge_across_nodes" ∷ []

-- 'ksm_' + key
abbrev pub prefixed : String → String
prefixed key = append_text "ksm_" key

module _ {R : Type 0} ⦃F : Floats R⦄ where
  -- one round of the loop over the keys
  unfoldable pub output : Entity R → String → Dict ℤ → C R (Dict ℤ)
  output host key outputs =
      let rule_var = get_control host (prefixed key) in
      let before_var = or_none (lookup (prefixed key) host.attributes) in
      if is_none rule_var then pure outputs else do
        n ← lift (to_int rule_var)
        pure (if value_eq (int n) before_var then outputs else insert key n outputs)

  unfoldable pub outputs_of : Entity R → List String → Dict ℤ → C R (Dict ℤ)
  unfolding output
  outputs_of host [] outputs = pure outputs
  outputs_of host (key ∷ keys) outputs = do
    outputs' ← output host key outputs
    outputs_of host keys outputs'

  abbrev pub send : Dict ℤ → C R (Unit {0})
  send [] = pure tt
  send (kv ∷ outputs) = emit (ksm_tune (kv ∷ outputs))

  unfoldable pub process : Entity R → C R (Unit {0})
  unfolding outputs_of
  process host = do outputs ← outputs_of host ksm_keys []; send outputs
