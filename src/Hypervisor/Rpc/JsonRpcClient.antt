-- ===== src/Hypervisor/Rpc/JsonRpcClient.antt =====
-- mom/HypervisorInterfaces/vdsmjsonrpcclientInterface.py.
use mom.Prelude.{String, none, some, List, [], ◌∷◌, Result, ok, err, pure, lift, ◌>>=◌, ◌>>◌}
use mom.Prelude.Int.{ℤ}
use mom.Python.Value.{Error, server_error}
use mom.Hypervisor.Json.{Json, num, txt}
use mom.Hypervisor.Optional.{Optional, or_none, get_path, iterate_optional}
use mom.Hypervisor.RpcBase.{Table}
use mom.Hypervisor.Rpc.{Api, Change, T, log_change, and_then, collect}

unfoldable pub checked_call : Result Error Json → Result Error Optional
checked_call (ok response) = ok (some response)
checked_call (err server_error) = ok none
checked_call (err e) = err e

-- The body of `getAllVmStats`, which runs when the cache has expired.
unfoldable pub get_all_vm_stats : Api → Result Error Table
unfolding checked_call collect iterate_optional
get_all_vm_stats api =
    and_then (and_then (checked_call api.get_all_vm_stats) iterate_optional) (λ vms. collect vms [])

abbrev field_of : String → String → Optional → Result Error Json
unfolding get_path or_none
field_of uuid field info = and_then (get_path info (uuid ∷ field ∷ [])) (λ o. ok (or_none o))

unfoldable pub get_vm_io_tune_policy : Api → String → Result Error Json
unfolding checked_call field_of
get_vm_io_tune_policy api uuid =
    and_then (checked_call api.get_all_policies) (field_of uuid "policy")

unfoldable pub get_vm_io_tune : Api → String → Result Error Json
unfolding checked_call field_of
get_vm_io_tune api uuid =
    and_then (checked_call api.get_all_policies) (field_of uuid "current_values")

module _ (api : Api) where
  unfoldable pub changed : String → List Json → T (Unit {0})
  unfolding log_change checked_call
  changed method arguments = do
    let c : Change = record { method = method; arguments = arguments }
    log_change c
    result ← lift (checked_call (api.change c))
    pure tt

  unfoldable pub set_vm_balloon_target : String → ℤ → T (Unit {0})
  unfolding changed
  set_vm_balloon_target uuid target = changed "VM.setBalloonTarget" (txt uuid ∷ num target ∷ [])

  unfoldable pub set_vm_cpu_tune : String → ℤ → ℤ → T (Unit {0})
  unfolding changed
  set_vm_cpu_tune uuid quota period = do
    changed "VM.setCpuTuneQuota" (txt uuid ∷ num quota ∷ [])
    changed "VM.setCpuTunePeriod" (txt uuid ∷ num period ∷ [])

  unfoldable pub set_vm_io_tune : String → Json → T (Unit {0})
  unfolding changed
  set_vm_io_tune uuid tunables = changed "VM.setIoTune" (txt uuid ∷ tunables ∷ [])

  unfoldable pub ksm_tune : Json → T (Unit {0})
  unfolding changed
  ksm_tune parameters = changed "Host.setKsmTune" (parameters ∷ [])
