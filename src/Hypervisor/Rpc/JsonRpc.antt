-- ===== src/Hypervisor/Rpc/JsonRpc.antt =====
-- mom/HypervisorInterfaces/vdsmjsonrpcInterface.py and vdsmjsonrpcbulkInterface.py.
use mom.Prelude.{String, none, some, List, [], ◌∷◌, Result, ok, err, pure, lift, ◌>>=◌, ◌>>◌}
use mom.Python.Value.{
  Error, type_error, attribute_error, vdsm_error, connection_error, protocol_error,
}
use mom.Hypervisor.Json.{Json, num, txt, arr, nil}
use mom.Hypervisor.Optional.{Optional, or_none, get_item, get_path, get_optional, iterate_optional}
use mom.Hypervisor.RpcBase.{Table}
use mom.Hypervisor.Rpc.{Api, Change, T, log_change, and_then, collect, status_of}
use mom.Prelude.Int.{ℤ}

-- what does not look like an answer of the API is let through
unfoldable pub check_status : Json → Result Error (Unit {0})
unfolding status_of
check_status response = elim (status_of response) [
  | err attribute_error ↦ ok tt
  | err type_error ↦ ok tt
  | r ↦ r
]

-- the exceptions that `checked_call` catches
abbrev caught : Result Error Json → Result Error Optional
caught (ok response) = ok (some response)
caught (err connection_error) = ok none
caught (err vdsm_error) = ok none
caught (err protocol_error) = ok none
caught (err e) = err e

unfoldable pub checked_call : Result Error Json → Result Error Optional
unfolding check_status
checked_call answer =
    caught (and_then answer (λ response. and_then (check_status response) (λ u. ok response)))

abbrev each : Optional → String → Result Error (List Json)
unfolding get_item iterate_optional
each ret key = and_then (get_item ret key) iterate_optional

-- The body of `getAllVmStats`, which runs when the cache has expired.
unfoldable pub get_all_vm_stats : Api → Result Error Table
unfolding checked_call each collect
get_all_vm_stats api = and_then (checked_call api.get_all_vm_stats) λ ret.
    and_then (each ret "result") λ results.
      and_then (collect results []) λ vms. and_then (each ret "items") λ items. collect items vms

abbrev items_of : Optional → Result Error Json
unfolding get_optional
items_of result = and_then (get_optional result "items" (arr nil)) (λ o. ok (or_none o))

unfoldable pub get_vm_io_tune_policy : Api → String → Result Error Json
unfolding checked_call items_of or_none
get_vm_io_tune_policy api uuid = and_then (checked_call (api.get_io_tune_policy uuid)) items_of

unfoldable pub get_vm_io_tune : Api → String → Result Error Json
unfolding checked_call items_of or_none
get_vm_io_tune api uuid = and_then (checked_call (api.get_io_tune uuid)) items_of

-- JsonRpcVdsmBulkInterface: vm_io_tune_policy_info[vmId][field].orNone()
abbrev field_of : String → String → Optional → Result Error Json
unfolding get_path
field_of uuid field info = and_then (get_path info (uuid ∷ field ∷ [])) (λ o. ok (or_none o))

unfoldable pub bulk_get_vm_io_tune_policy : Api → String → Result Error Json
unfolding checked_call field_of or_none
bulk_get_vm_io_tune_policy api uuid =
    and_then (checked_call api.get_all_policies) (field_of uuid "policy")

unfoldable pub bulk_get_vm_io_tune : Api → String → Result Error Json
unfolding checked_call field_of or_none
bulk_get_vm_io_tune api uuid =
    and_then (checked_call api.get_all_policies) (field_of uuid "current_values")

module _ (api : Api) where
  -- a call that changes something
  unfoldable pub changed : String → List Json → T (Unit {0})
  unfolding log_change checked_call
  changed method arguments = do
    let c : Change = record { method = method; arguments = arguments }
    log_change c
    result ← lift (checked_call (api.change c))
    pure tt

  unfoldable pub set_vm_balloon_target : String → ℤ → T (Unit {0})
  unfolding changed
  set_vm_balloon_target uuid target = changed "setBalloonTarget" (txt uuid ∷ num target ∷ [])

  unfoldable pub set_vm_cpu_tune : String → ℤ → ℤ → T (Unit {0})
  unfolding changed
  set_vm_cpu_tune uuid quota period = do
    changed "setCpuTuneQuota" (txt uuid ∷ num quota ∷ [])
    changed "setCpuTunePeriod" (txt uuid ∷ num period ∷ [])

  unfoldable pub set_vm_io_tune : String → Json → T (Unit {0})
  unfolding changed
  set_vm_io_tune uuid tunables = changed "setIoTune" (txt uuid ∷ tunables ∷ [])

  unfoldable pub ksm_tune : Json → T (Unit {0})
  unfolding changed
  ksm_tune parameters = changed "setKsmTune" (parameters ∷ [])
