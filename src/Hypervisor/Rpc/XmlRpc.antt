-- ===== src/Hypervisor/Rpc/XmlRpc.antt =====
-- mom/HypervisorInterfaces/vdsmxmlrpcInterface.py.
use mom.Prelude.{String, List, [], ◌∷◌, Result, ok, err, lift, ◌>>◌}
use mom.Prelude.Int.{ℤ}
use mom.Python.Value.{Error, vdsm_error, connection_error}
use mom.Hypervisor.Json.{Json, null, num, txt, arr, nil, item, get, iterate}
use mom.Hypervisor.RpcBase.{Table}
use mom.Hypervisor.Rpc.{Api, Change, T, log_change, and_then, collect, status_of}

-- the answer, if its status is good
unfoldable pub checked : Result Error Json → Result Error Json
unfolding status_of
checked answer = and_then answer (λ response. and_then (status_of response) (λ u. ok response))

-- except socket.error, vdsmException: return default
abbrev or_default : {A : Type 0} → A → (Json → Result Error A) → Result Error Json → Result Error A
or_default default f (ok response) = f response
or_default default f (err connection_error) = ok default
or_default default f (err vdsm_error) = ok default
or_default default f (err e) = err e

abbrev table_of : Json → Result Error Table
unfolding collect
table_of ret = and_then (and_then (item ret "statsList") iterate) (λ vms. collect vms [])

-- The body of `getAllVmStats`, which runs when the cache has expired.
unfoldable pub get_all_vm_stats : Api → Result Error Table
unfolding checked table_of
get_all_vm_stats api = or_default [] table_of (checked api.get_all_vm_stats)

unfoldable pub get_vm_io_tune_policy : Api → String → Result Error Json
unfolding checked
get_vm_io_tune_policy api uuid =
    or_default null (λ result. get result "ioTunePolicy" (arr nil))
      (checked (api.get_io_tune_policy uuid))

unfoldable pub get_vm_io_tune : Api → String → Result Error Json
unfolding checked
get_vm_io_tune api uuid =
    or_default null (λ result. get result "ioTune" (arr nil)) (checked (api.get_io_tune uuid))

module _ (api : Api) where
  unfoldable pub changed : String → List Json → T (Unit {0})
  unfolding log_change checked
  changed method arguments = do
    let c : Change = record { method = method; arguments = arguments }
    log_change c
    lift (or_default tt (λ response. ok tt) (checked (api.change c)))

  unfoldable pub set_vm_balloon_target : String → ℤ → T (Unit {0})
  unfolding changed
  set_vm_balloon_target uuid target = changed "setBalloonTarget" (txt uuid ∷ num target ∷ [])

  unfoldable pub set_vm_cpu_tune : String → ℤ → ℤ → T (Unit {0})
  unfolding changed
  set_vm_cpu_tune uuid quota period = do
    changed "vmSetCpuTuneQuota" (txt uuid ∷ num quota ∷ [])
    changed "vmSetCpuTunePeriod" (txt uuid ∷ num period ∷ [])

  unfoldable pub set_vm_io_tune : String → Json → T (Unit {0})
  unfolding changed
  set_vm_io_tune uuid tunables = changed "setIoTune" (txt uuid ∷ tunables ∷ [])

  unfoldable pub ksm_tune : Json → T (Unit {0})
  unfolding changed
  ksm_tune parameters = changed "setKsmTune" (parameters ∷ [])
