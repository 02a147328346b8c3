-- ===== src/Hypervisor/Rpc/XmlRpcBulk.antt =====
-- mom/HypervisorInterfaces/vdsmxmlrpcbulkInterface.py. Its handlers name what the module does not
-- import: an exception that reaches them becomes a NameError.
use mom.Prelude.{String, Result, ok, err, ◌∷◌, [], some}
use mom.Python.Value.{Error, name_error}
use mom.Hypervisor.Json.{Json, item}
use mom.Hypervisor.Optional.{Optional, or_none, get_path}
use mom.Hypervisor.Rpc.{Api, and_then}
use mom.Hypervisor.Rpc.XmlRpc.{checked}

abbrev unhandled : {A : Type 0} → Result Error A → Result Error A
unhandled (ok a) = ok a
unhandled (err e) = err name_error

-- The body of `getAllVmIoTunePolicies`, which runs when the cache has expired.
unfoldable pub get_all_vm_io_tune_policies : Api → Result Error Optional
unfolding checked
get_all_vm_io_tune_policies api =
    and_then (unhandled (checked api.get_all_policies))
      λ ret. and_then (item ret "io_tune_policies_dict") λ vms. ok (some vms)

abbrev field_of : String → String → Optional → Result Error Json
unfolding get_path
field_of uuid field info = and_then (get_path info (uuid ∷ field ∷ [])) λ o. ok (or_none o)

unfoldable pub get_vm_io_tune_policy : Api → String → Result Error Json
unfolding get_all_vm_io_tune_policies field_of or_none
get_vm_io_tune_policy api uuid = and_then (get_all_vm_io_tune_policies api) (field_of uuid "policy")

unfoldable pub get_vm_io_tune : Api → String → Result Error Json
unfolding get_all_vm_io_tune_policies field_of or_none
get_vm_io_tune api uuid =
    and_then (get_all_vm_io_tune_policies api) (field_of uuid "current_values")
