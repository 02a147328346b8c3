-- ===== src/Hypervisor/Rpc.antt =====
-- The remote APIs of VDSM: vdsmjsonrpcInterface.py, vdsmxmlrpcInterface.py, their bulk variants and
-- vdsmjsonrpcclientInterface.py under mom/HypervisorInterfaces. What a call of the API answers is a
-- parameter: a Python object, or `connection_error` for a socket.error or a ConnectionError,
-- `protocol_error` for a JsonRpcNoResponseError, `server_error` for a ServerError. The ids of guests are
-- texts.
pub mod JsonRpc
pub mod XmlRpc
pub mod XmlRpcBulk
pub mod JsonRpcClient
pub mod Failures
use mom.Prelude.{
  String, Bool, true, false, Option, none, some, List, [], ◌∷◌, ◌++◌, Result, ok, err, Exec, pure,
  raise, lift, modify, proceed, ◌>>=◌, ◌>>◌, if◌then◌else◌,
}
use mom.Prelude.Dict.{Dict, insert, update}
use mom.Prelude.Int.{ℤ}
use mom.Python.Value.{
  Error, type_error, attribute_error, vdsm_error, connection_error, protocol_error, server_error,
}
use mom.Hypervisor.Json.{Json, null, txt, arr, nil, obj, truthy, item, get, iterate}
use mom.Hypervisor.Optional.{Optional, or_none, get_item, get_path, get_optional, iterate_optional}
use mom.Hypervisor.RpcBase.{Table}

abbrev pub and_then : {A B : Type 0} → Result Error A → (A → Result Error B) → Result Error B
and_then (ok a) f = f a
and_then (err e) f = err e

-- vms[vm['vmId']] = vm
abbrev add_vm : Json → Json → Table → Result Error Table
add_vm vm (txt id) vms = ok (insert id vm vms)
add_vm vm id vms = err type_error

unfoldable pub collect : List Json → Table → Result Error Table
collect [] vms = ok vms
collect (vm ∷ rest) vms =
    and_then (and_then (item vm "vmId") (λ id. add_vm vm id vms)) (collect rest)

abbrev pub bad_status : Json → Result Error (Unit {0})
bad_status code = if truthy code then err vdsm_error else ok tt

-- response['status']['code']
unfoldable pub status_of : Json → Result Error (Unit {0})
status_of response = and_then (and_then (item response "status") (λ s. item s "code")) bad_status

-- A call that changes a guest or the host: the name of the method and its arguments.
pub record Change : Type 0 where
  pub method : String
  pub arguments : List Json

-- What the API answers.
pub record Api : Type 0 where
  pub get_all_vm_stats : Result Error Json
  pub get_all_policies : Result Error Json
  pub get_io_tune_policy : String → Result Error Json
  pub get_io_tune : String → Result Error Json
  pub change : Change → Result Error Json

-- the calls that were made to change something
abbrev pub T : Type 0 → Type 0
T A = Exec (List Change) Error A

unfoldable pub log_change : Change → T (Unit {0})
log_change c = modify (λ log. log ++ c ∷ [])
