-- ===== src/Hypervisor/Rpc/Failures.antt =====
-- The tables of guests that the remote APIs of VDSM give, and what follows when the API fails.
use mom.Prelude.{
  ◌≡◌, refl, ◌⊎◌, inl, inr, String, Bool, Option, none, some, List, [], ◌∷◌, Result, ok, err, ◌>>=◌,
  arith,
}
use mom.Prelude.Dict.{Dict, lookup}
use mom.Python.Value.{Value, Error, key_error, vdsm_error, connection_error}
use mom.Hypervisor.Json.{Json, Jsons, txt, arr, item}
use mom.Hypervisor.Optional.{get_item, iterate_optional}
use mom.Hypervisor.RpcBase.{Table, get_vm_list, running}
use mom.Hypervisor.Rpc.{Api, and_then, collect, status_of}
use mom.Hypervisor.Rpc.JsonRpc as JsonRpc
use mom.Hypervisor.Rpc.XmlRpc as XmlRpc
use mom.GuestManager.{Guest, follow}
use mom.GuestManager.Tracking.{Distinct, lookup-follow}

abbrev with_text : Json → List String → List String
with_text (txt s) rest = s ∷ rest
with_text j rest = rest

-- The ids of a list of guests.
abbrev pub texts : List Json → List String
texts [] = []
texts (j ∷ js) = with_text j (texts js)

-- The table that the JSON-RPC and the XML-RPC interface give.
abbrev pub Gives : Api → Table → Type 0
Gives api table =
    (JsonRpc.get_all_vm_stats api ≡ ok table) × (XmlRpc.get_all_vm_stats api ≡ ok table)

-- The call has failed: no connection, or an answer with a bad status.
abbrev pub Failed : Result Error Json → Type 0
Failed answer =
    (answer ≡ err connection_error)
    ⊎ ((response : Json) × (answer ≡ ok response) × (status_of response ≡ err vdsm_error))

-- An answer of each kind of status.
json_good :
    (answer : Result Error Json) (j : Json)
    → answer ≡ ok j
    → status_of j ≡ ok tt
    → JsonRpc.checked_call answer ≡ ok (some j)
unfolding JsonRpc.checked_call JsonRpc.check_status
json_good answer j h s = ground (arith, h, s)

json_bad :
    (answer : Result Error Json) (j : Json)
    → answer ≡ ok j
    → status_of j ≡ err vdsm_error
    → JsonRpc.checked_call answer ≡ ok none
unfolding JsonRpc.checked_call JsonRpc.check_status
json_bad answer j h s = ground (arith, h, s)

xml_checked :
    (answer : Result Error Json) (j : Json) (r : Result Error (Unit {0}))
    → answer ≡ ok j
    → status_of j ≡ r
    → XmlRpc.checked answer ≡ and_then r (λ u. ok j)
unfolding XmlRpc.checked
xml_checked answer j r h s = rw (h, s)

Failed-Gives : (api : Api) → Failed api.get_all_vm_stats → Gives api []
unfolding JsonRpc.get_all_vm_stats JsonRpc.checked_call XmlRpc.checked XmlRpc.get_all_vm_stats
    get_item iterate_optional collect
Failed-Gives api (inl broken) = (rw broken, rw broken)
Failed-Gives api (inr (response, answered, bad)) = (
  rw (json_bad api.get_all_vm_stats response answered bad),
  rw (xml_checked api.get_all_vm_stats response (err vdsm_error) answered bad),
)

module _ {R : Type 0} (threaded : Bool) (get_vm_info : String → Option (Dict (Value R)))
    (lives : String → Bool) where
  -- If the call getAllVmStats fails, both interfaces give the empty table and no exception, getVmList
  -- gives an empty list and not None, and after the guest manager's round no guest is tracked,
  -- whatever was tracked before.
  pub failure_untracks :
      (api : Api) (guests : Dict (Guest R)) (id : String)
      → Failed api.get_all_vm_stats
      → Distinct guests
      → (table : Table) × (ids : List Json) × Gives api table
        × (get_vm_list table ≡ (ok ids, table))
        × (lookup id (follow threaded get_vm_info lives (some (texts ids)) guests).1 ≡ none)
  unfolding get_vm_list running ◌>>=◌
  failure_untracks api guests id failed d = (
    [],
    [],
    Failed-Gives api failed,
    refl,
    (lookup-follow threaded get_vm_info lives [] id guests d).0,
  )

-- If an answer of the XML-RPC API with a good status has a list of guests as statsList, and the answer
-- of the JSON-RPC API with a good status has the same list as items and no result, then both interfaces
-- give the same table, or raise the same exception for the same guest.
pub tables_agree :
    (json xml : Api) (j x : Json) (vms : Jsons)
    → json.get_all_vm_stats ≡ ok j
    → xml.get_all_vm_stats ≡ ok x
    → status_of j ≡ ok tt
    → status_of x ≡ ok tt
    → item j "result" ≡ err key_error
    → item j "items" ≡ ok (arr vms)
    → item x "statsList" ≡ ok (arr vms)
    → JsonRpc.get_all_vm_stats json ≡ XmlRpc.get_all_vm_stats xml
unfolding JsonRpc.get_all_vm_stats XmlRpc.get_all_vm_stats get_item iterate_optional collect
tables_agree json xml j x vms hj hx sj sx no_result items stats = rw (
  json_good json.get_all_vm_stats j hj sj,
  xml_checked xml.get_all_vm_stats x (ok tt) hx sx,
  no_result,
  items,
  stats,
)
