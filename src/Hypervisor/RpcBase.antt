-- ===== src/Hypervisor/RpcBase.antt =====
-- mom/HypervisorInterfaces/vdsmRpcBase.py: a guest's statistics from the table of all guests. The
-- state is the table that `getAllVmStats` returns while its cache holds, which the methods share.
pub mod Balloon
pub mod Again
use mom.Prelude.{
  String, Bool, true, false, not, Option, none, some, List, [], ◌∷◌, ◌++◌, Result, ok, err, Exec,
  pure, raise, lift, gets, proceed, ◌>>=◌, ◌>>◌, contains, if◌then◌else◌,
}
use mom.Prelude.Dict.{Dict, lookup, insert, erase, has, keys, values}
use mom.Prelude.Int.{ℤ, pos, eqb_ℤ, ◌-ℤ◌}
use mom.Python.Value.{Error, hypervisor_error, type_error, attribute_error}
use mom.Hypervisor.Json.{
  Json, null, num, txt, obj, dict_of, of_dict, truthy, int_of, item, get, is_text, is_null,
}

abbrev pub Table : Type 0
Table = Dict Json

abbrev pub T : Type 0 → Type 0
T A = Exec Table Error A

-- the loop of `getVmList`
unfoldable pub running : List Json → Result Error (List Json)
running [] = ok []
running (vm ∷ vms) = elim (item vm "status") [
  | ok status ↦
      if is_text "Up" status
      then elim (item vm "vmId") [
        | ok id ↦ elim (running vms) [ ok ids ↦ ok (id ∷ ids) | err e ↦ err e ]
        | err e ↦ err e
      ]
      else running vms
  | err e ↦ err e
]

unfoldable pub get_vm_list : T (List Json)
unfolding running
get_vm_list = do table ← gets (λ s. s); lift (running (values table))

abbrev or_missing_vm : Option Json → Result Error Json
or_missing_vm none = err hypervisor_error
or_missing_vm (some vm) = ok vm

-- `_getVmStats`
unfoldable pub get_vm_stats : String → T Json
get_vm_stats uuid = do table ← gets (λ s. s); lift (or_missing_vm (lookup uuid table))

-- int(x[key])
unfoldable pub int_item : Json → String → Result Error ℤ
int_item x key = elim (item x key) [ ok j ↦ int_of j | err e ↦ err e ]

-- int(x.get(key, default))
unfoldable pub int_get : Json → String → Json → Result Error ℤ
int_get x key default = elim (get x key default) [ ok j ↦ int_of j | err e ↦ err e ]

unfoldable pub get_vm_memory_stats : String → T (Dict ℤ)
unfolding get_vm_stats int_item int_get
get_vm_memory_stats uuid = do
  vm ← get_vm_stats uuid
  usage ← lift (int_item vm "memUsage")
  (if eqb_ℤ usage (pos 0) then raise hypervisor_error else pure tt)
  stats ← lift (item vm "memoryStats")
  (if truthy stats then pure tt else raise hypervisor_error)
  available ← lift (int_item stats "mem_total")
  unused ← lift (int_item stats "mem_unused")
  free ← lift (int_item stats "mem_free")
  major ← lift (int_item stats "majflt")
  all ← lift (int_item stats "pageflt")
  again ← lift (int_item stats "majflt")
  swap_in ← lift (int_item stats "swap_in")
  swap_out ← lift (int_item stats "swap_out")
  swap_total ← lift (int_get stats "swap_total" (num (pos 0)))
  swap_usage ← lift (int_get stats "swap_usage" (num (pos 0)))
  pure (
      ("mem_available", available)
      ∷ ("mem_unused", unused)
      ∷ ("mem_free", free)
      ∷ ("major_fault", major)
      ∷ ("minor_fault", all -ℤ again)
      ∷ ("swap_in", swap_in)
      ∷ ("swap_out", swap_out)
      ∷ ("swap_total", swap_total)
      ∷ ("swap_usage", swap_usage)
      ∷ [])

-- None in data.values()
unfoldable pub any_null : Dict Json → Bool
any_null [] = false
any_null ((k, j) ∷ found) = let rest = any_null found in if is_null j then true else rest

abbrev or_absent : Dict Json → Option Json → Dict Json
or_absent rest none = rest
or_absent rest (some pid) = ("pid", pid) ∷ rest

-- data['pid'] if there is one; the entries of the table are dictionaries
abbrev pub with_pid : Json → Dict Json → Result Error (Dict Json)
with_pid (obj fs) rest = ok (or_absent rest (lookup "pid" (dict_of fs)))
with_pid _ rest = err type_error

-- `none` is None
unfoldable pub get_vm_info : String → T (Option (Dict Json))
unfolding get_vm_stats any_null
get_vm_info uuid = do
  vm ← get_vm_stats uuid
  pid ← lift (with_pid vm [])
  name ← lift (item vm "vmName")
  let found = ("uuid", txt uuid) ∷ (pid ++ ("name", name) ∷ [])
  pure (if any_null found then none else some found)

abbrev pub balloon_keys : List String
balloon_keys = "balloon_max" ∷ "balloon_min" ∷ "balloon_cur" ∷ []

abbrev pub converted : String → Result Error ℤ → Exec (Dict Json) Error (Unit {0})
converted key (ok n) d = (ok tt, insert key (num n) d)
converted key (err e) d = (err e, d)

abbrev pub or_null : Option Json → Json
or_null none = null
or_null (some j) = j

-- the loop of `getVmBalloonInfo`: it changes the dictionary that the table holds
unfoldable pub trim : List String → Exec (Dict Json) Error (Unit {0})
trim [] d = (ok tt, d)
trim (key ∷ keys) d =
    let kept = converted key (int_of (or_null (lookup key d))) d in
    let after = proceed kept.0 (λ _. trim keys) kept.1 in
    let dropped = trim keys (erase key d) in if contains key balloon_keys then after else dropped

-- the table with the changed dictionary
abbrev pub store_info : String → Json → Dict Json → Table → Table
store_info uuid vm info table =
    insert uuid (obj (of_dict (insert "balloonInfo" (obj (of_dict info)) (fields_of vm)))) table
  where
    fields_of : Json → Dict Json
    fields_of (obj fs) = dict_of fs
    fields_of _ = []

abbrev pub trimmed : String → Json → Result Error (Unit {0}) × Dict Json → T (Option (Dict Json))
trimmed uuid vm (ok _, info) table = (ok (some info), store_info uuid vm info table)
trimmed uuid vm (err e, info) table = (err e, store_info uuid vm info table)

abbrev pub balloon_of : String → Json → Json → T (Option (Dict Json))
balloon_of uuid vm (obj fs) table = trimmed uuid vm (trim (keys (dict_of fs)) (dict_of fs)) table
balloon_of uuid vm _ table = (err attribute_error, table)

unfoldable pub get_vm_balloon_info : String → T (Option (Dict Json))
unfolding get_vm_stats trim
get_vm_balloon_info uuid = do
  vm ← get_vm_stats uuid
  info ← lift (get vm "balloonInfo" (obj (of_dict [])))
  if truthy info then balloon_of uuid vm info else pure none

unfoldable pub get_vm_cpu_tune_info : String → T (Option (Dict ℤ))
unfolding get_vm_stats
get_vm_cpu_tune_info uuid = do
  vm ← get_vm_stats uuid
  user_limit ← lift (get vm "vcpuUserLimit" (num (pos 100)))
  quota ← lift (get vm "vcpuQuota" (num (pos 0)))
  period ← lift (get vm "vcpuPeriod" (num (pos 0)))
  count ← lift (get vm "vcpuCount" null)
  if is_null count then pure none else do
    user_limit' ← lift (int_of user_limit)
    quota' ← lift (int_of quota)
    period' ← lift (int_of period)
    count' ← lift (int_of count)
    pure (
        some (
          ("vcpu_user_limit", user_limit')
          ∷ ("vcpu_quota", quota')
          ∷ ("vcpu_period", period')
          ∷ ("vcpu_count", count')
          ∷ []))
