-- ===== src/Hypervisor/Vdsm.antt =====
-- mom/HypervisorInterfaces/vdsmInterface.py: the API of VDSM, called in its own process. What the
-- calls of the API answer is a parameter: the record `Api`, whose answers are Python objects or
-- exceptions. The calls that change the host are written to a log.
pub mod Agreement
use mom.Prelude.{
  String, Bool, true, false, Option, none, some, List, [], ◌∷◌, ◌++◌, Result, ok, err, Exec, pure,
  raise, lift, gets, modify, proceed, ◌>>=◌, ◌>>◌, if◌then◌else◌,
}
use mom.Prelude.Dict.{Dict, keys}
use mom.Prelude.Int.{ℤ, pos, eqb_ℤ, ◌-ℤ◌}
use mom.Python.Value.{Error, hypervisor_error, vdsm_error, attribute_error}
use mom.Hypervisor.Json.{
  Json, null, num, txt, obj, dict_of, truthy, first, item, int_of, get, is_text, is_null, iterate,
}
use mom.Hypervisor.RpcBase.{running, trim, any_null, int_item, int_get}

pub data Change : Type 0 where
  set_balloon_target : String → ℤ → Change
  set_quota set_period : String → ℤ → Change
  ksm_tune : Dict ℤ → Change

-- API.Global() and API.VM(uuid)
pub record Api : Type 0 where
  -- getVMList(), getVMList(True, [uuid]) and getStats()
  pub vm_list : Result Error Json
  pub vm_list_of : String → Result Error Json
  pub vm_stats : String → Result Error Json
  -- what a call that changes something answers
  pub change : Change → Result Error Json

abbrev pub T : Type 0 → Type 0
T A = Exec (List Change) Error A

-- `_check_status`
unfoldable pub check_status : Json → T (Unit {0})
check_status response = do
  status ← lift (item response "status")
  code ← lift (item status "code")
  if truthy code then raise vdsm_error else pure tt

-- except vdsmException as e: e.handle_exception(); return None
abbrev pub handled :
    {A : Type 0} → Result Error (Option A) × List Change → Result Error (Option A) × List Change
handled (err vdsm_error, s) = (ok none, s)
handled (r, s) = (r, s)

-- except vdsmException as e: raise HypervisorInterfaceError(e.msg)
abbrev pub converted : {A : Type 0} → Result Error A × List Change → Result Error A × List Change
converted (err vdsm_error, s) = (err hypervisor_error, s)
converted (r, s) = (r, s)

module _ (api : Api) where
  -- response['vmList'][0][field], None after a bad status
  unfoldable pub get_vm_field : String → String → T (Option Json)
  unfolding check_status
  get_vm_field field uuid s = handled (
      (do
        response ← lift (api.vm_list_of uuid)
        check_status response
        vms ← lift (item response "vmList")
        vm ← lift (first vms)
        value ← lift (item vm field)
        pure (some value))
        s)

  unfoldable pub get_vm_name : String → T (Option Json)
  unfolding get_vm_field
  get_vm_name uuid = get_vm_field "vmName" uuid

  unfoldable pub get_vm_pid : String → T (Option Json)
  unfolding get_vm_field
  get_vm_pid uuid = get_vm_field "pid" uuid

  unfoldable pub get_vm_list : T (Option (List Json))
  unfolding check_status running
  get_vm_list s = handled (
      (do
        response ← lift api.vm_list
        check_status response
        vms ← lift (item response "vmList")
        each ← lift (iterate vms)
        ids ← lift (running each)
        pure (some ids))
        s)

  -- response['statsList'][0] of getStats()
  unfoldable pub stats_of : String → T Json
  unfolding check_status
  stats_of uuid = do
    response ← lift (api.vm_stats uuid)
    check_status response
    all ← lift (item response "statsList")
    lift (first all)

  unfoldable pub get_vm_memory_stats : String → T (Dict ℤ)
  unfolding stats_of int_item int_get
  get_vm_memory_stats uuid s = converted (
      (do
        vm ← stats_of uuid
        usage ← lift (int_item vm "memUsage")
        (if eqb_ℤ usage (pos 0) then raise hypervisor_error else pure tt)
        stats ← lift (item vm "memoryStats")
        (if truthy stats then pure tt else raise hypervisor_error)
        available ← lift (int_item stats "mem_total")
        unused ← lift (int_item stats "mem_unused")
        free ← lift (int_item stats "mem_free")
        major ← lift (int_item stats "majflt")
        all ← lift (int_item stats "pageflt")
        again ← lift (int_item stats "majflt")
        swap_in ← lift (int_item stats "swap_in")
        swap_out ← lift (int_item stats "swap_out")
        swap_total ← lift (int_get stats "swap_total" (num (pos 0)))
        swap_usage ← lift (int_get stats "swap_usage" (num (pos 0)))
        pure (
            ("mem_available", available)
            ∷ ("mem_unused", unused)
            ∷ ("mem_free", free)
            ∷ ("major_fault", major)
            ∷ ("minor_fault", all -ℤ again)
            ∷ ("swap_in", swap_in)
            ∷ ("swap_out", swap_out)
            ∷ ("swap_total", swap_total)
            ∷ ("swap_usage", swap_usage)
            ∷ []))
        s)

  -- a call that changes the host: vm.setBalloonTarget(target) and the like, with its status
  unfoldable pub changed : Change → T (Option (Unit {0}))
  unfolding check_status
  changed c s = handled (
      (do
        modify (λ log. log ++ c ∷ [])
        response ← lift (api.change c)
        check_status response
        pure (some tt))
        s)

  unfoldable pub set_vm_balloon_target : String → ℤ → T (Option (Unit {0}))
  unfolding changed
  set_vm_balloon_target uuid target = changed (set_balloon_target uuid target)

  unfoldable pub set_vm_cpu_tune : String → ℤ → ℤ → T (Option (Unit {0}))
  unfolding changed
  set_vm_cpu_tune uuid quota period = do
    changed (set_quota uuid quota)
    changed (set_period uuid period)

  -- superVdsm.ksmTune(tuningParams)
  unfoldable pub ksm_tune_all : Dict ℤ → T (Unit {0})
  ksm_tune_all parameters = modify (λ log. log ++ ksm_tune parameters ∷ [])

  abbrev or_null : Option Json → Json
  or_null none = null
  or_null (some j) = j

  -- `none` is None
  unfoldable pub get_vm_info : String → T (Option (Dict Json))
  unfolding get_vm_pid get_vm_name any_null
  get_vm_info uuid = do
    pid ← get_vm_pid uuid
    name ← get_vm_name uuid
    let found = ("uuid", txt uuid) ∷ ("pid", or_null pid) ∷ ("name", or_null name) ∷ []
    pure (if any_null found then none else some found)

  abbrev trimmed : Result Error (Unit {0}) × Dict Json → Result Error (Option (Dict Json))
  trimmed (ok _, info) = ok (some info)
  trimmed (err e, info) = err e

  abbrev balloon_of : Json → Result Error (Option (Dict Json))
  balloon_of (obj fs) = trimmed (trim (keys (dict_of fs)) (dict_of fs))
  balloon_of _ = err attribute_error

  unfoldable pub get_vm_balloon_info : String → T (Option (Dict Json))
  unfolding stats_of trim
  get_vm_balloon_info uuid s = handled (
      (do
        vm ← stats_of uuid
        info ← lift (item vm "balloonInfo")
        if truthy info then lift (balloon_of info) else pure none)
        s)

  unfoldable pub get_vm_cpu_tune_info : String → T (Option (Dict ℤ))
  unfolding stats_of
  get_vm_cpu_tune_info uuid s = handled (
      (do
        vm ← stats_of uuid
        user_limit ← lift (get vm "vcpuUserLimit" (num (pos 100)))
        quota ← lift (get vm "vcpuQuota" (num (pos 0)))
        period ← lift (get vm "vcpuPeriod" (num (pos 0)))
        count ← lift (get vm "vcpuCount" null)
        if is_null count then pure none else do
          user_limit' ← lift (int_of user_limit)
          quota' ← lift (int_of quota)
          period' ← lift (int_of period)
          count' ← lift (int_of count)
          pure (
              some (
                ("vcpu_user_limit", user_limit')
                ∷ ("vcpu_quota", quota')
                ∷ ("vcpu_period", period')
                ∷ ("vcpu_count", count')
                ∷ [])))
        s)
