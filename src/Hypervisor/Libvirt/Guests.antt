-- ===== src/Hypervisor/Libvirt/Guests.antt =====
-- The readings of a guest and its tuning in mom/HypervisorInterfaces/libvirtInterface.py.
use mom.Prelude.{
  ℕ, zero, suc, String, Bool, true, false, not, Option, none, some, List, [], ◌∷◌, Result, ok, err,
  pure, lift, ◌>>=◌, ◌>>◌, if◌then◌else◌,
}
use mom.Prelude.Dict.{Dict, lookup, insert, update}
use mom.Prelude.Int.{ℤ, pos, negsuc, eqb_ℤ}
use mom.Python.Value.{Error, hypervisor_error, index_error, key_error}
use mom.Hypervisor.Json.{Json, num, txt, is_null}
use mom.Hypervisor.Libvirt.{
  Lib, T, or_attribute_error, answer, log_change, mem_stats, connection, on_domain,
  get_domain_from_uuid, set_memory, set_scheduler_parameters, write,
}

abbrev pub set_if : String → Option ℤ → Dict ℤ → Dict ℤ
set_if key none ret = ret
set_if key (some n) ret = insert key n ret

-- the loop over the names that both dictionaries have; their order is not fixed by the program, and
-- it is that of the first here
unfoldable pub renamed : Dict String → Dict ℤ → Dict ℤ
renamed [] info = []
renamed ((key, field) ∷ fields) info = set_if field (lookup key info) (renamed fields info)

abbrev active : Option (Dict ℤ) → Result Error (Dict ℤ)
active none = err hypervisor_error
active (some []) = err hypervisor_error
active (some (entry ∷ info)) = ok (entry ∷ info)

abbrev at_index : ℕ → List ℤ → Result Error ℤ
at_index n [] = err index_error
at_index zero (x ∷ xs) = ok x
at_index (suc n) (x ∷ xs) = at_index n xs

abbrev or_key_error : Option Json → Result Error Json
or_key_error none = err key_error
or_key_error (some j) = ok j

-- elements[0].text, or 0
abbrev guaranteed : List String → Json
guaranteed [] = num (pos 0)
guaranteed (text ∷ texts) = txt text

-- ret['vcpu_user_limit']; only the error of the metadata is passed over
abbrev limit_of : Result ℕ (Option (Result Error String)) → Result Error Json
limit_of (err code) = ok (num (pos 100))
limit_of (ok none) = ok (num (pos 100))
limit_of (ok (some (ok text))) = ok (txt text)
limit_of (ok (some (err e))) = err e

-- if ret[key] is None: ret[key] = 0
abbrev or_zero : String → Dict Json → Result Error (Dict Json)
or_zero key ret = elim (lookup key ret) [
  | none ↦ err key_error
  | some j ↦ ok (if is_null j then insert key (num (pos 0)) ret else ret)
]

module _ {D : Type 0} (lib : Lib D) where
  unfoldable pub get_vm_memory_stats : String → T (Dict ℤ)
  unfolding get_domain_from_uuid on_domain renamed
  get_vm_memory_stats uuid = do
    domain ← get_domain_from_uuid lib uuid
    stats ← on_domain lib lib.memory_stats domain
    info ← lift (active stats)
    pure (renamed mem_stats info)

  -- `_getGuaranteedMemory`
  unfoldable pub get_guaranteed_memory : Option D → T Json
  unfolding connection
  get_guaranteed_memory domain = do
    d ← lift (or_attribute_error domain)
    n ← connection lib
    texts ← lift (answer (lib.min_guarantees n d))
    pure (guaranteed texts)

  unfoldable pub balloon_of : Option D → Option (List ℤ) → T (Option (Dict Json))
  unfolding get_guaranteed_memory
  balloon_of domain none = pure none
  balloon_of domain (some info) = do
    maximum ← lift (at_index 1 info)
    current ← lift (at_index 2 info)
    least ← get_guaranteed_memory domain
    pure (
        some (
          ("balloon_max", num maximum)
          ∷ ("balloon_cur", num current)
          ∷ ("balloon_min", least)
          ∷ []))

  unfoldable pub get_vm_balloon_info : String → T (Option (Dict Json))
  unfolding get_domain_from_uuid on_domain balloon_of
  get_vm_balloon_info uuid = do
    domain ← get_domain_from_uuid lib uuid
    info ← on_domain lib lib.info domain
    balloon_of domain info

  unfoldable pub get_vm_cpu_tune_info : String → T (Option (Dict Json))
  unfolding get_domain_from_uuid connection
  get_vm_cpu_tune_info uuid = do
    domain ← get_domain_from_uuid lib uuid
    d ← lift (or_attribute_error domain)
    n ← connection lib
    limit ← lift (limit_of (lib.vcpu_limit n d))
    parameters ← lift (answer (lib.scheduler_parameters n d))
    with_quota ← lift (or_zero "vcpu_quota" (update (("vcpu_user_limit", limit) ∷ []) parameters))
    ret ← lift (or_zero "vcpu_period" with_quota)
    count ← lift (answer (lib.vcpus_flags n d))
    pure (if eqb_ℤ count (negsuc 0) then none else some (insert "vcpu_count" (num count) ret))

  -- what `_domainSetBalloonTarget` returns, as a Boolean: 0 and False are not true
  abbrev failed : Option ℤ → Bool
  failed none = false
  failed (some n) = not (eqb_ℤ n (pos 0))

  unfoldable pub warned : Option D → Bool → T (Unit {0})
  unfolding on_domain
  warned domain true = do name ← on_domain lib lib.name domain; pure tt
  warned domain false = pure tt

  unfoldable pub set_vm_balloon_target : String → ℤ → T (Unit {0})
  unfolding get_domain_from_uuid on_domain log_change warned
  set_vm_balloon_target uuid target = do
    domain ← get_domain_from_uuid lib uuid
    elim domain [
      | none ↦ pure tt
      | some d ↦ do
        log_change (set_memory target)
        result ← on_domain lib (λ n d. lib.set_memory_of n d target) (some d)
        warned (some d) (failed result)
    ]

  unfoldable pub set_vm_cpu_tune : String → ℤ → ℤ → T (Unit {0})
  unfolding get_domain_from_uuid connection log_change
  set_vm_cpu_tune uuid quota period = do
    domain ← get_domain_from_uuid lib uuid
    d ← lift (or_attribute_error domain)
    log_change (set_scheduler_parameters (("vcpu_quota", quota) ∷ ("vcpu_period", period) ∷ []))

  -- a file that cannot be written is passed over
  unfoldable pub ksm_tune : Dict ℤ → T (Unit {0})
  unfolding log_change
  ksm_tune [] = pure tt
  ksm_tune ((key, value) ∷ parameters) = do
    (if lib.writable key then log_change (write key value) else pure tt)
    ksm_tune parameters

  -- `none` is None
  unfoldable pub qemu_agent_command : String → String → T (Option Json)
  unfolding get_domain_from_uuid connection
  qemu_agent_command uuid command = do
    domain ← get_domain_from_uuid lib uuid
    elim domain [
      | none ↦ pure none
      | some d ↦ do
        n ← connection lib
        reply ← lift (lib.agent_command n d command)
        pure (some reply)
    ]
