-- ===== src/Hypervisor/Libvirt/Connection.antt =====
-- The connection of mom/HypervisorInterfaces/libvirtInterface.py, through failures and reconnections.
use mom.Prelude.{String, none, List, [], ◌∷◌}
use mom.Prelude.Dict.{Dict}
use mom.Prelude.Int.{ℤ}
use mom.Hypervisor.Libvirt.{Lib, Iface, connect, get_vm_list, get_vm_info, start_vm_memory_stats}
use mom.Hypervisor.Libvirt.Guests.{
  get_vm_memory_stats, get_vm_balloon_info, get_vm_cpu_tune_info, set_vm_balloon_target,
  set_vm_cpu_tune, ksm_tune, qemu_agent_command,
}
use mom.Hypervisor.Libvirt.Keeps.{Keeps}

-- What the policy and the guest manager ask of the interface.
pub data Operation : Type 0 where
  list_vms : Operation
  vm_info : ℤ → Operation
  start_stats : ℤ → String → Operation
  memory_stats balloon_info cpu_tune_info : String → Operation
  balloon_target : String → ℤ → Operation
  cpu_tune : String → ℤ → ℤ → Operation
  ksm : Dict ℤ → Operation
  agent : String → String → Operation

module _ {D : Type 0} (lib : Lib D) where
  -- the interface after an operation, which may have raised
  unfoldable pub after : Operation → Iface → Iface
  unfolding get_vm_list get_vm_info start_vm_memory_stats get_vm_memory_stats get_vm_balloon_info
      get_vm_cpu_tune_info set_vm_balloon_target set_vm_cpu_tune ksm_tune qemu_agent_command
  after list_vms s = (get_vm_list lib s).1
  after (vm_info id) s = (get_vm_info lib id s).1
  after (start_stats interval uuid) s = (start_vm_memory_stats lib interval uuid s).1
  after (memory_stats uuid) s = (get_vm_memory_stats lib uuid s).1
  after (balloon_info uuid) s = (get_vm_balloon_info lib uuid s).1
  after (cpu_tune_info uuid) s = (get_vm_cpu_tune_info lib uuid s).1
  after (balloon_target uuid target) s = (set_vm_balloon_target lib uuid target s).1
  after (cpu_tune uuid quota period) s = (set_vm_cpu_tune lib uuid quota period s).1
  after (ksm parameters) s = (ksm_tune lib parameters s).1
  after (agent uuid command) s = (qemu_agent_command lib uuid command s).1

  unfoldable pub after_all : List Operation → Iface → Iface
  unfolding after
  after_all [] s = s
  after_all (op ∷ ops) s = after_all ops (after op s)

  -- the constructor: no connection, and one try
  unfoldable pub start : Iface
  unfolding connect
  start = (connect lib (record { conn = none; tries = 0; changes = [] })).1
