-- ===== src/GuestManager.antt =====
-- mom/GuestManager.py: the guests that are tracked, each with its monitor and, in the threaded mode,
-- the thread that drives it. What the hypervisor interface answers is a parameter; `guests_lock`
-- makes each method one step.
pub mod Tracking
pub mod Running
use mom.Prelude.{
  ℕ, String, Bool, true, false, not, ◌&&◌, Option, none, some, List, [], ◌∷◌, ◌++◌, contains,
  if◌then◌else◌,
}
use mom.Prelude.Dict.{Dict, lookup, insert, erase, has, keys}
use mom.Python.Value.{Value, nothing, is_none}
use mom.Entity.{Entity}
use mom.Monitor
use mom.Monitor.{Monitor, Collector, is_ready}
use mom.Monitor.Sets.{union, difference}

-- GuestData: the thread is None, or it is alive or not.
pub record Guest (R : Type 0) : Type 0 where
  pub monitor : Monitor R
  pub thread : Option Bool

-- a guest without a thread counts as running
abbrev pub alive : Option Bool → Bool
alive none = true
alive (some b) = b

module _ {R : Type 0} where
  unfoldable pub is_running : Guest R → Bool
  is_running guest = alive guest.thread

  -- GuestMonitor(info), with a thread in the threaded mode; `lives` says whether the thread still
  -- runs when it is looked at
  unfoldable pub create_monitor : Bool → Bool → Dict (Value R) → Guest R
  create_monitor threaded lives info = record {
    monitor = Monitor.create info;
    thread = if threaded then some lives else none;
  }

  abbrev kept_entity : String → Option (Entity R) → Dict (Entity R) → Dict (Entity R)
  kept_entity id none rest = rest
  kept_entity id (some e) rest = (id, e) ∷ rest

  unfoldable pub interrogate : Dict (Guest R) → Dict (Entity R)
  interrogate [] = []
  interrogate ((id, guest) ∷ guests) =
      kept_entity id (Monitor.interrogate guest.monitor) (interrogate guests)

  abbrev active_name : Bool → Option (Value R) → List (Value R) → List (Value R)
  active_name true (some name) rest = if is_none name then rest else name ∷ rest
  active_name _ _ rest = rest

  unfoldable pub rpc_get_active_guests : Dict (Guest R) → List (Value R)
  rpc_get_active_guests [] = []
  rpc_get_active_guests ((id, guest) ∷ guests) =
      active_name (is_ready guest.monitor) (lookup "name" guest.monitor.properties)
        (rpc_get_active_guests guests)

  unfoldable pub register_guest : String → Guest R → Dict (Guest R) → Dict (Guest R)
  register_guest id guest guests = if has id guests then guests else insert id guest guests

  -- the loop that registers the new guests that still run
  unfoldable pub register_all : Dict (Guest R) → Dict (Guest R) → Dict (Guest R)
  unfolding register_guest
  register_all [] guests = guests
  register_all ((id, guest) ∷ new_guests) guests =
      register_all new_guests (if is_running guest then register_guest id guest guests else guests)

  module _ (threaded : Bool) (get_vm_info : String → Option (Dict (Value R)))
      (lives : String → Bool) where
    abbrev pub created : String → Option (Dict (Value R)) → Dict (Guest R) → Dict (Guest R)
    created id none rest = rest
    created id (some info) rest = insert id (create_monitor threaded (lives id) info) rest

    -- the loop over the spawn list; without its information no monitor is started
    unfoldable pub create_all : List String → Dict (Guest R)
    create_all [] = []
    create_all (id ∷ ids) = created id (get_vm_info id) (create_all ids)

    unfoldable pub spawn_guest_monitors : List String → Dict (Guest R) → Dict (Guest R)
    unfolding create_all register_all
    spawn_guest_monitors domain_list guests =
        register_all (create_all (difference (union domain_list []) (keys guests))) guests

  -- pop, and tell the monitor to end: the monitors that were told, and the guests that are left
  unfoldable pub unregister_guest : String → Dict (Guest R) → Dict (Monitor R) × Dict (Guest R)
  unregister_guest id guests = elim (lookup id guests) [
    | none ↦ ([], guests)
    | some guest ↦ ((id, Monitor.terminate guest.monitor) ∷ [], erase id guests)
  ]

  abbrev pub check_one :
      List String → String → Option Bool → Dict (Guest R) → Dict (Monitor R) × Dict (Guest R)
  check_one domain_list id none guests =
      if contains id domain_list then ([], guests) else unregister_guest id guests
  check_one domain_list id (some false) guests = ([], erase id guests)
  check_one domain_list id (some true) guests =
      if contains id domain_list then ([], guests) else unregister_guest id guests

  -- the loop over a copy of the dictionary
  unfoldable pub check_all :
      List String → Dict (Guest R) → Dict (Guest R) → Dict (Monitor R) × Dict (Guest R)
  unfolding unregister_guest
  check_all domain_list [] guests = ([], guests)
  check_all domain_list ((id, guest) ∷ copy) guests =
      let (told, guests₁) = check_one domain_list id guest.thread guests in
      let (more, guests₂) = check_all domain_list copy guests₁ in (told ++ more, guests₂)

  unfoldable pub check_guest_monitors :
      List String → Dict (Guest R) → Dict (Monitor R) × Dict (Guest R)
  unfolding check_all
  check_guest_monitors domain_list guests = check_all domain_list guests guests

  -- a round of collection in the single-threaded mode; `collectors id` is what the collectors of
  -- the guest do in this round
  unfoldable pub collect_from_guest_monitors :
      Bool → ℕ → (String → List (Collector R)) → Dict (Guest R) → Dict (Guest R)
  collect_from_guest_monitors running limit collectors [] = []
  collect_from_guest_monitors running limit collectors ((id, guest) ∷ guests) =
      let collected = record guest {
        monitor = (Monitor.collect limit (collectors id) guest.monitor).1;
      } in
      (id, (if Monitor.should_run running guest.monitor then collected else guest))
      ∷ collect_from_guest_monitors running limit collectors guests

  -- the part of a round of `run` that follows the list of running domains
  unfoldable pub follow :
      Bool
      → (String → Option (Dict (Value R)))
      → (String → Bool)
      → Option (List String)
      → Dict (Guest R)
      → Dict (Monitor R) × Dict (Guest R)
  unfolding spawn_guest_monitors check_guest_monitors
  follow threaded get_vm_info lives none guests = ([], guests)
  follow threaded get_vm_info lives (some domain_list) guests =
      check_guest_monitors domain_list
        (spawn_guest_monitors threaded get_vm_info lives domain_list guests)
