-- ===== src/Daemon/Loop.antt =====
-- MOM.run, MOM.shutdown and the checks of the threads of mom/__init__.py. What the other threads do
-- meanwhile is a parameter: for each round of the main loop, which threads are seen alive, and
-- whether shutdown was called. `running` is the flag of the section `__int__`, which is only ever
-- set to 0 and 1. The log and the sleep are left out.
pub mod Ending
use mom.Prelude.{
  ℕ, zero, suc, ◌+◌, String, Bool, true, false, not, Option, none, some, List, [], ◌∷◌, ◌++◌,
  if◌then◌else◌,
}
use mom.Python.Arith.{append_text}
use mom.Daemon.Config.{Config, option, validate_config}

-- what the main loop sees after its sleep
pub record Observed : Type 0 where
  pub host_monitor : Bool
  pub guest_manager : Bool
  pub policy_engine : Bool
  -- rpc_server.thread_ok()
  pub rpc_server : Bool
  pub shutdown_called : Bool

unfoldable pub threads_ok : List Bool → Bool
threads_ok [] = true
threads_ok (is_alive ∷ threads) = if not is_alive then false else threads_ok threads

-- config.set('__int__', 'running', '0') if the test holds
abbrev pub stop_if : Bool → Bool → Bool
stop_if test running = if test then false else running

unfoldable pub after_round : Observed → Bool → Bool
unfolding threads_ok
after_round o running = stop_if (not o.rpc_server) (
    stop_if (not (threads_ok (o.host_monitor ∷ o.guest_manager ∷ o.policy_engine ∷ [])))
      (stop_if o.shutdown_called running))

-- the number of rounds at the end of the loop; `none` if the fuel ran out
unfoldable pub main_loop : ℕ → (ℕ → Observed) → ℕ → Bool → Option ℕ
unfolding after_round
main_loop zero world i running = none
main_loop (suc fuel) world i running =
    let rest = main_loop fuel world (i + 1) (after_round (world i) running) in
    if running then rest else some i

pub data Event : Type 0 where
  server_shutdown : Event
  join : String → ℕ → Event

-- which threads are alive at the end, and whether the RPC server has been created
pub record Alive : Type 0 where
  pub host_monitor : Bool
  pub guest_manager : Bool
  pub policy_engine : Bool
  pub rpc_server : Bool
  pub has_server : Bool

unfoldable pub wait_for_thread : Bool → String → ℕ → List Event
wait_for_thread is_alive name timeout = if is_alive then join name timeout ∷ [] else []

unfoldable pub stop_all : Alive → List Event
unfolding wait_for_thread
stop_all a =
    (if a.has_server then server_shutdown ∷ [] else [])
    ++ (wait_for_thread a.rpc_server "RPCServer" 5
        ++ (wait_for_thread a.policy_engine "PolicyEngine" 10
            ++ (wait_for_thread a.guest_manager "GuestManager" 5
                ++ wait_for_thread a.host_monitor "HostMonitor" 5)))

-- What the constructors of the threads do: raise a ConnectionError, or another exception, or return,
-- with a hypervisor interface or without.
pub data Built : Type 0 where
  not_connected failed : Built
  threads : Bool → Built

pub data Outcome : Type 0 where
  -- the NoOptionError of the validation is not handled
  crashed invalid unconnected uninitialised : Outcome
  ended : ℕ → List Event → Outcome

abbrev pub ended_after : Alive → Option ℕ → Option Outcome
ended_after a none = none
ended_after a (some rounds) = some (ended rounds (stop_all a))

module _ (fuel : ℕ) (world : ℕ → Observed) (alive : Alive) where
  -- without a hypervisor interface shutdown is called, and the threads are built all the same
  abbrev pub started : Built → Option Outcome
  started not_connected = some unconnected
  started failed = some uninitialised
  started (threads has_interface) =
      ended_after alive (main_loop fuel world 0 (stop_if (not has_interface) true))

  abbrev pub validated : Built → Option Bool → Option Outcome
  validated built none = some crashed
  validated built (some false) = some invalid
  validated built (some true) = started built

  -- `none` if the fuel ran out
  unfoldable pub run : Built → Config → Option Outcome
  unfolding main_loop stop_all validate_config
  run built c = validated built (validate_config c)

module _ {I : Type 0} (lower : String → String) (import : String → Option I) where
  abbrev pub interface_of : Option String → Option I
  interface_of none = none
  interface_of (some name) =
      import (append_text "mom.HypervisorInterfaces." (append_text (lower name) "Interface"))

  -- `import` gives the instance of a module, or `none` for an ImportError
  unfoldable pub get_hypervisor_interface : Config → Option I
  unfolding option
  get_hypervisor_interface c = interface_of (option "main" "hypervisor-interface" c)
