-- ===== src/Monitor/Threads.antt =====
-- mom/HostMonitor.py and mom/GuestMonitor.py: the constructors of the monitors and the loop of a
-- monitor's thread. For each round the flag `running` and what the collectors do are a parameter. The
-- interval is slept and not modelled further.
pub mod Bounded
use mom.Prelude.{
  ℕ, zero, suc, ◌+◌, String, Bool, true, false, Option, none, some, List, [], ◌∷◌, Result, ok, err,
  if◌then◌else◌,
}
use mom.Prelude.Dict.{Dict, lookup, insert}
use mom.Prelude.Int.{ℤ}
use mom.Python.Value.{Error, key_error, value_error, Value, int, str}
use mom.Python.Text.{parse_int}
use mom.Collectors.Selection
use mom.Monitor.{Collector, Monitor, create, collect, should_run}
use mom.Daemon.Config.{Config, option}

-- config.getint
abbrev pub get_int : Option String → Result Error ℤ
get_int none = err key_error
get_int (some text) = elim (parse_int text) [ none ↦ err value_error | some n ↦ ok n ]

abbrev pub or_key_error : Option String → Result Error String
or_key_error none = err key_error
or_key_error (some text) = ok text

-- `none` for a section that is not there
abbrev pub section_of : Config → String → Option (Dict String)
section_of c name = lookup name c.sections

-- A monitor that was made: its collectors, or None, and whether its thread was started.
pub record Made (R : Type 0) (C : Type 0) : Type 0 where
  pub monitor : Monitor R
  pub interval : ℤ
  pub collectors : Option (List C)
  pub started : Bool

module _ {R C : Type 0} (load : String → Option (Dict String) → Result Error (Option C)) where
  abbrev host_of : ℤ → Result Error (Option (List C)) → Result Error (Made R C)
  host_of interval (err e) = err e
  host_of interval (ok collectors) = ok (record {
    monitor = create (insert "interval" (int interval) []);
    interval = interval;
    collectors = collectors;
    started = elim collectors [ none ↦ false | some cs ↦ true ];
  })

  abbrev pub host_with : Config → Result Error ℤ → Result Error String → Result Error (Made R C)
  host_with c (err e) names = err e
  host_with c (ok interval) (err e) = err e
  host_with c (ok interval) (ok names) =
      host_of interval (Selection.get_collectors (section_of c) load names none)

  -- HostMonitor(config): without its collectors the thread is not started
  unfoldable pub host_monitor : Config → Result Error (Made R C)
  unfolding option
  host_monitor c =
      host_with c (get_int (option "main" "host-monitor-interval" c))
        (or_key_error (option "host" "collectors" c))

  abbrev guest_of : ℤ → Dict (Value R) → Result Error (Option (List C)) → Result Error (Made R C)
  guest_of interval info (err e) = err e
  guest_of interval info (ok collectors) = ok (record {
    monitor = create info;
    interval = interval;
    collectors = collectors;
    started = false;
  })

  abbrev pub guest_with :
      Config
      → Dict (Value R)
      → Result Error ℤ
      → Option (Value R)
      → Result Error String
      → Result Error (Made R C)
  guest_with c info (err e) name names = err e
  guest_with c info (ok interval) none names = err key_error
  guest_with c info (ok interval) (some name) (err e) = err e
  guest_with c info (ok interval) (some name) (ok names) =
      guest_of interval info (Selection.get_collectors (section_of c) load names none)

  -- GuestMonitor(config, info, hypervisor_iface), whose thread is another object; the interface among
  -- the properties is left out
  unfoldable pub guest_monitor : Config → Dict (Value R) → Result Error (Made R C)
  unfolding option
  guest_monitor c info =
      guest_with c info (get_int (option "main" "guest-monitor-interval" c)) (lookup "name" info)
        (or_key_error (option "guest" "collectors" c))

-- What a round of the loop finds.
pub record Round (R : Type 0) : Type 0 where
  pub running : Bool
  pub collectors : List (Collector R)

module _ {R : Type 0} where
  -- getGuestName
  unfoldable pub get_guest_name : Monitor R → Option (Value R)
  get_guest_name m = lookup "name" m.properties

  -- HostMonitor.run and GuestMonitorThread.run, from the round `i`; `none` if the fuel ran out
  unfoldable pub run : ℕ → ℕ → (ℕ → Round R) → ℕ → Monitor R → Option (Monitor R)
  unfolding should_run collect
  run zero limit world i m = none
  run (suc fuel) limit world i m =
      let rest = run fuel limit world (i + 1) (collect limit (world i).collectors m).1 in
      if should_run (world i).running m then rest else some m
