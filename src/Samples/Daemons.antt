-- ===== src/Samples/Daemons.antt =====
-- The theorems on the daemon at a concrete configuration and concrete rounds.
use mom.Prelude.{
  ℕ, ◌<◌, String, Bool, true, false, not, ◌≡◌, refl, Option, none, some, List, [], ◌∷◌, arith, ok,
  eqb, ◌==◌, if◌then◌else◌,
}
use mom.Daemon.Config.{Config, option, load_config, validate_config}
use mom.Daemon.Config.Precedence.{Loads, expected, built_in, plot_basedir, load_config-Loads}
use mom.Daemon.PlotDir.{plot_subdir, next_number, padded, number_of}
use mom.Daemon.PlotDir.Fresh.{Outcome, plot_subdir-Outcome}
use mom.Daemon.Loop.{Observed, Alive, threads, ended, run, stop_all, server_shutdown, join}
use mom.Daemon.Loop.Ending.{is_quiet, run-ends}
use mom.Prelude.Int
use mom.Python.Print.{print_int}
use mom.Python.Text.{parse_int}
use mom.Daemon.Server.{big_int_marshaller, log_set_verbosity, warn, address_of, unix}

abbrev listed : String → Option (List String)
listed basedir =
    if basedir == "/plots" then some ("momplot-003" ∷ "momplot-12" ∷ "momplot-007" ∷ []) else none

abbrev always : String → Bool
always path = true

plot_subdir_test : plot_subdir listed always true "/plots" ≡ ok "/plots/momplot-008"
unfolding plot_subdir next_number number_of padded
plot_subdir_test = refl

plot_subdir-Outcome_example :
    Outcome listed always true "/plots" (plot_subdir listed always true "/plots")
plot_subdir-Outcome_example = plot_subdir-Outcome listed always true "/plots"

abbrev file : Config
file = record {
  defaults = ("note", "all") ∷ [];
  sections =
      ("main", ("plot-dir", "/plots") ∷ ("rpc-port", "8080") ∷ [])
      ∷ ("__int__", ("running", "1") ∷ [])
      ∷ [];
}

abbrev overrides : Config
overrides = record {
  defaults = [];
  sections = ("main", ("rpc-port", "9090") ∷ []) ∷ ("unknown", ("a", "b") ∷ []) ∷ [];
}

abbrev blank : Config
blank = record { defaults = []; sections = [] }

overridden : expected file (some overrides) "main" "rpc-port" ≡ some "9090"
unfolding expected built_in
overridden = refl

configured : expected file (some overrides) "main" "plot-dir" ≡ some "/plots"
unfolding expected built_in
configured = refl

unknown_section : expected file (some overrides) "unknown" "a" ≡ none
unfolding expected built_in
unknown_section = refl

load_config-Loads_example :
    Loads file
      (some overrides)
      (plot_subdir listed always false (plot_basedir file (some overrides)))
      (load_config listed always file (some overrides) blank)
load_config-Loads_example = load_config-Loads listed always file (some overrides) blank

-- the policy engine is found dead in the round with number 2
abbrev world : ℕ → Observed
world i = record {
  host_monitor = true;
  guest_manager = true;
  policy_engine = not (eqb i 2);
  rpc_server = true;
  shutdown_called = false;
}

abbrev alive : Alive
alive = record {
  host_monitor = true;
  guest_manager = true;
  policy_engine = false;
  rpc_server = true;
  has_server = true;
}

abbrev valid : Config
valid = record {
  defaults = [];
  sections = ("main", ("policy", "") ∷ ("policy-dir", "/etc/mom.d") ∷ []) ∷ [];
}

stopped :
    stop_all alive
    ≡ server_shutdown ∷ join "RPCServer" 5 ∷ join "GuestManager" 5 ∷ join "HostMonitor" 5 ∷ []
unfolding stop_all
stopped = refl

valid_test : validate_config valid ≡ some true
unfolding validate_config option
valid_test = refl

quiet_before : (k : ℕ) → k < 2 → is_quiet (world k) ≡ true
quiet_before k h = ground (arith, h)

run-ends_example : run 9 world alive (threads true) valid ≡ some (ended 3 (stop_all alive))
run-ends_example = run-ends 9 world alive valid 2 valid_test (omega arith) quiet_before refl

marshalled : big_int_marshaller (Int.pos 2147483648) ≡ "<value><i8>2147483648</i8></value>"
unfolding big_int_marshaller print_int
marshalled = refl

verbosity : log_set_verbosity "warn" ≡ warn
unfolding log_set_verbosity
verbosity = refl

socket_path : address_of (some "/run/mom.sock") ≡ ok (some (unix "/run/mom.sock"))
unfolding address_of parse_int
socket_path = refl
