-- ===== src/Collectors/HostKsm/Start.antt =====
-- The constructor of HostKSM (mom/Collectors/HostKSM.py). Which files can be opened, and what pidof and
-- /proc/<pid>/stat print, are a parameter.
use mom.Prelude.{String, Bool, Option, none, some, List, [], ◌∷◌, Result, ok, err, if◌then◌else◌}
use mom.Prelude.Int.{ℤ}
use mom.Python.Value.{Error, key_error, value_error}
use mom.Python.Text.{parse_int}
use mom.Python.Arith.{append_text}
use mom.Collectors.HostKsm.{HostKsm, get_ksmd_jiffies}

-- A FatalError names the file that cannot be opened.
pub data Start : Type 0 where
  started : HostKsm → Start
  fatal : String → Start
  raised : Error → Start

-- open_files: the first file that cannot be opened
unfoldable pub open_files : (String → Bool) → List String → Option String
open_files opens [] = none
open_files opens (datum ∷ data_names) =
    let name = append_text "/sys/kernel/mm/ksm/" datum in
    let rest = open_files opens data_names in if opens name then rest else some name

-- _get_ksmd_pid: what pidof prints, or `none` for a return code that is not 0
unfoldable pub get_ksmd_pid : Option String → Result Error (Option ℤ)
get_ksmd_pid none = ok none
get_ksmd_pid (some out) = elim (parse_int out) [ none ↦ err value_error | some pid ↦ ok (some pid) ]

module _ (stat : Option ℤ → List String) where
  abbrev pub with_jiffies : ℤ → Option ℤ → Result Error ℤ → Start
  with_jiffies interval pid (err e) = raised e
  with_jiffies interval pid (ok jiffies) =
      started (record { interval = interval; pid = pid; last_jiff = jiffies })

  abbrev pub with_pid : ℤ → Result Error (Option ℤ) → Start
  with_pid interval (err e) = raised e
  with_pid interval (ok pid) = with_jiffies interval pid (get_ksmd_jiffies pid (stat pid))

  abbrev pub with_interval : Option ℤ → Option String → Start
  with_interval none pidof = raised key_error
  with_interval (some interval) pidof = with_pid interval (get_ksmd_pid pidof)

  abbrev pub opened : Option String → Option ℤ → Option String → Start
  opened (some name) interval pidof = fatal name
  opened none interval pidof = with_interval interval pidof

  -- HostKSM(properties): `interval` is properties['interval']
  unfoldable pub start : (String → Bool) → List String → Option ℤ → Option String → Start
  unfolding open_files get_ksmd_pid
  start opens sysfs_keys interval pidof = opened (open_files opens sysfs_keys) interval pidof
