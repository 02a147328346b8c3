-- ===== src/Collectors/Declared.antt =====
-- The fields that the collectors of mom/Collectors declare, the collectors that declare them as
-- optional, HostCpu.py and HostTime.py, and the regular expressions of Collector.py, whose matches are
-- a parameter.
pub mod Reported
use mom.Prelude.{
  ℕ, suc, String, Bool, Option, none, some, List, [], ◌∷◌, Result, ok, err, length, ◌==◌, map,
}
use mom.Prelude.Dict.{Dict, keys}
use mom.Prelude.Int.{ℤ, pos}
use mom.Python.Value.{Error, value_error, Value, nothing, int}
use mom.Python.Text.{parse_int}
use mom.Python.Arith.{append_text}
use mom.Monitor.{Collected, Collector, stats}
use mom.Monitor.Sets.{union}

-- Collector.parse_int: the group of the first match, if there is one
unfoldable pub first_int : Option String → Result Error (Option ℤ)
first_int none = ok none
first_int (some group) = elim (parse_int group) [ none ↦ err value_error | some n ↦ ok (some n) ]

-- Collector.count_occurrences: the matches; no match is None and not 0
unfoldable pub count_occurrences : List String → Option ℕ
count_occurrences [] = none
count_occurrences (m ∷ matches) = some (length (m ∷ matches))

-- the mandatory and the optional fields of a collector
pub record Fields : Type 0 where
  pub mandatory : List String
  pub optional : List String

-- the classes whose name ends in Optional
unfoldable pub made_optional : Fields → Fields
made_optional f = record { mandatory = []; optional = union f.mandatory f.optional }

abbrev pub guest_memory : Fields
guest_memory = record {
  mandatory =
      "mem_available" ∷ "mem_unused" ∷ "major_fault" ∷ "minor_fault" ∷ "swap_in" ∷ "swap_out" ∷ [];
  optional = "swap_total" ∷ "swap_usage" ∷ [];
}

abbrev pub guest_balloon : Fields
guest_balloon = record {
  mandatory = "balloon_cur" ∷ "balloon_max" ∷ "balloon_min" ∷ [];
  optional = [];
}

abbrev pub guest_io_tune : Fields
guest_io_tune = record { mandatory = "io_tune" ∷ "io_tune_current" ∷ []; optional = [] }

unfoldable pub guest_memory_optional : Fields
unfolding made_optional
guest_memory_optional = made_optional guest_memory

unfoldable pub guest_balloon_optional : Fields
unfolding made_optional
guest_balloon_optional = made_optional guest_balloon

unfoldable pub guest_io_tune_optional : Fields
unfolding made_optional
guest_io_tune_optional = made_optional guest_io_tune

abbrev pub guest_qemu_proc : Fields
guest_qemu_proc = record {
  mandatory = "host_minor_faults" ∷ "host_major_faults" ∷ "rss" ∷ [];
  optional = [];
}

abbrev pub sysfs_keys : List String
sysfs_keys =
    "full_scans" ∷ "pages_sharing" ∷ "pages_unshared" ∷ "run" ∷ "pages_shared" ∷ "pages_to_scan"
    ∷ "pages_volatile" ∷ "sleep_millisecs" ∷ "merge_across_nodes" ∷ []

abbrev pub host_ksm : Fields
host_ksm = record {
  mandatory =
      union (map (λ key. append_text "ksm_" key) sysfs_keys)
        ("ksm_shareable" ∷ "ksmd_cpu_usage" ∷ []);
  optional = [];
}

abbrev pub host_cpu : Fields
host_cpu = record { mandatory = "cpu_count" ∷ []; optional = [] }

abbrev pub host_time : Fields
host_time = record {
  mandatory =
      "time_year" ∷ "time_month" ∷ "time_day" ∷ "time_hour" ∷ "time_minute" ∷ "time_second"
      ∷ "time_microsecond" ∷ [];
  optional = [];
}

-- datetime.datetime.now()
pub record Now : Type 0 where
  pub year : ℕ
  pub month : ℕ
  pub day : ℕ
  pub hour : ℕ
  pub minute : ℕ
  pub second : ℕ
  pub microsecond : ℕ

module _ {R : Type 0} where
  abbrev number : ℕ → Value R
  number n = int (pos n)

  abbrev count : Option ℕ → Value R
  count none = nothing
  count (some n) = number n

  -- HostCpu.collect, for the lines of /proc/cpuinfo that match "^processor.*:.*"
  unfoldable pub collect_cpu : List String → Dict (Value R)
  unfolding count_occurrences
  collect_cpu matches = ("cpu_count", count (count_occurrences matches)) ∷ []

  -- HostTime.collect
  unfoldable pub collect_time : Now → Dict (Value R)
  collect_time now =
      ("time_year", number now.year)
      ∷ ("time_month", number now.month)
      ∷ ("time_day", number now.day)
      ∷ ("time_hour", number now.hour)
      ∷ ("time_minute", number now.minute)
      ∷ ("time_second", number now.second)
      ∷ ("time_microsecond", number now.microsecond)
      ∷ []

  -- a collector in a round of its monitor
  abbrev pub declaring : Fields → Collected R → Collector R
  declaring f collected = record {
    fields = f.mandatory;
    optional_fields = f.optional;
    collected = collected;
  }
