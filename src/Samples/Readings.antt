-- ===== src/Samples/Readings.antt =====
-- The theorems on collectors at concrete readings.
use mom.Prelude.{
  Option, none, some, Result, ok, ◌+◌, ◌%◌, ◌^◌, String, ◌≡◌, refl, List, [], ◌∷◌, map, arith, true,
  ◌≤◌, ◌==◌, ◌↔◌, if◌then◌else◌,
}
use mom.Prelude.Int.{ℤ, pos, ◌-ℤ◌}
use mom.Python.Text.{parse_int, split, lstrip}
use mom.Python.Value.{Error, Value, int}
use mom.Collectors.HostMemory
use mom.Collectors.HostMemory.Totals.{Full, reading, AddsUp, collect_all-AddsUp}
use mom.Collectors.GuestQemuProc
use mom.Collectors.GuestQemuProc.{StatFile, no_file, unreadable, words, number_at}
use mom.Collectors.GuestQemuProc.Totals.{known, latest, sum_of, collect_all_adds_up}
use mom.Collectors.GuestAnswers.{collect_all, collect_memory, collect_balloon, collect_cpu_tune}
use mom.Collectors.GuestAnswers.Warnings.{warnings, answers_of, collect_all-warnings}
use mom.Collectors.Selection.{Config, get_collectors}
use mom.Collectors.Selection.Order.{named, instantiated, get_collectors-loaded}
use mom.Collectors.HostKsm.{interval_jiffs}
use mom.Collectors.HostKsm.Wrap.{interval_jiffs_wrap}

abbrev full : ℤ → ℤ → Full
full swapped_in swapped_out = record {
  avail = pos 100;
  anon = pos 5;
  unused = pos 30;
  buffers = pos 10;
  cached = pos 10;
  swap_total = pos 50;
  swap_free = pos 40;
  pswpin = swapped_in;
  pswpout = swapped_out;
}

collect_all-AddsUp_example :
    AddsUp
      (pos 7)
      (pos 1)
      (full (pos 7) (pos 1) ∷ full (pos 9) (pos 1) ∷ full (pos 20) (pos 4) ∷ [])
      (HostMemory.collect_all {R = ℤ}
        (map reading (full (pos 7) (pos 1) ∷ full (pos 9) (pos 1) ∷ full (pos 20) (pos 4) ∷ []))
        HostMemory.create).0
collect_all-AddsUp_example =
    collect_all-AddsUp ℤ (full (pos 7) (pos 1)) (full (pos 9) (pos 1) ∷ full (pos 20) (pos 4) ∷ [])

-- a line of 24 words, with the faults and the resident size at 9, 11 and 23
abbrev line : String → String → StatFile
line minor major = words (
    "1" ∷ "q" ∷ "S" ∷ "1" ∷ "1" ∷ "1" ∷ "0" ∷ "0" ∷ "0" ∷ minor ∷ "0" ∷ major ∷ "0" ∷ "0" ∷ "0"
    ∷ "0" ∷ "0" ∷ "0" ∷ "0" ∷ "0" ∷ "0" ∷ "0" ∷ "0" ∷ "900" ∷ [])

abbrev reads : List StatFile
reads = line "12" "3" ∷ unreadable ∷ line "x" "9" ∷ line "40" "5" ∷ []

collect_all_adds_up_example :
    let r = GuestQemuProc.collect_all {R = ℤ} reads (known (pos 10, pos 3)) in
    (sum_of ℤ "host_minor_faults" r.0 ≡ (latest reads (pos 10, pos 3)).0 -ℤ pos 10)
    × (sum_of ℤ "host_major_faults" r.0 ≡ (latest reads (pos 10, pos 3)).1 -ℤ pos 3)
    × (r.1 ≡ known (latest reads (pos 10, pos 3)))
collect_all_adds_up_example = collect_all_adds_up ℤ reads (pos 10, pos 3)

latest_test : latest reads (pos 10, pos 3) ≡ (pos 40, pos 5)
unfolding number_at parse_int
latest_test = refl

-- the counter wrapped between the reads
interval_jiffs_wrap_example :
    interval_jiffs (pos ((4294967290 + 10) % 2 ^ 32)) (pos (4294967290 % 2 ^ 32)) ≡ 10
interval_jiffs_wrap_example = interval_jiffs_wrap 4294967290 10 (omega arith)

abbrev answers : List (Option (List (String × Value ℤ)))
answers = none ∷ none ∷ some (("mem_free", int (pos 3)) ∷ []) ∷ none ∷ []

collect_all-warnings_example :
    (warnings (collect_all collect_memory answers true) ≤ answers_of answers + 1)
    × (warnings (collect_all collect_balloon answers true) ≤ answers_of answers + 1)
    × (warnings (collect_all collect_cpu_tune answers true) ≤ answers_of answers + 1)
collect_all-warnings_example = collect_all-warnings ℤ answers

-- four answers, three of them missing, and two warnings
warnings_test : warnings (collect_all collect_memory answers true) ≡ 2
unfolding collect_all collect_memory
warnings_test = refl

-- a collector is its name; there is no collector of the name "Missing"
abbrev by_name : String → Result Error (Option String)
by_name name = if name == "Missing" then ok none else ok (some name)

abbrev no_section : String → Config
no_section name = none

get_collectors-loaded_example :
    (get_collectors no_section (λ name config. by_name name) "HostMemory, ,HostKSM" none
      ≡ ok (some ("HostMemory" ∷ "HostKSM" ∷ [])))
    ↔ (map by_name (named (split b',' "HostMemory, ,HostKSM"))
        ≡ map instantiated ("HostMemory" ∷ "HostKSM" ∷ []))
get_collectors-loaded_example =
    get_collectors-loaded no_section (λ name config. by_name name) by_name "HostMemory, ,HostKSM"
      ("HostMemory" ∷ "HostKSM" ∷ []) (λ name config. refl)

named_test : named (split b',' "HostMemory, ,HostKSM") ≡ "HostMemory" ∷ "HostKSM" ∷ []
unfolding split lstrip
named_test = refl
