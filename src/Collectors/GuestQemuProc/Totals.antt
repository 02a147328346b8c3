-- ===== src/Collectors/GuestQemuProc/Totals.antt =====
-- The faults that mom/Collectors/GuestQemuProc.py reports add up to what the kernel counted.
use mom.Prelude.{String, ◌≡◌, refl, Option, some, List, [], ◌∷◌, Result, ok, err}
use mom.Prelude.Dict.{lookup}
use mom.Prelude.Int.{ℤ, pos, ◌+ℤ◌, ◌-ℤ◌, sub_self, chained}
use mom.Python.Value.{Error, Value, int}
use mom.Monitor.{Collected, stats}
use mom.Collectors.GuestQemuProc.{
  StatFile, no_file, unreadable, words, GuestQemuProc, number_at, report, collect, collect_all,
}

-- The counters after a read: those of the read, if its three numbers are there.
abbrev pub counted : Result Error ℤ → Result Error ℤ → Result Error ℤ → ℤ × ℤ → ℤ × ℤ
counted (ok minor) (ok major) (ok rss) old = (minor, major)
counted _ _ _ old = old

abbrev pub counters : StatFile → ℤ × ℤ → ℤ × ℤ
counters (words ws) old = counted (number_at ws 9) (number_at ws 11) (number_at ws 23) old
counters _ old = old

abbrev pub latest : List StatFile → ℤ × ℤ → ℤ × ℤ
latest [] old = old
latest (f ∷ fs) old = latest fs (counters f old)

abbrev pub known : ℤ × ℤ → GuestQemuProc
known (minor, major) = record { prev_minor_faults = some minor; prev_major_faults = some major }

module _ (R : Type 0) where
  abbrev pub amount : Option (Value R) → ℤ
  amount (some (int n)) = n
  amount _ = pos 0

  abbrev pub amount_of : String → Collected R → ℤ
  amount_of name (stats row) = amount (lookup name row)
  amount_of name _ = pos 0

  abbrev pub sum_of : String → List (Collected R) → ℤ
  sum_of name [] = pos 0
  sum_of name (r ∷ rs) = amount_of name r +ℤ sum_of name rs

  report-counted :
      (a b c : Result Error ℤ) (old : ℤ × ℤ)
      → let r = report {R = R} a b c (known old) in
        let new = counted a b c old in
        (amount_of "host_minor_faults" r.0 ≡ new.0 -ℤ old.0)
        × (amount_of "host_major_faults" r.0 ≡ new.1 -ℤ old.1)
        × (r.1 ≡ known new)
  report-counted (ok a) (ok b) (ok c) old = (refl, refl, refl)
  report-counted (ok a) (ok b) (err e) (n, m) = (sub_self n, sub_self m, refl)
  report-counted (ok a) (err e) c (n, m) = (sub_self n, sub_self m, refl)
  report-counted (err e) b c (n, m) = (sub_self n, sub_self m, refl)

  collect-counters :
      (f : StatFile) (old : ℤ × ℤ)
      → let r = collect {R = R} f (known old) in
        let new = counters f old in
        (amount_of "host_minor_faults" r.0 ≡ new.0 -ℤ old.0)
        × (amount_of "host_major_faults" r.0 ≡ new.1 -ℤ old.1)
        × (r.1 ≡ known new)
  unfolding collect
  collect-counters no_file (n, m) = (sub_self n, sub_self m, refl)
  collect-counters unreadable (n, m) = (sub_self n, sub_self m, refl)
  collect-counters (words ws) old =
      report-counted (number_at ws 9) (number_at ws 11) (number_at ws 23) old

  -- Whatever the reads give, the faults that are reported add up to what the kernel counted between
  -- the last read before and the last complete read: a read that fails loses none and repeats none,
  -- and the collector keeps the counters of the last complete read.
  pub collect_all_adds_up :
      (fs : List StatFile) (old : ℤ × ℤ)
      → let r = collect_all {R = R} fs (known old) in
        (sum_of "host_minor_faults" r.0 ≡ (latest fs old).0 -ℤ old.0)
        × (sum_of "host_major_faults" r.0 ≡ (latest fs old).1 -ℤ old.1)
        × (r.1 ≡ known (latest fs old))
  unfolding collect_all
  collect_all_adds_up [] (n, m) = (sub_self n, sub_self m, refl)
  collect_all_adds_up (f ∷ fs) old =
      let new = counters f old in
      let (minor, major, kept) = collect-counters f old in
      let (minors, majors, last) = collect_all_adds_up fs new in
      rw kept (
        chained new.0 old.0 (latest fs new).0 minor minors,
        chained new.1 old.1 (latest fs new).1 major majors,
        last,
      )
