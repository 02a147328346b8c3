-- ===== src/Collectors/GuestQemuProc.antt =====
-- mom/Collectors/GuestQemuProc.py: page faults and resident size of a guest's qemu process. What a
-- read of /proc/<pid>/stat gives is a parameter.
pub mod Totals
use mom.Prelude.{ℕ, String, Option, none, some, List, [], ◌∷◌, Result, ok, err, get_elem?}
use mom.Prelude.Int.{ℤ, ◌-ℤ◌}
use mom.Python.Value.{Error, index_error, value_error, Value, int}
use mom.Python.Text.{parse_int}
use mom.Monitor.{Collected, stats, collection_error, crashed}

-- What the file has to say: there is no file, the read is an IOError, or the words of the line.
pub data StatFile : Type 0 where
  no_file unreadable : StatFile
  words : List String → StatFile

pub record GuestQemuProc : Type 0 where
  pub prev_minor_faults : Option ℤ
  pub prev_major_faults : Option ℤ

abbrev or_value_error : Option ℤ → Result Error ℤ
or_value_error none = err value_error
or_value_error (some n) = ok n

abbrev word_number : Option String → Result Error ℤ
word_number none = err index_error
word_number (some word) = or_value_error (parse_int word)

-- int(stats[i])
unfoldable pub number_at : List String → ℕ → Result Error ℤ
number_at ws i = word_number (get_elem? ws i)

abbrev pub or_first : Option ℤ → ℤ → ℤ
or_first none cur = cur
or_first (some prev) cur = prev

module _ {R : Type 0} where
  -- an exception at a number leaves the previous values alone
  abbrev pub report :
      Result Error ℤ → Result Error ℤ → Result Error ℤ → GuestQemuProc → Collected R × GuestQemuProc
  report (ok minor) (ok major) (ok rss) c = (
    stats (
        ("host_minor_faults", int (minor -ℤ or_first c.prev_minor_faults minor))
        ∷ ("host_major_faults", int (major -ℤ or_first c.prev_major_faults major))
        ∷ ("rss", int rss)
        ∷ []),
    record { prev_minor_faults = some minor; prev_major_faults = some major },
  )
  report _ _ _ c = (crashed, c)

  unfoldable pub collect : StatFile → GuestQemuProc → Collected R × GuestQemuProc
  unfolding number_at
  collect no_file c = (stats [], c)
  collect unreadable c = (collection_error, c)
  collect (words ws) c = report (number_at ws 9) (number_at ws 11) (number_at ws 23) c

  -- one collection after another
  unfoldable pub collect_all : List StatFile → GuestQemuProc → List (Collected R) × GuestQemuProc
  unfolding collect
  collect_all [] c = ([], c)
  collect_all (f ∷ fs) c =
      let (r, c₁) = collect f c in let (rs, c₂) = collect_all fs c₁ in (r ∷ rs, c₂)
