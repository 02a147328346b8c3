-- ===== src/Collectors/HostKsm.antt =====
-- mom/Collectors/HostKSM.py: the state of kernel samepage merging. The files under /sys and /proc and
-- the output of pgrep and ps are parameters.
pub mod Wrap
pub mod Start
use mom.Prelude.{
  ℕ, zero, suc, ◌+◌, ◌-◌, ◌%◌, ◌^◌, String, Option, none, some, List, [], ◌∷◌, Result, ok, err,
  Exec, pure, lift, gets, modify, ◌>>=◌, ◌>>◌,
}
use mom.Prelude.Dict.{Dict, insert}
use mom.Prelude.Int.{ℤ, pos, negsuc, ◌+ℤ◌, ◌-ℤ◌, ◌*ℤ◌}
use mom.Python.Value.{Floats, Error, value_error, Value, nothing, int}
use mom.Monitor.{Collected, stats, collection_error, crashed}
use mom.Python.Text.{parse_int}
use mom.Python.Arith.{append_text, div, to_int}

pub record HostKsm : Type 0 where
  pub interval : ℤ
  pub pid : Option ℤ
  pub last_jiff : ℤ

-- n % m, for a positive m: the remainder is not negative
unfoldable pub modulo : ℤ → ℕ → ℕ
modulo (pos n) m = n % m
modulo (negsuc n) m = m - 1 - n % m

-- the jiffies of an interval: the counter has 32 bits
unfoldable pub interval_jiffs : ℤ → ℤ → ℕ
unfolding modulo
interval_jiffs cur_jiff last_jiff = modulo (cur_jiff -ℤ last_jiff) (2 ^ 32)

abbrev or_value_error : Option ℤ → Result Error ℤ
or_value_error none = err value_error
or_value_error (some n) = ok n

-- the sum of the numbers in a list of words
unfoldable pub sum_words : ℤ → List String → Result Error ℤ
sum_words total [] = ok total
sum_words total (w ∷ ws) = elim (or_value_error (parse_int w)) [
  | ok n ↦ sum_words (total +ℤ n) ws
  | err e ↦ err e
]

-- l[n:]
abbrev pub drop : ℕ → List String → List String
drop n [] = []
drop zero (w ∷ ws) = w ∷ ws
drop (suc n) (w ∷ ws) = drop n ws

-- at most two elements
abbrev pub first_two : List String → List String
first_two (v ∷ w ∷ ws) = v ∷ w ∷ []
first_two ws = ws

unfoldable pub get_ksmd_jiffies : Option ℤ → List String → Result Error ℤ
unfolding sum_words
get_ksmd_jiffies none words = ok (pos 0)
get_ksmd_jiffies (some pid) words = sum_words (pos 0) (first_two (drop 13 words))

-- The words that pgrep prints, or `none` if it cannot be run, which is a CollectionError; `ps` gives
-- the words for a list of processes.
unfoldable pub get_shareable_mem :
    (List String → List String) → Option (List String) → Option (Result Error ℤ)
unfolding sum_words
get_shareable_mem ps none = none
get_shareable_mem ps (some []) = some (ok (pos 0))
get_shareable_mem ps (some (pid ∷ pids)) = some (sum_words (pos 0) (ps (pid ∷ pids)))

module _ {R : Type 0} where
  abbrev pub number : Option ℤ → Value R
  number none = nothing
  number (some n) = int n

  -- one entry for each file, named `ksm_` and the key
  unfoldable pub read_files : Dict (Option ℤ) → Dict (Value R) → Dict (Value R)
  read_files [] found = found
  read_files ((datum, n) ∷ files) found =
      read_files files (insert (append_text "ksm_" datum) (number n) found)

module _ {R : Type 0} ⦃F : Floats R⦄ where
  -- `clk_tck` is os.sysconf('SC_CLK_TCK'); `last_jiff` is written before the division
  unfoldable pub get_ksmd_cpu_usage : ℤ → List String → Exec HostKsm Error (Value R)
  unfolding get_ksmd_jiffies interval_jiffs
  get_ksmd_cpu_usage clk_tck words = do
    c ← gets (λ s. s)
    cur_jiff ← lift (get_ksmd_jiffies c.pid words)
    modify (λ s. record s { last_jiff = cur_jiff })
    let jiffs : Value R = int (pos 100 *ℤ pos (interval_jiffs cur_jiff c.last_jiff))
    share ← lift (div jiffs (int (clk_tck *ℤ c.interval)))
    usage ← lift (to_int share)
    pure (int usage)

  abbrev pub with_usage : Dict (Value R) → Result Error (Value R) × HostKsm → Collected R × HostKsm
  with_usage row (ok usage, c) = (stats (insert "ksmd_cpu_usage" usage row), c)
  with_usage row (err e, c) = (crashed, c)

  abbrev pub with_shareable :
      ℤ → List String → Dict (Value R) → Option (Result Error ℤ) → HostKsm → Collected R × HostKsm
  with_shareable clk_tck words row none c = (collection_error, c)
  with_shareable clk_tck words row (some (err e)) c = (crashed, c)
  with_shareable clk_tck words row (some (ok mem)) c =
      with_usage (insert "ksm_shareable" (int mem) row) (get_ksmd_cpu_usage clk_tck words c)

  -- `files`: what `parse_int` finds in each file, in the order of `sysfs_keys`
  unfoldable pub collect :
      ℤ
      → List String
      → (List String → List String)
      → Option (List String)
      → Dict (Option ℤ)
      → HostKsm
      → Collected R × HostKsm
  unfolding get_shareable_mem read_files get_ksmd_cpu_usage
  collect clk_tck words ps pgrep files c =
      with_shareable clk_tck words (read_files files []) (get_shareable_mem ps pgrep) c
