-- ===== src/Daemon/PlotDir.antt =====
-- MOM._get_plot_subdir of mom/__init__.py. The file system is a parameter: the names in a directory,
-- `none` for an OSError, and whether a directory could be made. Digits are the ASCII ones.
pub mod Fresh
use Prim.Native.Char.{code}
use mom.Prelude.{
  ℕ, ◌+◌, ◌-◌, ◌*◌, ◌/◌, ◌%◌, String, Bool, true, false, ◌&&◌, Option, none, some, List, [], ◌∷◌,
  Result, ok, err, eqb, ltb, leb, ◌==◌, if◌then◌else◌,
}
use mom.Python.Value.{Error, attribute_error}
use mom.Python.Arith.{append_text}
use mom.Python.Print.{digit_text, print_ℕ}

-- what a text has after a prefix
unfoldable pub after : String → String → Option String
after String.[] s = some s
after (String.◌∷◌ c p) String.[] = none
after (String.◌∷◌ c p) (String.◌∷◌ d s) =
    let rest = after p s in if eqb (code c) (code d) then rest else none

unfoldable pub decimal : ℕ → Option ℕ
decimal c = if leb b'0' c && leb c b'9' then some (c - b'0') else none

-- `$` also matches before a newline that ends the text
abbrev pub is_end : String → Bool
is_end String.[] = true
is_end (String.◌∷◌ c String.[]) = eqb (code c) 10
is_end _ = false

abbrev pub combined : Option ℕ → Option ℕ → Option ℕ → Option ℕ
combined (some a) (some b) (some c) = some (a * 100 + b * 10 + c)
combined _ _ _ = none

-- int of the group, for a match of (\d{3})$
unfoldable pub three_digits : String → Option ℕ
unfolding decimal
three_digits (String.◌∷◌ a (String.◌∷◌ b (String.◌∷◌ c rest))) =
    if is_end rest then combined (decimal (code a)) (decimal (code b)) (decimal (code c)) else none
three_digits _ = none

abbrev pub number_in : Option String → Option ℕ
number_in none = none
number_in (some rest) = three_digits rest

-- the number of a plot directory, for a match of ^momplot-(\d{3})$
unfoldable pub number_of : String → Option ℕ
unfolding after three_digits
number_of name = number_in (after "momplot-" name)

-- one more than the greatest number, from one more than the greatest so far
abbrev pub above : Option ℕ → ℕ → ℕ
above none next = next
above (some n) next = if ltb n next then next else n + 1

unfoldable pub next_number : ℕ → List String → ℕ
unfolding number_of
next_number next [] = next
next_number next (name ∷ names) = next_number (above (number_of name) next) names

-- "%03d"
unfoldable pub padded : ℕ → String
padded n =
    if ltb n 1000
    then append_text (digit_text (n / 100))
        (append_text (digit_text (n / 10 % 10)) (digit_text (n % 10)))
    else print_ℕ n

abbrev pub plot_name : ℕ → String
plot_name n = append_text "momplot-" (padded n)

abbrev pub plot_path : String → ℕ → String
plot_path basedir n = append_text basedir (append_text "/" (plot_name n))

module _ (list_dir : String → Option (List String)) (mkdir : String → Bool)
    (has_logger : Bool) where
  -- self.logger.warn(...) and return ''; without the attribute `logger` it raises
  abbrev pub warned : Result Error String
  warned = if has_logger then ok "" else err attribute_error

  abbrev pub made_at : String → ℕ → Result Error String
  made_at basedir n =
      if ltb 999 n
      then warned
      else if mkdir (plot_path basedir n)
      then ok (plot_path basedir n)
      else warned

  abbrev pub among : String → Option (List String) → Result Error String
  among basedir none = warned
  among basedir (some names) = made_at basedir (next_number 0 names)

  unfoldable pub plot_subdir : String → Result Error String
  unfolding next_number
  plot_subdir basedir = if basedir == "" then ok "" else among basedir (list_dir basedir)
