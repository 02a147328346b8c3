-- ===== src/Monitor/Plotter.antt =====
-- mom/Plotter.py: a file to which each row of statistics is appended. The file is the text that was
-- written to it; str(value) and the text of the time are parameters.
use mom.Prelude.{String, Bool, Option, none, some, List, [], ◌∷◌, if◌then◌else◌, ◌==◌}
use mom.Prelude.Dict.{Dict, lookup}
use mom.Python.Value.{Value}
use mom.Python.Arith.{append_text}
use mom.Policy.Store.{sorted}

-- `self.file` with what was written, or None, and `self.keys`
pub record Plotter : Type 0 where
  pub file : Option String
  pub keys : List String

-- Plotter(plot_dir, name): `opens` says whether the file can be opened
unfoldable pub create : (String → Bool) → String → String → Plotter
create opens plot_dir name =
    let path = append_text plot_dir (append_text "/" (append_text name ".dat")) in
    let opened : Plotter = record { file = if opens path then some "" else none; keys = [] } in
    if plot_dir == "" then record { file = none; keys = [] } else opened

-- '\t '.join(names)
abbrev pub spaced : List String → String
spaced [] = ""
spaced (w ∷ []) = w
spaced (w ∷ next ∷ ws) = append_text w (append_text "\t " (spaced (next ∷ ws)))

-- '\t'.join(words)
abbrev pub tabbed : List String → String
tabbed [] = ""
tabbed (w ∷ []) = w
tabbed (w ∷ next ∷ ws) = append_text w (append_text "\t" (tabbed (next ∷ ws)))

abbrev pub written : Option String → String → Plotter → Plotter
written none line p = p
written (some text) line p = record p { file = some (append_text text line) }

unfoldable pub set_fields : List String → Plotter → Plotter
set_fields fields p = elim p.file [
  | none ↦ p
  | some text ↦
      written (some text) (append_text "# time\t " (append_text (spaced (sorted fields)) "\n"))
        (record p { keys = sorted fields })
]

module _ {R : Type 0} (show : Value R → String) where
  abbrev cell : Option (Value R) → Option (List String) → Option (List String)
  cell none rest = none
  cell (some v) none = none
  cell (some v) (some words) = some (show v ∷ words)

  -- the values of the keys, or `none` for a KeyError
  abbrev pub cells : List String → Dict (Value R) → Option (List String)
  cells [] data_row = some []
  cells (k ∷ ks) data_row = cell (lookup k data_row) (cells ks data_row)

  abbrev pub line_of : String → Option (List String) → String
  line_of time none = append_text "# " (append_text time " Incomplete data set\n")
  line_of time (some words) = append_text time (append_text "\t" (append_text (tabbed words) "\n"))

  unfoldable pub plot : String → Dict (Value R) → Plotter → Plotter
  plot time data_row p = written p.file (line_of time (cells p.keys data_row)) p
