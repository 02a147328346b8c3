-- ===== src/Collectors/Selection.antt =====
-- `get_collectors` of mom/Collectors/Collector.py: the collectors that a configuration names. The
-- import and the constructor of a collector, which get its configuration, are a parameter, and so are
-- the sections of the global configuration.
pub mod Order
use mom.Prelude.{
  String, Bool, true, false, Option, none, some, List, [], ◌∷◌, Result, ok, err, ◌==◌,
  if◌then◌else◌,
}
use mom.Prelude.Dict.{Dict}
use mom.Python.Value.{Error}
use mom.Python.Text.{split, lstrip}

-- The `config` entry of the properties: none, or a section.
abbrev pub Config : Type 0
Config = Option (Dict String)

-- a section replaces the entry; without a section the entry stays as it is
abbrev pub entry_for : Config → Config → Config
entry_for none config = config
entry_for (some section) config = some section

module _ {C : Type 0} where
  abbrev with_first : C → Option (List C) → Option (List C)
  with_first c none = none
  with_first c (some cs) = some (c ∷ cs)

  -- the first collector that cannot be created ends the loop
  abbrev pub join :
      Result Error (Option C) → Result Error (Option (List C)) → Result Error (Option (List C))
  join (err e) rest = err e
  join (ok none) rest = ok none
  join (ok (some c)) (err e) = err e
  join (ok (some c)) (ok cs) = ok (with_first c cs)

  -- `load name config`: an instance, `ok none` for an ImportError or a FatalError, or another exception
  module _ (section : String → Config) (load : String → Config → Result Error (Option C)) where
    unfoldable pub collectors_of : List String → Config → Result Error (Option (List C))
    collectors_of [] config = ok (some [])
    collectors_of (name ∷ names) config =
        let config' = entry_for (section (lstrip name)) config in
        let skipped = collectors_of names config in
        let rest = collectors_of names config' in
        if lstrip name == "" then skipped else join (load (lstrip name) config') rest

    -- an entry that is there already is refused
    unfoldable pub get_collectors : String → Config → Result Error (Option (List C))
    unfolding collectors_of
    get_collectors config_str (some config) = ok none
    get_collectors config_str none = collectors_of (split b',' config_str) none
