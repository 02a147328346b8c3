-- ===== src/Daemon/Config/Precedence.antt =====
-- Where an option of the daemon comes from (mom/__init__.py, _load_config).
use mom.Prelude.{
  String, ◌≡◌, refl, ◌∙◌, Bool, false, ◌||◌, Option, none, some, List, [], ◌∷◌, Result, ok, err,
  ◌>>=◌, ◌>>◌, modify, ◌==◌, arith, if◌then◌else◌,
}
use mom.Prelude.Dict.{Dict, lookup, has, update, keys, contains-keys}
use mom.Python.Value.{Error}
use mom.Daemon.PlotDir.{plot_subdir}
use mom.Daemon.Config.{
  Config, Step, section, items, or_else, option, main_options, logging_options, set, set_all,
  add_section, set_built_in, read, read_sections, override, set_internal, load_config,
}
use mom.Daemon.Config.Changes.{
  latest, lookup-update, Becomes, read_sections-IsRead, override_sections-Becomes,
}
use mom.Daemon.Config.Internal.{set_internal-Sets}

-- the built-in defaults
unfoldable pub built_in : Dict (Dict String)
built_in =
    ("main", main_options)
    ∷ ("logging", logging_options)
    ∷ ("host", ("collectors", "HostMemory") ∷ [])
    ∷ ("guest", ("collectors", "GuestQemuProc, GuestMemory") ∷ [])
    ∷ []

abbrev empty : Config
empty = record { defaults = []; sections = [] }

abbrev basic : Config
basic = record { defaults = []; sections = built_in }

set_built_in-basic : set_built_in empty ≡ (ok tt, basic)
unfolding set_built_in set_all set add_section built_in ◌>>=◌
set_built_in-basic = refl

-- the options of a section that the overrides have
abbrev pub overriding : Option Config → String → String → Option String
overriding none s i = none
overriding (some o) s i = if has s o.sections then latest i (items s o) else none

-- The option of a section that is built in or in the file: the override, or else the file's, or else
-- the built-in default, or else the file's option for every section.
unfoldable pub expected : Config → Option Config → String → String → Option String
expected file overrides s i =
    if has s built_in || has s file.sections
    then or_else (overriding overrides s i) (
        or_else (latest i (section s file))
          (or_else (lookup i (section s basic)) (latest i file.defaults)))
    else none

-- config.get('main', 'plot-dir'), which is never missing
abbrev pub plot_basedir : Config → Option Config → String
plot_basedir file overrides = elim (expected file overrides "main" "plot-dir") [
  | none ↦ ""
  | some text ↦ text
]

-- the state after the file is read
abbrev read_config : Config → Config
read_config file =
    read_sections file (keys file.sections) (record basic { defaults = update [] file.defaults })

option-override :
    (file : Config) (overrides : Option Config)
    → Becomes (override overrides (read_config file)) (read_config file) λ s i.
      or_else
        (if has s (read_config file).sections then overriding overrides s i else none)
        (lookup i (section s (read_config file)))
unfolding ◌>>=◌
option-override file none = record {
  done = refl;
  defaults = refl;
  known = λ s. refl;
  value = λ s i. ground arith;
}
option-override file (some o) =
    let b = override_sections-Becomes o (keys o.sections) (read_config file) in
    record {
      done = b.done;
      defaults = b.defaults;
      known = b.known;
      value = λ s i. ground (arith, b.value s i, contains-keys s o.sections);
    }

option-expected :
    (file : Config) (overrides : Option Config) (s i : String)
    → option s i (override overrides (read_config file)).1 ≡ expected file overrides s i
unfolding option expected
option-expected file overrides s i =
    let start : Config = record basic { defaults = update [] file.defaults } in
    let o = option-override file overrides in
    let r = read_sections-IsRead file (keys file.sections) start in
    ground (
      arith,
      o.value s i,
      o.known s,
      o.defaults,
      r.value s i,
      r.known s,
      r.defaults,
      contains-keys s file.sections,
      lookup-update i [] file.defaults,
    )

expected-plot_basedir :
    (file : Config) (overrides : Option Config)
    → expected file overrides "main" "plot-dir" ≡ some (plot_basedir file overrides)
unfolding expected built_in
expected-plot_basedir file overrides = grind arith

read_config-read : (file : Config) → read file basic ≡ (ok tt, read_config file)
unfolding read ◌>>=◌
read_config-read file = refl

-- What the options are after _load_config, for what _get_plot_subdir returned or raised.
abbrev pub Loads :
    Config → Option Config → Result Error String → Result Error (Unit {0}) × Config → Type 0
Loads file overrides (err e) r = r.0 ≡ err e
Loads file overrides (ok dir) r =
    (r.0 ≡ ok tt)
    × ((s i : String)
        → option s i r.1 ≡ (
            if "__int__" == s
            then if "plot-subdir" == i
              then some dir
              else if "running" == i
              then some "0"
              else latest i file.defaults
            else expected file overrides s i))

-- a step that returns, and what follows it
then_ok : (m k : Step (Unit {0})) (c c' : Config) → m c ≡ (ok tt, c') → (m >> k) c ≡ k c'
unfolding ◌>>=◌
then_ok m k c c' h = rw h refl

modify-then : (f : Config → Config) (k : Step (Unit {0})) (c : Config) → (modify f >> k) c ≡ k (f c)
unfolding ◌>>=◌
modify-then f k c = refl

module _ (list_dir : String → Option (List String)) (mkdir : String → Bool) (file : Config)
    (overrides : Option Config) where
  -- the state before the thread-global variables are set
  abbrev ready : Config
  ready = (override overrides (read_config file)).1

  load_config-set_internal :
      (c : Config) → load_config list_dir mkdir file overrides c ≡ set_internal list_dir mkdir ready
  unfolding load_config
  load_config-set_internal c =
      modify-then (λ m. empty) _ c
      ∙ then_ok set_built_in _ empty basic set_built_in-basic
      ∙ then_ok (read file) _ basic (read_config file) (read_config-read file)
      ∙ then_ok (override overrides) _ (read_config file) ready
          (λ i. ((option-override file overrides).done i, ready))

  configured : option "main" "plot-dir" ready ≡ some (plot_basedir file overrides)
  configured =
      option-expected file overrides "main" "plot-dir" ∙ expected-plot_basedir file overrides

  lookup-ready : (i : String) → lookup i ready.defaults ≡ latest i file.defaults
  lookup-ready i =
      let start : Config = record basic { defaults = update [] file.defaults } in
      let r = read_sections-IsRead file (keys file.sections) start in
      ground (
        arith,
        (option-override file overrides).defaults,
        r.defaults,
        lookup-update i [] file.defaults,
      )

  set_internal-Loads :
      (plot : Result Error String)
      → plot_subdir list_dir mkdir false (plot_basedir file overrides) ≡ plot
      → Loads file overrides plot (set_internal list_dir mkdir ready)
  set_internal-Loads (err e) h =
      set_internal-Sets list_dir mkdir ready (plot_basedir file overrides) (err e) configured h
  set_internal-Loads (ok dir) h =
      let sets =
        set_internal-Sets list_dir mkdir ready (plot_basedir file overrides) (ok dir) configured
          h in
      (sets.0, λ s i. sets.1 s i ∙ rw (lookup-ready i, option-expected file overrides s i) refl)

  -- After _load_config an option of a section that is built in or in the file is the override, or
  -- else the file's, or else the built-in default, or else the file's option for every section; the
  -- section `__int__` has the flag `running` at 0 and the plot directory, whatever the file and the
  -- overrides say of it; and if _get_plot_subdir raises, so does _load_config.
  pub load_config-Loads :
      (c : Config)
      → Loads file overrides
          (plot_subdir list_dir mkdir false (plot_basedir file overrides))
          (load_config list_dir mkdir file overrides c)
  load_config-Loads c = rw (load_config-set_internal c) (set_internal-Loads _ refl)
