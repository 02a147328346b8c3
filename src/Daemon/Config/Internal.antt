-- ===== src/Daemon/Config/Internal.antt =====
-- The section `__int__` of _load_config (mom/__init__.py).
use mom.Prelude.{
  String, ◌≡◌, refl, ◌∙◌, Bool, true, false, ◌&&◌, Option, some, List, Result, ok, err, ◌>>=◌, ◌==◌,
  eq_iff, arith, if◌then◌else◌, [],
}
use mom.Prelude.Dict.{lookup, has, lookup-insert, lookup-erase}
use mom.Python.Value.{Error}
use mom.Daemon.PlotDir.{plot_subdir}
use mom.Daemon.Config.{
  Config, section, option, replaced, set, add_section, remove_section, set_internal,
}
use mom.Daemon.Config.Changes.{Becomes, set-Becomes}

-- `__int__` is empty, and every other section is as it was
abbrev fresh : Config → Config
fresh c = replaced "__int__" [] (remove_section "__int__" c)

option-fresh :
    (s i : String) (c : Config)
    → option s i (fresh c) ≡ (if "__int__" == s then lookup i c.defaults else option s i c)
unfolding option remove_section
option-fresh s i c = ground (
  arith,
  lookup-insert s "__int__" [] (remove_section "__int__" c).sections,
  lookup-erase s "__int__" c.sections,
)

add_section-fresh :
    (c : Config) → add_section "__int__" (remove_section "__int__" c) ≡ (ok tt, fresh c)
unfolding add_section remove_section ◌>>=◌
add_section-fresh c = rw (lookup-erase "__int__" "__int__" c.sections) refl

option-set :
    (sect item value : String) (c : Config) (s i : String)
    → has sect c.sections ≡ true
    → option s i (set sect item value c).1
      ≡ (if sect == s && item == i then some value else option s i c)
unfolding option
option-set sect item value c s i h =
    let changed = set-Becomes sect item value c h in
    ground (arith, h, changed.value s i, changed.known s, changed.defaults, eq_iff sect s)

has-fresh : (c : Config) → has "__int__" (fresh c).sections ≡ true
has-fresh c =
    ground (arith, lookup-insert "__int__" "__int__" [] (remove_section "__int__" c).sections)

-- the flag `running` is set
started :
    (c : Config)
    → Becomes
        (set "__int__" "running" "0" (fresh c))
        (fresh c)
        λ s i. if "__int__" == s && "running" == i then some "0" else lookup i (section s (fresh c))
started c = set-Becomes "__int__" "running" "0" (fresh c) (has-fresh c)

there : (c : Config) → has "__int__" (set "__int__" "running" "0" (fresh c)).1.sections ≡ true
there c = (started c).known "__int__" ∙ has-fresh c

still :
    (c : Config) {text : Option String}
    → option "main" "plot-dir" c ≡ text
    → option "main" "plot-dir" (set "__int__" "running" "0" (fresh c)).1 ≡ text
still c e =
    option-set "__int__" "running" "0" (fresh c) "main" "plot-dir" (has-fresh c)
    ∙ option-fresh "main" "plot-dir" c
    ∙ e

-- What the options are once the plot directory is known; an exception there ends the constructor.
abbrev pub Sets : Result Error String → Config → Result Error (Unit {0}) × Config → Type 0
Sets (err e) c r = r.0 ≡ err e
Sets (ok dir) c r =
    (r.0 ≡ ok tt)
    × ((s i : String)
        → option s i r.1 ≡ (
            if "__int__" == s
            then if "plot-subdir" == i
              then some dir
              else if "running" == i
              then some "0"
              else lookup i c.defaults
            else option s i c))

module _ (list_dir : String → Option (List String)) (mkdir : String → Bool) where
  pub set_internal-Sets :
      (c : Config) (basedir : String) (plot : Result Error String)
      → option "main" "plot-dir" c ≡ some basedir
      → plot_subdir list_dir mkdir false basedir ≡ plot
      → Sets plot c (set_internal list_dir mkdir c)
  unfolding set_internal ◌>>=◌
  set_internal-Sets c basedir (err e) configured h =
      rw (add_section-fresh c, (started c).done, still c configured, h) refl
  set_internal-Sets c basedir (ok dir) configured h =
      let m = (set "__int__" "running" "0" (fresh c)).1 in
      let present = there c in
      let ended = set-Becomes "__int__" "plot-subdir" dir m present in
      rw (add_section-fresh c, (started c).done, still c configured, h)
        (
          ended.done,
          λ s i. ground (
            arith,
            option-set "__int__" "plot-subdir" dir m s i present,
            option-set "__int__" "running" "0" (fresh c) s i (has-fresh c),
            option-fresh s i c,
          ),
        )
