-- ===== src/Daemon/Config/Changes.antt =====
-- What the steps of _load_config do to the options (mom/__init__.py).
use mom.Prelude.{
  String, ◌≡◌, refl, ◌∙◌, true, ◌&&◌, ◌||◌, Option, none, some, List, [], ◌∷◌, Result, ok, ◌>>=◌,
  ◌==◌, eq_iff, arith, contains, Bool-cases, inl, inr, if◌then◌else◌,
}
use mom.Prelude.Dict.{Dict, lookup, has, insert, update, lookup-insert}
use mom.Python.Value.{Error}
use mom.Daemon.Config.{
  Config, section, items, or_else, replaced, set, set_all, merged, read_sections, override_sections,
}

-- the last binding of a list of pairs, which is the only one of a dict
abbrev pub latest : String → List (String × String) → Option String
latest item [] = none
latest item ((j, v) ∷ rest) = or_else (latest item rest) (if j == item then some v else none)

pub lookup-update :
    (item : String) (d : Dict String) (e : List (String × String))
    → lookup item (update d e) ≡ or_else (latest item e) (lookup item d)
lookup-update item d [] = refl
lookup-update item d ((j, v) ∷ e) =
    ground (arith, lookup-update item (insert j v d) e, lookup-insert item j v d)

lookup-replaced :
    (s sect : String) (d : Dict String) (c : Config)
    → section s (replaced sect d c) ≡ (if sect == s then d else section s c)
lookup-replaced s sect d c = ground (arith, lookup-insert s sect d c.sections)

has-replaced :
    (s sect : String) (d : Dict String) (c : Config)
    → has s (replaced sect d c).sections ≡ (sect == s || has s c.sections)
has-replaced s sect d c = ground (arith, lookup-insert s sect d c.sections)

-- A step ended without an exception; the sections are the same, and their own options the chosen.
pub record Becomes (r : Result Error (Unit {0}) × Config) (c : Config)
    (chosen : String → String → Option String) : Type 0 where
  pub done : r.0 ≡ ok tt
  pub defaults : r.1.defaults ≡ c.defaults
  pub known : (s : String) → has s r.1.sections ≡ has s c.sections
  pub value : (s i : String) → lookup i (section s r.1) ≡ chosen s i

pub set-Becomes :
    (sect item value : String) (c : Config)
    → has sect c.sections ≡ true
    → Becomes
        (set sect item value c)
        c
        λ s i. if sect == s && item == i then some value else lookup i (section s c)
unfolding set ◌>>=◌
set-Becomes sect item value c h = rw h (record {
  done = refl;
  defaults = refl;
  known = λ s.
      ground (arith, h, eq_iff sect s, has-replaced s sect (insert item value (section sect c)) c);
  value = λ s i. ground (
    arith,
    lookup-replaced s sect (insert item value (section sect c)) c,
    lookup-insert i item value (section sect c),
    eq_iff sect s,
  );
})

pub set_all-Becomes :
    (sect : String) (options : List (String × String)) (c : Config)
    → has sect c.sections ≡ true
    → Becomes
        (set_all sect options c)
        c
        λ s i. or_else (if sect == s then latest i options else none) (lookup i (section s c))
unfolding set_all ◌>>=◌
set_all-Becomes sect [] c h = record {
  done = refl;
  defaults = refl;
  known = λ s. refl;
  value = λ s i. ground arith;
}
set_all-Becomes sect ((item, value) ∷ rest) c h =
    let first = set-Becomes sect item value c h in
    let later = set_all-Becomes sect rest (set sect item value c).1 (first.known sect ∙ h) in
    rw first.done (record {
      done = later.done;
      defaults = later.defaults ∙ first.defaults;
      known = λ s. later.known s ∙ first.known s;
      value = λ s i. ground (arith, later.value s i, first.value s i);
    })

-- config.read: what a section of the file has comes before what was there.
pub record IsRead (file c c' : Config) (names : List String) : Type 0 where
  pub defaults : c'.defaults ≡ c.defaults
  pub known : (s : String) → has s c'.sections ≡ (contains s names || has s c.sections)
  pub value :
      (s i : String)
      → lookup i (section s c')
        ≡ or_else
            (if contains s names then latest i (section s file) else none)
            (lookup i (section s c))

lookup-merged :
    (sect : String) (file c : Config) (s i : String)
    → lookup i (section s (merged sect file c))
      ≡ or_else (if sect == s then latest i (section s file) else none) (lookup i (section s c))
lookup-merged sect file c s i = ground (
  arith,
  lookup-replaced s sect (update (section sect c) (section sect file)) c,
  lookup-update i (section s c) (section s file),
  eq_iff sect s,
)

pub read_sections-IsRead :
    (file : Config) (names : List String) (c : Config)
    → IsRead file c (read_sections file names c) names
unfolding read_sections
read_sections-IsRead file [] c = record { defaults = refl; known = λ s. refl; value = λ s i. refl }
read_sections-IsRead file (sect ∷ rest) c =
    let later = read_sections-IsRead file rest (merged sect file c) in
    record {
      defaults = later.defaults;
      known = λ s. ground (
        arith,
        later.known s,
        has-replaced s sect (update (section sect c) (section sect file)) c,
      );
      value = λ s i. ground (arith, later.value s i, lookup-merged sect file c s i);
    }

-- The overrides of the sections that there are come first.
pub override_sections-Becomes :
    (overrides : Config) (names : List String) (c : Config)
    → Becomes (override_sections overrides names c) c λ s i.
      or_else
        (if contains s names && has s c.sections then latest i (items s overrides) else none)
        (lookup i (section s c))
unfolding override_sections ◌>>=◌
override_sections-Becomes overrides [] c = record {
  done = refl;
  defaults = refl;
  known = λ s. refl;
  value = λ s i. refl;
}
override_sections-Becomes overrides (sect ∷ rest) c = elim (Bool-cases (has sect c.sections)) [
  | inr missing ↦
      let later = override_sections-Becomes overrides rest c in
      rw missing (record {
        done = later.done;
        defaults = later.defaults;
        known = later.known;
        value = λ s i. ground (arith, later.value s i, missing, eq_iff sect s);
      })
  | inl present ↦
      let first = set_all-Becomes sect (items sect overrides) c present in
      let later =
        override_sections-Becomes overrides rest (set_all sect (items sect overrides) c).1 in
      rw (present, first.done)
        (record {
          done = later.done;
          defaults = later.defaults ∙ first.defaults;
          known = λ s. later.known s ∙ first.known s;
          value = λ s i.
              ground
                (arith, later.value s i, first.value s i, first.known s, present, eq_iff sect s);
        })
]
