-- ===== src/Daemon/Config.antt =====
-- MOM._load_config and MOM._validate_config of mom/__init__.py. ConfigParser is a state: the section
-- DEFAULT, whose options every section has, and the named sections. The file and the overrides are
-- given as the parser reads them, their option names in lower case and without a `%`.
pub mod Changes
pub mod Internal
pub mod Precedence
use mom.Prelude.{
  String, Bool, true, false, not, ◌&&◌, Option, none, some, List, [], ◌∷◌, Result, Exec, pure,
  raise, lift, gets, or_raise, modify, ◌>>=◌, ◌>>◌, ◌==◌, if◌then◌else◌,
}
use mom.Prelude.Dict.{Dict, lookup, has, insert, erase, update, keys}
use mom.Python.Value.{Error, key_error}
use mom.Daemon.PlotDir.{plot_subdir}

pub record Config : Type 0 where
  pub defaults : Dict String
  pub sections : Dict (Dict String)

abbrev pub or_empty : Option (Dict String) → Dict String
or_empty none = []
or_empty (some d) = d

abbrev pub section : String → Config → Dict String
section name c = or_empty (lookup name c.sections)

-- config.items(sect)
abbrev pub items : String → Config → Dict String
items sect c = update c.defaults (section sect c)

abbrev pub or_else {ℓ} : {A : Type ℓ} → Option A → Option A → Option A
or_else none other = other
or_else (some a) other = some a

-- config.get(sect, item): `none` for NoSectionError and NoOptionError
unfoldable pub option : String → String → Config → Option String
option sect item c =
    if has sect c.sections
    then or_else (lookup item (section sect c)) (lookup item c.defaults)
    else none

abbrev pub Step : Type 0 → Type 0
Step A = Exec Config Error A

abbrev pub replaced : String → Dict String → Config → Config
replaced sect d c = record c { sections = insert sect d c.sections }

-- a NoSectionError and a DuplicateSectionError are a `key_error`
unfoldable pub set : String → String → String → Step (Unit {0})
set sect item value = do
  present ← gets (λ c. has sect c.sections)
  if present
      then modify (λ c. replaced sect (insert item value (section sect c)) c)
      else raise key_error

unfoldable pub add_section : String → Step (Unit {0})
add_section sect = do
  present ← gets (λ c. has sect c.sections)
  if present then raise key_error else modify (replaced sect [])

unfoldable pub set_all : String → List (String × String) → Step (Unit {0})
unfolding set
set_all sect [] = pure tt
set_all sect ((item, value) ∷ rest) = do set sect item value; set_all sect rest

abbrev pub main_options : List (String × String)
main_options =
    ("main-loop-interval", "5")
    ∷ ("host-monitor-interval", "5")
    ∷ ("guest-manager-interval", "5")
    ∷ ("hypervisor-interface", "libvirt")
    ∷ ("guest-monitor-interval", "5")
    ∷ ("policy-engine-interval", "10")
    ∷ ("sample-history-length", "10")
    ∷ ("libvirt-hypervisor-uri", "")
    ∷ ("controllers", "Balloon")
    ∷ ("plot-dir", "")
    ∷ ("rpc-port", "-1")
    ∷ ("policy", "")
    ∷ ("policy-dir", "")
    ∷ ("guest-manager-multi-thread", "true")
    ∷ []

abbrev pub logging_options : List (String × String)
logging_options =
    ("log", "stdio") ∷ ("verbosity", "info") ∷ ("max-bytes", "2097152") ∷ ("backup-count", "5") ∷ []

unfoldable pub set_built_in : Step (Unit {0})
unfolding add_section set_all
set_built_in = do
  add_section "main"
  set_all "main" main_options
  add_section "logging"
  set_all "logging" logging_options
  add_section "host"
  set "host" "collectors" "HostMemory"
  add_section "guest"
  set "guest" "collectors" "GuestQemuProc, GuestMemory"

-- config.read: a section of the file is added or updated; `file` has no section if there is no file
abbrev pub merged : String → Config → Config → Config
merged sect file c = replaced sect (update (section sect c) (section sect file)) c

unfoldable pub read_sections : Config → List String → Config → Config
read_sections file [] c = c
read_sections file (sect ∷ rest) c = read_sections file rest (merged sect file c)

unfoldable pub read : Config → Step (Unit {0})
unfolding read_sections
read file = do
  modify (λ c. record c { defaults = update c.defaults file.defaults })
  modify (read_sections file (keys file.sections))

-- the loop over the sections of the overrides
unfoldable pub override_sections : Config → List String → Step (Unit {0})
unfolding set_all
override_sections overrides [] = pure tt
override_sections overrides (sect ∷ rest) =
    let later = override_sections overrides rest in
    do
      present ← gets (λ c. has sect c.sections)
      if present then (do set_all sect (items sect overrides); later) else later

abbrev pub override : Option Config → Step (Unit {0})
override none = pure tt
override (some overrides) = override_sections overrides (keys overrides.sections)

unfoldable pub remove_section : String → Config → Config
remove_section sect c = record c { sections = erase sect c.sections }

module _ (list_dir : String → Option (List String)) (mkdir : String → Bool) where
  -- the thread-global variables; there is no logger yet
  unfoldable pub set_internal : Step (Unit {0})
  unfolding remove_section add_section set option
  set_internal = do
    modify (remove_section "__int__")
    add_section "__int__"
    set "__int__" "running" "0"
    configured ← gets (option "main" "plot-dir")
    basedir ← or_raise configured key_error
    plot_dir ← lift (plot_subdir list_dir mkdir false basedir)
    set "__int__" "plot-subdir" plot_dir

  unfoldable pub load_config : Config → Option Config → Step (Unit {0})
  unfolding set_built_in read override_sections set_internal
  load_config file overrides = do
    modify (λ c. record { defaults = []; sections = [] })
    set_built_in
    read file
    override overrides
    set_internal

-- a policy or a directory of policies, but not both; `none` for the NoOptionError
abbrev pub not_both : Option String → Option String → Option Bool
not_both (some policy) (some policy_dir) = some (not (not (policy == "") && not (policy_dir == "")))
not_both _ _ = none

unfoldable pub validate_config : Config → Option Bool
unfolding option
validate_config c = not_both (option "main" "policy" c) (option "main" "policy-dir" c)
