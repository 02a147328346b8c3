-- ===== src/Collectors/Selection/Order.antt =====
-- Which collectors `get_collectors` gives, and in which order (mom/Collectors/Collector.py).
use mom.Prelude.{
  String, ◌≡◌, refl, Option, none, some, Result, ok, err, List, [], ◌∷◌, map, ◌==◌, if◌then◌else◌,
  Bool-cases, inl, inr, ◌↔◌, ap, arith,
}
use mom.Python.Value.{Error}
use mom.Python.Text.{split, lstrip}
use mom.Collectors.Selection.{Config, entry_for, join, collectors_of, get_collectors}

-- the names in a list that are not blank, without leading white space
abbrev pub named : List String → List String
named [] = []
named (w ∷ ws) = if lstrip w == "" then named ws else lstrip w ∷ named ws

loaded : {C : Type 0} → List (Result Error (Option C)) → Result Error (Option (List C))
loaded [] = ok (some [])
loaded (r ∷ rs) = join r (loaded rs)

-- a collector that was created
abbrev pub instantiated : {C : Type 0} → C → Result Error (Option C)
instantiated c = ok (some c)

joined :
    {C : Type 0} (x : C) (rs : List (Result Error (Option C))) (cs : List C)
    (r : Result Error (Option (List C)))
    → ((ds : List C) → loaded rs ≡ ok (some ds) → rs ≡ map instantiated ds)
    → loaded rs ≡ r
    → join (ok (some x)) r ≡ ok (some cs)
    → ok (some x) ∷ rs ≡ map instantiated cs
joined x rs cs (err e) rest h j = absurd (ground (arith, j))
joined x rs cs (ok none) rest h j = absurd (ground (arith, j))
joined x rs cs (ok (some ds)) rest h j =
    let same : x ∷ ds ≡ cs = ground (arith, j) in
    rw (← same) (ap (λ r. instantiated x ∷ r) (rest ds h))

-- All of them were created, and these are they, in this order.
loaded-all :
    {C : Type 0} (rs : List (Result Error (Option C))) (cs : List C)
    → loaded rs ≡ ok (some cs)
    → rs ≡ map instantiated cs
unfolding loaded
loaded-all [] [] h = refl
loaded-all [] (c ∷ cs) h = absurd (ground (arith, h))
loaded-all (err e ∷ rs) cs h = absurd (ground (arith, h))
loaded-all (ok none ∷ rs) cs h = absurd (ground (arith, h))
loaded-all (ok (some x) ∷ rs) cs h = joined x rs cs (loaded rs) (loaded-all rs) refl h

all-loaded : {C : Type 0} (cs : List C) → loaded (map instantiated cs) ≡ ok (some cs)
unfolding loaded
all-loaded [] = refl
all-loaded (c ∷ cs) = rw (all-loaded cs) refl

module _ {C : Type 0} (section : String → Config) (load : String → Config → Result Error (Option C))
    (create : String → Result Error (Option C)) where
  collectors_of-loaded :
      (names : List String) (config : Config)
      → ((name : String) (c : Config) → load name c ≡ create name)
      → collectors_of section load names config ≡ loaded (map create (named names))
  unfolding collectors_of loaded
  collectors_of-loaded [] config h = refl
  collectors_of-loaded (w ∷ ws) config h = elim (Bool-cases (lstrip w == "")) [
    | inl blank ↦ rw blank (collectors_of-loaded ws config h)
    | inr given ↦
        rw (given, h (lstrip w), collectors_of-loaded ws (entry_for (section (lstrip w)) config) h)
          refl
  ]

  -- For collectors that do not look at their configuration: a monitor gets a list of collectors just
  -- if every name that is not blank gives one, and the list is theirs, in the order of the names; no
  -- list if one of them cannot be created.
  pub get_collectors-loaded :
      (config_str : String) (cs : List C)
      → ((name : String) (c : Config) → load name c ≡ create name)
      → (get_collectors section load config_str none ≡ ok (some cs))
        ↔ (map create (named (split b',' config_str)) ≡ map instantiated cs)
  unfolding get_collectors
  get_collectors-loaded config_str cs h =
      rw (collectors_of-loaded (split b',' config_str) none h)
        (loaded-all (map create (named (split b',' config_str))) cs, λ e. rw e (all-loaded cs))
