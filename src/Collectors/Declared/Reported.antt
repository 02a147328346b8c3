-- ===== src/Collectors/Declared/Reported.antt =====
-- Collectors whose fields are all optional never hold a monitor up (mom/Collectors/*Optional.py,
-- mom/Monitor.py).
use mom.Prelude.{ℕ, true, ◌≡◌, refl, none, some, List, [], ◌∷◌, is_some}
use mom.Prelude.Dict.{Dict}
use mom.Python.Value.{Value}
use mom.Monitor.{Collected, Collector, Monitor, merge, fields_of, all_fields, collect}
use mom.Monitor.Sets.{union, superset}
use mom.Collectors.Declared.{Fields, made_optional, declaring}

module _ {R : Type 0} where
  -- the collectors of a round, all made optional
  abbrev pub optional_collectors : List (Fields × Collected R) → List (Collector R)
  optional_collectors [] = []
  optional_collectors ((f, collected) ∷ rest) =
      declaring (made_optional f) collected ∷ optional_collectors rest

  all_fields-made_optional :
      (cs : List (Fields × Collected R)) → all_fields (optional_collectors cs) ≡ []
  unfolding made_optional union
  all_fields-made_optional [] = refl
  all_fields-made_optional ((f, collected) ∷ cs) = rw (all_fields-made_optional cs) refl

  fields_of-made_optional :
      (cs : List (Fields × Collected R)) (m : Monitor R)
      → m.fields ≡ none
      → fields_of (optional_collectors cs) m ≡ []
  unfolding fields_of
  fields_of-made_optional cs m first = rw first (all_fields-made_optional cs)

  -- In a round of a new monitor whose collectors are all of the optional kind, and of which none
  -- reports a fatal error, the monitor gets its row, whatever the collectors left out or raised.
  pub collect-made_optional :
      (limit : ℕ) (cs : List (Fields × Collected R)) (m : Monitor R) (taken : Dict (Value R))
      → m.fields ≡ none
      → merge (optional_collectors cs) [] ≡ some taken
      → is_some (collect limit (optional_collectors cs) m).0 ≡ true
  unfolding collect superset
  collect-made_optional limit cs m taken first merged =
      rw (merged, fields_of-made_optional cs m first) refl
