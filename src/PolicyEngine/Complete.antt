-- ===== src/PolicyEngine/Complete.antt =====
-- What loading of the policies leaves out (mom/PolicyEngine.py): only what was refused.
use mom.Prelude.{
  String, ◌≡◌, ◌⊎◌, true, Option, some, List, [], ◌∷◌, Result, ok, err, if◌then◌else◌,
}
use mom.Prelude.Dict.{Dict, insert, has}
use mom.Python.Value.{Error}
use mom.Python.Text.{before}
use mom.Policy.Code.{Code}
use mom.Policy.Store.{Store, sorted, cat_policies, is_policy_error, default_policy_name}
use mom.PolicyEngine.{is_policy_file, is_given}

module _ (get_code : String → Result Error (List Code)) where
  -- A text that gave a PolicyError, put beside some policies.
  abbrev pub IsRefused : String → String → Type 0
  IsRefused name text =
      (d : Dict String) × (e : Error) × (get_code (cat_policies (insert name text d)) ≡ err e)
      × (is_policy_error e ≡ true)

  -- There is a policy of the name, or the text was refused.
  abbrev pub IsKept : String → String → Store → Type 0
  IsKept name text s = (has name s.policy_strings ≡ true) ⊎ IsRefused name text

  abbrev Keeps : Store → Store → Type 0
  Keeps s s' = (k : String) → has k s.policy_strings ≡ true → has k s'.policy_strings ≡ true

  module _ (read : String → Result Error (Option String))
      (list_dir : String → Result Error (Option (List String)))
      (join : String → String → String) where
    -- The text of a file that could be read is kept as the policy of that name.
    abbrev pub IsKeptFile : String → Result Error (Option String) → Store → Type 0
    IsKeptFile name (ok (some text)) s = IsKept name text s
    IsKeptFile name _ s = Unit

    -- of policies with their files
    abbrev pub AllKept : List (String × String) → Store → Type 0
    AllKept [] s = Unit
    AllKept ((name, file_name) ∷ files) s = IsKeptFile name (read file_name) s × AllKept files s

    abbrev pub IsComplete : {A : Type 0} → List (String × String) → Result Error A × Store → Type 0
    IsComplete files (ok a, s) = AllKept files s
    IsComplete files (err e, s) = Unit

    module _ (policy_dir : String) where
      -- The policies that the names in the directory stand for, with their files.
      abbrev pub files_of : List String → List (String × String)
      files_of [] = []
      files_of (n ∷ names) =
          if is_policy_file n
          then (before ".policy" n, join policy_dir n) ∷ files_of names
          else files_of names

      abbrev pub files_listed : Result Error (Option (List String)) → List (String × String)
      files_listed (ok (some names)) = files_of (sorted names)
      files_listed _ = []

    -- The policies that the configuration asks for, with their files: the one file, or those of the
    -- directory whose names end in `.policy` and do not start with a dot.
    abbrev pub configured : String → String → List (String × String)
    configured policy policy_dir =
        if is_given policy
        then (default_policy_name, policy) ∷ []
        else if is_given policy_dir
        then files_listed policy_dir (list_dir policy_dir)
        else []
