-- ===== src/PolicyEngine/Loading.antt =====
-- What the policies are after they were set by RPC or loaded from files (mom/PolicyEngine.py).
use mom.Prelude.{
  String, ◌≡◌, inl, inr, refl, ◌∙◌, ap, Bool, true, false, Option, none, some, List, [], ◌∷◌, arith,
  Result, ok, err, eq_iff, eq_refl, ◌==◌, proceed, ◌>>=◌, Bool-cases, if◌then◌else◌,
}
use mom.Prelude.Dict.{Dict, lookup, insert, erase, has, lookup-insert}
use mathlib.Core.Option.{some-injective}
use mathlib.Core.Path.{subst}
use mom.Python.Value.{Error}
use mom.Python.Text.{before}
use mom.Policy.Code.{Code}
use mom.Policy.Store.{
  Store, sorted, cat_policies, or_default, restored, is_policy_error, compiled, or_zero,
  default_policy_name, set_policy, clear_policy,
}
use mom.PolicyEngine.{
  Change, rpc_set_policy, store_text, read_policy, is_policy_file, is_given, read_all,
  load_directory, load_policy, rpc_reset_policy,
}

module _ {V : Type 0} where
  insert-insert :
      (k : String) (v w : V) (d : Dict V) → lookup k d ≡ some v → insert k v (insert k w d) ≡ d
  insert-insert k v w [] h = ground arith
  insert-insert k v w ((j, u) ∷ d) h = ground (arith, insert-insert k v w d, eq_iff j k, eq_refl k)

  erase-insert : (k : String) (w : V) (d : Dict V) → has k d ≡ false → erase k (insert k w d) ≡ d
  erase-insert k w [] h = ground (arith, eq_refl k)
  erase-insert k w ((j, u) ∷ d) h = ground (arith, erase-insert k w d, eq_iff j k, eq_refl k)

  has-insert_self : (k : String) (w : V) (d : Dict V) → has k (insert k w d) ≡ true
  has-insert_self k w [] = ground (arith, eq_refl k)
  has-insert_self k w ((j, u) ∷ d) = ground (arith, has-insert_self k w d, eq_iff j k, eq_refl k)

subst₂_text : (P : String → String → Type 0) {a b c d : String} → a ≡ b → c ≡ d → P a c → P b d
subst₂_text P {b = b} {c = c} p q x = subst (λ y. P b y) q (subst (λ y. P y c) p x)

-- Where a policy comes from: the configured file, or a file of the configured directory whose name
-- ends in `.policy` and does not start with a dot.
pub data FromFile (read : String → Result Error (Option String)) (join : String → String → String)
    (policy policy_dir name text : String) : Type 0 where
  file :
      name ≡ default_policy_name
      → read policy ≡ ok (some text)
      → FromFile read join policy policy_dir name text
  entry :
      (entry_name : String)
      → is_policy_file entry_name ≡ true
      → name ≡ before ".policy" entry_name
      → read (join policy_dir entry_name) ≡ ok (some text)
      → FromFile read join policy policy_dir name text

-- A refused new text leaves the dictionary as it was.
restored-insert :
    (name text : String) (d : Dict String)
    → restored name (lookup name d) (insert name text d) ≡ (ok false, d)
restored-insert name text d = by_old (lookup name d) refl
  where
    by_old :
        (old : Option String)
        → lookup name d ≡ old
        → restored name old (insert name text d) ≡ (ok false, d)
    by_old none h =
        rw (has-insert_self name text d)
          (ap (λ e. (ok false, e)) (erase-insert name text d (ground arith)))
    by_old (some old) h = ap (λ e. (ok false, e)) (insert-insert name old text d h)

module _ (get_code : String → Result Error (List Code)) where
  -- The code belongs to the texts; or there are neither, as after `clear_policy`.
  pub data IsCurrent (s : Store) : Type 0 where
    compiled_from : get_code (cat_policies s.policy_strings) ≡ ok s.code → IsCurrent s
    cleared : s ≡ clear_policy → IsCurrent s

  unfoldable pub text_set :
      String → String → Store → Result Error (List Code) → Result Error Bool × Store
  text_set name text s (ok code) =
      (ok true, record { policy_strings = insert name text s.policy_strings; code = code })
  text_set name text s (err e) =
      if is_policy_error e
      then (ok false, s)
      else (err e, record s { policy_strings = insert name text s.policy_strings })

  pub set_policy-text :
      (name : Option String) (text : String) (s : Store)
      → set_policy get_code name (some text) s
        ≡ text_set
            (or_default name)
            text
            s
            (get_code (cat_policies (insert (or_default name) text s.policy_strings)))
  unfolding set_policy text_set
  set_policy-text name text s =
      by_code (get_code (cat_policies (insert (or_default name) text s.policy_strings)))
    where
      by_code :
          (code : Result Error (List Code))
          → compiled
              (or_default name)
              (lookup (or_default name) s.policy_strings)
              (insert (or_default name) text s.policy_strings)
              code
              s
            ≡ text_set (or_default name) text s code
      by_code (ok code) = refl
      by_code (err e) = rw (restored-insert (or_default name) text s.policy_strings) refl

  -- What is left when a text has replaced all policies.
  abbrev pub replaced : String → Result Error (List Code) → Result Error Bool × Store
  replaced text (ok code) =
      (ok true, record { policy_strings = (default_policy_name, text) ∷ []; code = code })
  replaced text (err e) =
      if is_policy_error e
      then (ok false, record { policy_strings = []; code = [] })
      else (err e, record { policy_strings = (default_policy_name, text) ∷ []; code = [] })

  -- A policy text that RPC sets replaces all policies: from then on it is the only one, with its
  -- code; or, if it gives a PolicyError, there is no policy at all; or, if get_code raises another
  -- exception, this is raised, and the text is the only one, with no code.
  pub rpc_set_policy-eq :
      (text : String) (s : Store)
      → rpc_set_policy get_code (some text) s ≡ replaced text (get_code (or_zero text))
  unfolding rpc_set_policy cat_policies clear_policy text_set
  rpc_set_policy-eq text s =
      set_policy-text none text clear_policy ∙ by_code (get_code (or_zero text))
    where
      by_code :
          (code : Result Error (List Code))
          → text_set default_policy_name text clear_policy code ≡ replaced text code
      by_code (ok c) = refl
      by_code (err e) = refl

  -- Every text has a source.
  abbrev pub AllFrom : (String → String → Type 0) → Store → Type 0
  AllFrom Source s =
      (name text : String) → lookup name s.policy_strings ≡ some text → Source name text

  -- Why loading ended by an exception: get_code raised it on the texts that are there, and it is no
  -- PolicyError; or the file system did, and the code is that of the policies, or there is neither.
  pub data Escape (Raises : Error → Type 0) (e : Error) (s : Store) : Type 0 where
    by_code :
        get_code (cat_policies s.policy_strings) ≡ err e
        → is_policy_error e ≡ false
        → Escape Raises e s
    by_files : Raises e → IsCurrent s → Escape Raises e s

  abbrev pub Loaded :
      {A : Type 0} → (String → String → Type 0) → (Error → Type 0) → Result Error A × Store → Type 0
  Loaded Source Raises (ok a, s) = IsCurrent s × AllFrom Source s
  Loaded Source Raises (err e, s) = Escape Raises e s × AllFrom Source s

  module _ (Source : String → String → Type 0) (Raises : Error → Type 0) where
    inserted-AllFrom :
        (name text : String) (s : Store)
        → Source name text
        → AllFrom Source s
        → (code : List Code)
        → AllFrom Source
            (record { policy_strings = insert name text s.policy_strings; code = code })
    inserted-AllFrom name text s source h code k t found = elim (Bool-cases (name == k)) [
      | inl same ↦
          subst₂_text Source ((eq_iff name k).0 same)
            (some-injective text t (rw (lookup-insert k name text s.policy_strings, same) at found))
            source
      | inr other ↦ h k t (rw (lookup-insert k name text s.policy_strings, other) at found)
    ]

    text_set-Loaded :
        (name text : String) (s : Store) (code : Result Error (List Code))
        → get_code (cat_policies (insert name text s.policy_strings)) ≡ code
        → Source name text
        → IsCurrent s × AllFrom Source s
        → Loaded Source Raises (text_set name text s code)
    unfolding text_set
    text_set-Loaded name text s (ok code) e source h =
        (compiled_from e, inserted-AllFrom name text s source h.1 code)
    text_set-Loaded name text s (err x) e source h = elim (Bool-cases (is_policy_error x)) [
      | inl caught ↦ rw caught h
      | inr uncaught ↦
          rw uncaught (by_code e uncaught, inserted-AllFrom name text s source h.1 s.code)
    ]

    set_policy-Loaded :
        (name : Option String) (text : String) (s : Store)
        → Source (or_default name) text
        → IsCurrent s × AllFrom Source s
        → Loaded Source Raises (set_policy get_code name (some text) s)
    set_policy-Loaded name text s source h =
        rw (set_policy-text name text s) (text_set-Loaded (or_default name) text s _ refl source h)

    -- one action after another
    Loaded-then :
        {A B : Type 0} (r : Result Error A × Store) (f : A → Change B)
        → Loaded Source Raises r
        → ((a : A) (s : Store) → IsCurrent s × AllFrom Source s → Loaded Source Raises (f a s))
        → Loaded Source Raises (proceed r.0 f r.1)
    Loaded-then (ok a, s) f h k = k a s h
    Loaded-then (err e, s) f h k = h

  clear_policy-Loaded :
      (Source : String → String → Type 0) → IsCurrent clear_policy × AllFrom Source clear_policy
  unfolding clear_policy
  clear_policy-Loaded Source = (cleared refl, λ name text h. absurd (ground arith))

  module _ (read : String → Result Error (Option String))
      (list_dir : String → Result Error (Option (List String)))
      (join : String → String → String) where
    -- The file system raised it: for a file that was read, or for the directory.
    pub data FileError (e : Error) : Type 0 where
      of_file : (file_name : String) → read file_name ≡ err e → FileError e
      of_dir : (dir : String) → list_dir dir ≡ err e → FileError e

    module _ (policy policy_dir : String) where
      abbrev pub IsLoaded : {A : Type 0} → Result Error A × Store → Type 0
      IsLoaded r = Loaded (FromFile read join policy policy_dir) FileError r

      abbrev IsFine : Store → Type 0
      IsFine s = IsCurrent s × AllFrom (FromFile read join policy policy_dir) s

      read_policy-IsLoaded :
          (file_name : String) (name : Option String) (s : Store)
          → ((text : String)
              → read file_name ≡ ok (some text)
              → FromFile read join policy policy_dir (or_default name) text)
          → IsFine s
          → IsLoaded (read_policy get_code read list_dir join file_name name s)
      unfolding read_policy
      read_policy-IsLoaded file_name name s source h = by_text (read file_name) refl
        where
          by_text :
              (t : Result Error (Option String))
              → read file_name ≡ t
              → IsLoaded (store_text get_code read list_dir join name t s)
          by_text (err x) e = (by_files (of_file file_name e) h.0, h.1)
          by_text (ok none) e = h
          by_text (ok (some t)) e =
              set_policy-Loaded (FromFile read join policy policy_dir) FileError name t s
                (source t e) h

      read_all-IsLoaded :
          (names : List String) (s : Store)
          → IsFine s
          → IsLoaded (read_all get_code read list_dir join policy_dir names s)
      unfolding read_all ◌>>=◌
      read_all-IsLoaded [] s h = h
      read_all-IsLoaded (n ∷ names) s h = elim (Bool-cases (is_policy_file n)) [
        | inl is_file ↦ rw is_file (
            Loaded-then (FromFile read join policy policy_dir) FileError _ _
              (read_policy-IsLoaded (join policy_dir n) (some (before ".policy" n)) s
                (λ text e. entry n is_file refl e) h)
              (λ a s' k. read_all-IsLoaded names s' k))
        | inr skipped ↦ rw skipped (read_all-IsLoaded names s h)
      ]

      load_directory-IsLoaded :
          (names : Result Error (Option (List String))) (s : Store)
          → list_dir policy_dir ≡ names
          → IsFine s
          → IsLoaded (load_directory get_code read list_dir join policy_dir names s)
      unfolding ◌>>=◌
      load_directory-IsLoaded (err x) s e h = (by_files (of_dir policy_dir e) h.0, h.1)
      load_directory-IsLoaded (ok none) s e h = h
      load_directory-IsLoaded (ok (some names)) s e h =
          Loaded-then (FromFile read join policy policy_dir) FileError _ _
            (read_all-IsLoaded (sorted names) s h) (λ a s' k. k)

      -- What loading from a new start leaves, whatever was there before.
      pub rpc_reset_policy-Loaded :
          (s : Store) → IsLoaded (rpc_reset_policy get_code read list_dir join policy policy_dir s)
      unfolding rpc_reset_policy load_policy ◌>>=◌
      rpc_reset_policy-Loaded s = elim (Bool-cases (is_given policy)) [
        | inl given ↦ rw given (
            Loaded-then (FromFile read join policy policy_dir) FileError _ _
              (read_policy-IsLoaded policy none clear_policy (λ text e. file refl e) start)
              (λ a s' k. k))
        | inr not_given ↦ rw not_given (elim (Bool-cases (is_given policy_dir)) [
          | inl given ↦
              rw given (load_directory-IsLoaded (list_dir policy_dir) clear_policy refl start)
          | inr none_given ↦ rw none_given start
        ])
      ]
        where
          start : IsFine clear_policy
          start = clear_policy-Loaded (FromFile read join policy policy_dir)
