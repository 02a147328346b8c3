-- ===== src/Daemon/PlotDir/Fresh.antt =====
-- The directory for plots is a new one (mom/__init__.py, _get_plot_subdir).
use Prim.Native.Char.{code}
use mom.Prelude.{
  ℕ, ◌+◌, ◌/◌, ◌%◌, ◌≤◌, ◌*◌, ◌<◌, String, ◌≡◌, refl, ap, ◌∙◌, Bool, true, false, Option, none,
  some, List, [], ◌∷◌, Result, ok, ltb, ◌==◌, eq_iff, arith, contains, Bool-cases, Option-cases,
  inl, inr, eq_refl, ◌⊎◌,
}
use mom.Python.Value.{Error}
use mom.Python.Arith.{append_text}
use mom.Python.Print.{digit_text}
use mom.Python.Text.Decimal.{IsDigitText, digit_text-IsDigitText}
use mom.Daemon.PlotDir.{
  after, decimal, three_digits, number_of, number_in, above, next_number, padded, plot_name,
  plot_path, warned, made_at, plot_subdir,
}

decimal-value :
    {d : ℕ} {text : String} → d < 10 → (t : IsDigitText d text) → decimal (code t.char) ≡ some d
unfolding decimal
decimal-value h t = ground (arith, t.value)

three_digits-text :
    (a b c : ℕ)
    → a < 10
    → b < 10
    → c < 10
    → three_digits (append_text (digit_text a) (append_text (digit_text b) (digit_text c)))
      ≡ some (a * 100 + b * 10 + c)
unfolding three_digits
three_digits-text a b c ha hb hc =
    let ta = digit_text-IsDigitText a ha in
    let tb = digit_text-IsDigitText b hb in
    let tc = digit_text-IsDigitText c hc in
    rw (ta.single, tb.single, tc.single)
      (rw (decimal-value ha ta, decimal-value hb tb, decimal-value hc tc) refl)

three_digits-padded : (n : ℕ) → n < 1000 → three_digits (padded n) ≡ some n
unfolding padded
three_digits-padded n h =
    let small : ltb n 1000 ≡ true = ground arith in
    let sum : n / 100 * 100 + n / 10 % 10 * 10 + n % 10 ≡ n = omega arith in
    rw small (
      three_digits-text (n / 100) (n / 10 % 10) (n % 10) (omega arith) (omega arith) (omega arith)
      ∙ ap some sum)

after-append : (p s : String) → after p (append_text p s) ≡ some s
unfolding after
after-append String.[] s = refl
after-append (String.◌∷◌ c p) s = ground (arith, after-append p s)

number_of-plot_name : (n : ℕ) → n < 1000 → number_of (plot_name n) ≡ some n
unfolding number_of
number_of-plot_name n h =
    ap number_in (after-append "momplot-" (padded n)) ∙ three_digits-padded n h

next_number-ge : (next : ℕ) (names : List String) → next ≤ next_number next names
unfolding next_number
next_number-ge next [] = omega arith
next_number-ge next (name ∷ names) = elim (Option-cases (number_of name)) [
  | inl e ↦ rw e (next_number-ge next names)
  | inr (k, e) ↦ ground (arith, e, next_number-ge (above (number_of name) next) names)
]

-- the number found is above the number of every directory in the list
next_number-lt :
    (name : String) (k : ℕ) (names : List String) (next : ℕ)
    → contains name names ≡ true
    → number_of name ≡ some k
    → k < next_number next names
unfolding next_number
next_number-lt name k [] next h e = absurd (ground (arith, h))
next_number-lt name k (x ∷ names) next h e = elim (Bool-cases (x == name)) [
  | inl same ↦
      let found : number_of x ≡ some k = rw ((eq_iff x name).0 same) e in
      rw found (ground (arith, next_number-ge (above (some k) next) names))
  | inr other ↦ next_number-lt name k names _ (ground (arith, h, other)) e
]

-- a directory of the list with the number k
abbrev pub IsThere : ℕ → List String → Type 0
IsThere k names = (name : String) × (contains name names ≡ true) × (number_of name ≡ some k)

IsThere-cons : (x : String) (names : List String) {k : ℕ} → IsThere k names → IsThere k (x ∷ names)
IsThere-cons x names (name, h, e) = (name, ground (arith, h), e)

-- the number found is the one it began with, or follows that of a directory in the list
next_number-IsThere :
    (names : List String) (next : ℕ)
    → (next_number next names ≡ next)
      ⊎ ((k : ℕ) × IsThere k names × (next_number next names ≡ k + 1))
unfolding next_number
next_number-IsThere [] next = inl refl
next_number-IsThere (x ∷ names) next = elim (Option-cases (number_of x)) [
  | inl e ↦ rw e (elim (next_number-IsThere names next) [
    | inl same ↦ inl same
    | inr (k, there, found) ↦ inr (k, IsThere-cons x names there, found)
  ])
  | inr (j, e) ↦ rw e (elim (next_number-IsThere names (above (some j) next)) [
    | inl same ↦ elim (Bool-cases (ltb j next)) [
      | inl small ↦ inl (ground (arith, same, small))
      | inr large ↦ inr (j, (x, ground (arith, eq_refl x), e), ground (arith, same, large))
    ]
    | inr (k, there, found) ↦ inr (k, IsThere-cons x names there, found)
  ])
]

-- a name with a number that no directory of the list has is not in the list
fresh_name :
    (n : ℕ) (names : List String)
    → n < 1000
    → n ≡ next_number 0 names
    → contains (plot_name n) names ≡ false
fresh_name n names small e = elim (Bool-cases (contains (plot_name n) names)) [
  | inl there ↦
      let less = next_number-lt (plot_name n) n names 0 there (number_of-plot_name n small) in
      absurd (omega (arith, less, e))
  | inr missing ↦ missing
]

module _ (list_dir : String → Option (List String)) (mkdir : String → Bool) (has_logger : Bool)
    (basedir : String) where
  abbrev warning : Result Error String
  warning = warned list_dir mkdir has_logger

  -- How the directory for the plots came about, or why there is none.
  pub data Outcome (result : Result Error String) : Type 0 where
    unwanted : basedir ≡ "" → result ≡ ok "" → Outcome result
    unreadable : list_dir basedir ≡ none → result ≡ warning → Outcome result
    -- the last number is taken
    full :
        (names : List String) (k : ℕ)
        → list_dir basedir ≡ some names
        → IsThere k names
        → 999 ≤ k
        → result ≡ warning
        → Outcome result
    refused : (n : ℕ) → mkdir (plot_path basedir n) ≡ false → result ≡ warning → Outcome result
    -- a new directory, whose number is above all that are there
    made :
        (names : List String) (n : ℕ)
        → list_dir basedir ≡ some names
        → n < 1000
        → ((k : ℕ) → IsThere k names → k < n)
        → contains (plot_name n) names ≡ false
        → mkdir (plot_path basedir n) ≡ true
        → result ≡ ok (plot_path basedir n)
        → Outcome result

  made_at-Outcome :
      (names : List String)
      → list_dir basedir ≡ some names
      → Outcome (made_at list_dir mkdir has_logger basedir (next_number 0 names))
  made_at-Outcome names listed =
      let n = next_number 0 names in
      elim (Bool-cases (ltb 999 n)) [
        | inl late ↦ elim (next_number-IsThere names 0) [
          | inl same ↦ absurd (ground (arith, same, late))
          | inr (k, there, found) ↦
              full names k listed there (ground (arith, found, late)) (rw late refl)
        ]
        | inr early ↦ elim (Bool-cases (mkdir (plot_path basedir n))) [
          | inl done ↦
              made names n listed (ground (arith, early))
                (λ k there. next_number-lt there.0 k names 0 there.1 there.2)
                (fresh_name n names (ground (arith, early)) refl) done (rw (early, done) refl)
          | inr failed ↦ refused n failed (rw (early, failed) refl)
        ]
      ]

  -- Every case of _get_plot_subdir: no directory is wanted, the base directory cannot be read, the
  -- number 999 is taken, the directory cannot be made, or there is a new directory, of a name that
  -- the base directory did not have and with a number above every other's.
  pub plot_subdir-Outcome : Outcome (plot_subdir list_dir mkdir has_logger basedir)
  unfolding plot_subdir
  plot_subdir-Outcome = elim (Bool-cases (basedir == "")) [
    | inl empty ↦ unwanted ((eq_iff basedir "").0 empty) (rw empty refl)
    | inr given ↦ elim (Option-cases (list_dir basedir)) [
      | inl e ↦ unreadable e (rw (given, e) refl)
      | inr (names, e) ↦ rw (given, e) (made_at-Outcome names e)
    ]
  ]
