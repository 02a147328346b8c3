-- ===== src/Policy/Store/Laws.antt =====
-- What a change of a policy does to the texts and the code (mom/Policy/Policy.py).
use mom.Prelude.{
  String, ◌≡◌, refl, Bool, true, false, Option, none, some, List, [], ◌∷◌, arith, Result, ok, err,
  Bool-cases, inl, inr, eq_iff, eq_refl, ◌==◌, if◌then◌else◌,
}
use mom.Prelude.Dict.{Dict, lookup, insert, erase, has, lookup-insert, lookup-erase}
use mom.Python.Value.{Error}
use mom.Policy.Code.{Code}
use mom.Policy.Store.{
  Store, cat_policies, or_default, changed, restored, is_policy_error, compiled, set_policy,
}

-- a dictionary without the key is the same after `erase`
erase-missing : {V : Type 0} (k : String) (d : Dict V) → has k d ≡ false → erase k d ≡ d
erase-missing k [] h = refl
erase-missing k ((j, v) ∷ d) h = ground (arith, erase-missing k d)

has-insert : {V : Type 0} (k : String) (v : V) (d : Dict V) → has k (insert k v d) ≡ true
has-insert k v d = rw (lookup-insert k k v d, eq_refl k) refl

lookup-changed :
    (name j : String) (text : Option String) (d : Dict String)
    → lookup j (changed name text d) ≡ (if name == j then text else lookup j d)
lookup-changed name j none d = lookup-erase j name d
lookup-changed name j (some t) d = lookup-insert j name t d

module _ (get_code : String → Result Error (List Code)) where
  abbrev pub raises_policy_error : Result Error (List Code) → Bool
  raises_policy_error (ok code) = false
  raises_policy_error (err e) = is_policy_error e

  -- The texts that the store holds do not give a PolicyError.
  abbrev pub IsAccepted : Dict String → Type 0
  IsAccepted strings = raises_policy_error (get_code (cat_policies strings)) ≡ false

  -- An accepted change: the name has its new text, or none if it was deleted, the other names keep
  -- theirs, and the code is that of the new texts.
  pub record Accepted (name : String) (text : Option String) (s s' : Store) : Type 0 where
    pub texts :
        (j : String)
        → lookup j s'.policy_strings ≡ (if name == j then text else lookup j s.policy_strings)
    pub current : get_code (cat_policies s'.policy_strings) ≡ ok s'.code

  -- A refused change: every name has its old text, the code is the old one, and the texts that the
  -- change would have given are a PolicyError.
  pub record Refused (name : String) (text : Option String) (s s' : Store) : Type 0 where
    pub texts : (j : String) → lookup j s'.policy_strings ≡ lookup j s.policy_strings
    pub code : s'.code ≡ s.code
    pub rejected :
        raises_policy_error (get_code (cat_policies (changed name text s.policy_strings))) ≡ true

  -- An exception that escapes: the name has its new text, but the code is the old one, and the
  -- exception is that of the new texts, and no PolicyError.
  pub record Escaped (name : String) (text : Option String) (s s' : Store) (e : Error)
      : Type 0 where
    pub texts :
        (j : String)
        → lookup j s'.policy_strings ≡ (if name == j then text else lookup j s.policy_strings)
    pub code : s'.code ≡ s.code
    pub uncaught : is_policy_error e ≡ false
    pub source : get_code (cat_policies s'.policy_strings) ≡ err e

  abbrev pub Changed : String → Option String → Store → Result Error Bool → Store → Type 0
  Changed name text s (ok true) s' = Accepted name text s s'
  Changed name text s (ok false) s' = Refused name text s s'
  Changed name text s (err e) s' = Escaped name text s s' e

  -- the handler puts back what was there
  restored-Refused :
      (name : String) (text old : Option String) (s : Store)
      → lookup name s.policy_strings ≡ old
      → IsAccepted s.policy_strings
      → raises_policy_error (get_code (cat_policies (changed name text s.policy_strings))) ≡ true
      → let r = restored name old (changed name text s.policy_strings) in
        Changed name text s r.0 (record s { policy_strings = r.1 })
  restored-Refused name text (some old) s was fine bad = record {
    texts = λ j. ground (
      arith,
      lookup-insert j name old (changed name text s.policy_strings),
      lookup-changed name j text s.policy_strings,
      eq_iff name j,
    );
    code = refl;
    rejected = bad;
  }
  restored-Refused name none none s was fine bad =
      let same = rw (erase-missing name s.policy_strings (ground arith)) at bad in cc
  restored-Refused name (some t) none s was fine bad =
      rw (has-insert name t s.policy_strings) (record {
        texts = λ j. ground (
          arith,
          lookup-erase j name (insert name t s.policy_strings),
          lookup-insert j name t s.policy_strings,
          eq_iff name j,
        );
        code = refl;
        rejected = bad;
      })

  compiled-Changed :
      (name : String) (text : Option String) (s : Store) (code : Result Error (List Code))
      → IsAccepted s.policy_strings
      → get_code (cat_policies (changed name text s.policy_strings)) ≡ code
      → let r =
          compiled name
            (lookup name s.policy_strings)
            (changed name text s.policy_strings)
            code
            s in
        Changed name text s r.0 r.1
  compiled-Changed name text s (ok code) fine e = record {
    texts = λ j. lookup-changed name j text s.policy_strings;
    current = e;
  }
  compiled-Changed name text s (err x) fine e = elim (Bool-cases (is_policy_error x)) [
    | inl caught ↦
        rw caught
          (restored-Refused name text (lookup name s.policy_strings) s refl fine (rw e caught))
    | inr uncaught ↦ rw uncaught (record {
      texts = λ j. lookup-changed name j text s.policy_strings;
      code = refl;
      uncaught = uncaught;
      source = e;
    })
  ]

  -- From texts that give no PolicyError, a change either is accepted, and the name has its new text
  -- and the code is that of the new texts; or is refused, and every text and the code are the old
  -- ones, and the new texts give a PolicyError; or get_code raises another exception on the new
  -- texts, which escapes, and then the new text is stored beside the old code. No other exception
  -- escapes.
  pub set_policy-Changed :
      (name text : Option String) (s : Store)
      → IsAccepted s.policy_strings
      → let r = set_policy get_code name text s in Changed (or_default name) text s r.0 r.1
  unfolding set_policy
  set_policy-Changed name text s fine = compiled-Changed (or_default name) text s _ fine refl
