-- ===== src/Controllers/Ksm/Outputs.antt =====
-- What mom/Controllers/KSM.py sends: the parameters that a rule set to a new value, in one call.
use mom.Prelude.{
  ◌≡◌, ◌∙◌, ap, refl, sym, String, Option, none, some, List, [], ◌∷◌, ◌++◌, arith, Result, ok, err,
  ◌>>=◌, lift, pure, contains, eq_iff, ◌==◌, if◌then◌else◌, Bool-cases, inl, inr, proceed,
}
use mom.Prelude.Int.{ℤ}
use mom.Prelude.Dict.{Dict, lookup, insert, lookup-insert}
use mom.Python.Value.{Floats, Error, Value, int, is_none}
use mom.Python.Order.{value_eq}
use mom.Python.Arith.{to_int}
use mom.Entity.{Entity, or_none, get_control}
use mom.Controllers.Calls.{Call, ksm_tune, emit}
use mom.Controllers.Ksm.{ksm_keys, prefixed, output, outputs_of, send, process}
use mathlib.Core.List.{append-nil}

abbrev updated : Option ℤ → Option ℤ → Option ℤ
updated none before = before
updated (some n) before = some n

-- one key
abbrev just : String → Option ℤ → String → Option ℤ
just key v j = if key == j then v else none

-- what a loop over some of the keys asks for
abbrev pub among : List String → (String → Option ℤ) → String → Option ℤ
among keys wanted j = if contains j keys then wanted j else none

module _ {R : Type 0} ⦃F : Floats R⦄ where
  abbrev new_value : Result Error ℤ → Value R → Option ℤ
  new_value (ok n) before = if value_eq (int n) before then none else some n
  new_value (err e) before = none

  -- The new value of a parameter: none if no rule set it, or if it has that value already.
  unfoldable pub changed : Entity R → String → Option ℤ
  changed host key =
      if is_none (get_control host (prefixed key))
      then none
      else new_value (to_int (get_control host (prefixed key)))
          (or_none (lookup (prefixed key) host.attributes))

  abbrev Updates :
      (String → Option ℤ) → Dict ℤ → List (Call R) → Result Error (Dict ℤ) → List (Call R) → Type 0
  Updates wanted before calls (ok outs) calls' =
      ((j : String) → lookup j outs ≡ updated (wanted j) (lookup j before)) × (calls' ≡ calls)
  Updates wanted before calls (err e) calls' = calls' ≡ calls

  output-Updates :
      (host : Entity R) (key : String) (outs : Dict ℤ) (calls : List (Call R))
      → let r = output host key outs calls in
        Updates (just key (changed host key)) outs calls r.0 r.1
  unfolding output changed ◌>>=◌
  output-Updates host key outs calls =
      elim (Bool-cases (is_none (get_control host (prefixed key)))) [
        | inl unset ↦ rw unset ((λ j. ground arith), refl)
        | inr asked ↦ rw asked (by_value (to_int (get_control host (prefixed key))))
      ]
    where
      by_value :
          (r : Result Error ℤ)
          → let before = or_none (lookup (prefixed key) host.attributes) in
            let out =
              (do n ← lift r; pure (if value_eq (int n) before then outs else insert key n outs))
                calls in
            Updates (just key (new_value r before)) outs calls out.0 out.1
      by_value (ok n) = ((λ j. ground (arith, lookup-insert j key n outs)), refl)
      by_value (err e) = refl

  output-continues :
      (host : Entity R) (key : String) (keys : List String) (outs : Dict ℤ) (calls : List (Call R))
      (r : Result Error (Dict ℤ)) (calls₁ : List (Call R))
      → Updates (just key (changed host key)) outs calls r calls₁
      → ((outs' : Dict ℤ) (c : List (Call R))
          → Updates
              (among keys (changed host))
              outs'
              c
              (outputs_of host keys outs' c).0
              (outputs_of host keys outs' c).1)
      → let out = proceed r (λ outs'. outputs_of host keys outs') calls₁ in
        Updates (among (key ∷ keys) (changed host)) outs calls out.0 out.1
  output-continues host key keys outs calls (err e) calls₁ first rest = first
  output-continues host key keys outs calls (ok outs₁) calls₁ (first, kept) rest =
      joined (outputs_of host keys outs₁ calls₁).0 (outputs_of host keys outs₁ calls₁).1
        (rest outs₁ calls₁)
    where
      joined :
          (r : Result Error (Dict ℤ)) (calls₂ : List (Call R))
          → Updates (among keys (changed host)) outs₁ calls₁ r calls₂
          → Updates (among (key ∷ keys) (changed host)) outs calls r calls₂
      joined (ok outs₂) calls₂ (second, kept₂) =
          ((λ j. ground (arith, second j, first j, eq_iff key j)), kept₂ ∙ kept)
      joined (err e) calls₂ second = second ∙ kept

  outputs_of-Updates :
      (host : Entity R) (keys : List String) (outs : Dict ℤ) (calls : List (Call R))
      → let r = outputs_of host keys outs calls in
        Updates (among keys (changed host)) outs calls r.0 r.1
  unfolding outputs_of ◌>>=◌
  outputs_of-Updates host [] outs calls = ((λ j. refl), refl)
  outputs_of-Updates host (key ∷ keys) outs calls =
      output-continues host key keys outs calls (output host key outs calls).0
        (output host key outs calls).1 (output-Updates host key outs calls)
        (outputs_of-Updates host keys)

  abbrev pub sent : Dict ℤ → List (Call R)
  sent [] = []
  sent (kv ∷ outs) = ksm_tune (kv ∷ outs) ∷ []

  -- How a run of the controller ends.
  abbrev pub Tuned : Entity R → List (Call R) → Result Error (Unit {0}) → List (Call R) → Type 0
  Tuned host calls (ok _) calls' =
      (outs : Dict ℤ) × ((j : String) → lookup j outs ≡ among ksm_keys (changed host) j)
      × (calls' ≡ calls ++ sent outs)
  Tuned host calls (err e) calls' = calls' ≡ calls

  -- A run sends at most one call; it holds exactly the KSM parameters that a rule set to a value
  -- other than the current one, each with that value, and if there is none no call is made. A run
  -- that raises sends nothing.
  pub process-Tuned :
      (host : Entity R) (calls : List (Call R))
      → Tuned host calls (process host calls).0 (process host calls).1
  unfolding process ◌>>=◌ emit
  process-Tuned host calls =
      ended (outputs_of host ksm_keys [] calls).0 (outputs_of host ksm_keys [] calls).1
        (outputs_of-Updates host ksm_keys [] calls)
    where
      ended :
          (r : Result Error (Dict ℤ)) (calls₁ : List (Call R))
          → Updates (among ksm_keys (changed host)) [] calls r calls₁
          → let out = proceed r (λ outs. send outs) calls₁ in Tuned host calls out.0 out.1
      ended (ok []) calls₁ (values, kept) =
          ([], (λ j. ground (arith, values j)), kept ∙ sym (append-nil calls))
      ended (ok (kv ∷ outs)) calls₁ (values, kept) = (
        kv ∷ outs,
        (λ j. ground (arith, values j)),
        ap (λ c. c ++ ksm_tune (kv ∷ outs) ∷ []) kept,
      )
      ended (err e) calls₁ kept = kept
