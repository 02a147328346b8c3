-- ===== src/Policy/Dispatch.antt =====
-- `_dispatch` of mom/Policy/Parser.py: the arity check and the conversion of the arguments by the
-- types that a docstring declares. `rec` is the evaluation of a tree.
use mom.Prelude.{
  ℕ, ◌+◌, Bool, true, false, not, ◌&&◌, Option, none, some, List, [], ◌∷◌, pure, ◌>>=◌, ◌>>◌,
  length, eqb, ltb, if◌then◌else◌,
}
use mom.Python.Value.{Floats, arity_mismatch, not_enough_arguments, malformed, Value}
use mom.Policy.Code.{Code, atom, form, symbol}
use mom.Policy.Builtins.{Builtin, DocType, doc}
use mom.Policy.Machine.{M, policy_at}
use mom.Policy.Forms.{Arg, tree, label, val, apply}

-- types[-1] is the ellipsis
abbrev ends_in_dots : List DocType → Bool
ends_in_dots [] = false
ends_in_dots (DocType.dots ∷ []) = true
ends_in_dots (type ∷ []) = false
ends_in_dots (type ∷ other ∷ types) = ends_in_dots (other ∷ types)

module _ {R : Type 0} ⦃F : Floats R⦄ where
  module _ (rec : Code → M R (Value R)) where
    -- one round of the loop of `_dispatch`, on the declared type of the argument
    unfoldable pub convert : DocType → Option ℕ → Code → M R (Arg R)
    convert DocType.code line c = pure (tree c)
    convert DocType.symbol line (atom t) = elim t.kind [
      | symbol ↦ pure (label t.value)
      | _ ↦ policy_at malformed line
    ]
    convert DocType.symbol line (form cs) = policy_at malformed line
    convert _ line c = do v ← rec c; pure (val v)

    -- the loop: an ellipsis repeats the type before it, and stands for a value if it comes first
    unfoldable pub convert_all :
        Option DocType → List DocType → Option ℕ → List Code → M R (List (Arg R))
    convert_all current types line [] = pure []
    convert_all current [] line (c ∷ cs) = do
      rest ← convert_all current [] line cs
      pure (tree c ∷ rest)
    convert_all none (DocType.dots ∷ types) line (c ∷ cs) = do
      a ← convert DocType.dots line c
      rest ← convert_all (some DocType.dots) (DocType.dots ∷ types) line cs
      pure (a ∷ rest)
    convert_all (some type) (DocType.dots ∷ types) line (c ∷ cs) = do
      a ← convert type line c
      rest ← convert_all (some type) (DocType.dots ∷ types) line cs
      pure (a ∷ rest)
    convert_all current (type ∷ types) line (c ∷ cs) = do
      a ← convert type line c
      rest ← convert_all (some type) types line cs
      pure (a ∷ rest)

  -- the number of arguments against the number of declared types
  unfoldable pub check_arity : List DocType → ℕ → Option ℕ → M R (Unit {0})
  check_arity types n line =
      if not (eqb (length types) n) && not (ends_in_dots types)
      then policy_at arity_mismatch line
      else if ends_in_dots types && ltb (n + 1) (length types)
      then policy_at not_enough_arguments line
      else pure tt

  unfoldable pub dispatch : (Code → M R (Value R)) → Builtin → List Code → Option ℕ → M R (Value R)
  dispatch rec b args line = do
    check_arity (doc b) (length args) line
    converted ← convert_all rec none (doc b) line args
    apply rec b converted
