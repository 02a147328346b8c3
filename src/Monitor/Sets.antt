-- ===== src/Monitor/Sets.antt =====
-- Python's sets of field names, as lists.
use mom.Prelude.{
  String, ◌≡◌, refl, Bool, true, false, not, ◌&&◌, ◌||◌, List, [], ◌∷◌, arith, contains, eq_iff,
  if◌then◌else◌, Bool-cases, inl, inr, eq_refl,
}

unfoldable pub union : List String → List String → List String
union [] t = t
union (x ∷ s) t = let rest = union s t in if contains x rest then rest else x ∷ rest

unfoldable pub difference : List String → List String → List String
difference [] t = []
difference (x ∷ s) t = let rest = difference s t in if contains x t then rest else x ∷ rest

-- s.issuperset(t)
unfoldable pub superset : List String → List String → Bool
superset s [] = true
superset s (x ∷ t) = contains x s && superset s t

pub contains-union :
    (k : String) (s t : List String) → contains k (union s t) ≡ contains k s || contains k t
unfolding union
contains-union k [] t = refl
contains-union k (x ∷ s) t = ground (arith, contains-union k s t, eq_iff x k)

pub contains-difference :
    (k : String) (s t : List String)
    → contains k (difference s t) ≡ contains k s && not (contains k t)
unfolding difference
contains-difference k [] t = refl
contains-difference k (x ∷ s) t = ground (arith, contains-difference k s t, eq_iff x k)

pub superset-contains :
    (s t : List String) (k : String)
    → superset s t ≡ true
    → contains k t ≡ true
    → contains k s ≡ true
unfolding superset
superset-contains s [] k h m = ground arith
superset-contains s (x ∷ t) k h m = ground (arith, superset-contains s t k, eq_iff x k)

-- an element that is missing
pub superset-missing :
    (s t : List String)
    → superset s t ≡ false
    → (k : String) × (contains k t ≡ true) × (contains k s ≡ false)
unfolding superset
superset-missing s [] h = absurd (ground (arith, h))
superset-missing s (x ∷ t) h = elim (Bool-cases (contains x s)) [
  | inl there ↦
      let (k, wanted, missing) = superset-missing s t (ground (arith, h, there)) in
      (k, ground (arith, wanted), missing)
  | inr missing ↦ (x, ground (arith, eq_refl x), missing)
]
