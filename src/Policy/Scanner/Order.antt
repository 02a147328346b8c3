-- ===== src/Policy/Scanner/Order.antt =====
-- The operators in the order in which the scanner tries them (mom/Policy/Parser.py, get_operators).
use mom.Prelude.{
  ℕ, ◌≤◌, String, ◌≡◌, refl, ◌||◌, List, [], ◌∷◌, arith, contains, ltb, ◌==◌, Bool-cases, inl, inr,
}
use mom.Policy.Scanner.{size, put_by_size, sort_by_size, get_operators}

-- None of the operators is longer than `n`.
abbrev pub AtMost : ℕ → List String → Type 0
AtMost n [] = Unit
AtMost n (op ∷ ops) = (size op ≤ n) × AtMost n ops

abbrev pub IsDescending : List String → Type 0
IsDescending [] = Unit
IsDescending (op ∷ ops) = AtMost (size op) ops × IsDescending ops

AtMost-le : (n k : ℕ) (ops : List String) → n ≤ k → AtMost n ops → AtMost k ops
AtMost-le n k [] h a = tt
AtMost-le n k (op ∷ ops) h (first, rest) = (omega (arith, first, h), AtMost-le n k ops h rest)

put_by_size-AtMost :
    (n : ℕ) (op : String) (ops : List String)
    → size op ≤ n
    → AtMost n ops
    → AtMost n (put_by_size op ops)
unfolding put_by_size
put_by_size-AtMost n op [] h a = (h, tt)
put_by_size-AtMost n op (other ∷ ops) h (first, rest) =
    elim (Bool-cases (ltb (size other) (size op))) [
      | inl longer ↦ rw longer (h, (first, rest))
      | inr shorter ↦ rw shorter (first, put_by_size-AtMost n op ops h rest)
    ]

put_by_size-IsDescending :
    (op : String) (ops : List String) → IsDescending ops → IsDescending (put_by_size op ops)
unfolding put_by_size
put_by_size-IsDescending op [] d = (tt, tt)
put_by_size-IsDescending op (other ∷ ops) (first, rest) =
    elim (Bool-cases (ltb (size other) (size op))) [
      | inl longer ↦
          let less : size other ≤ size op = ground (arith, longer) in
          rw longer ((less, AtMost-le (size other) (size op) ops less first), (first, rest))
      | inr shorter ↦ rw shorter (
        put_by_size-AtMost (size other) op ops (ground (arith, shorter)) first,
        put_by_size-IsDescending op ops rest,
      )
    ]

sort_by_size-IsDescending :
    (ops sorted : List String) → IsDescending sorted → IsDescending (sort_by_size ops sorted)
unfolding sort_by_size
sort_by_size-IsDescending [] sorted d = d
sort_by_size-IsDescending (op ∷ ops) sorted d =
    sort_by_size-IsDescending ops (put_by_size op sorted) (put_by_size-IsDescending op sorted d)

contains-put_by_size :
    (name op : String) (ops : List String)
    → contains name (put_by_size op ops) ≡ (op == name || contains name ops)
unfolding put_by_size
contains-put_by_size name op [] = ground arith
contains-put_by_size name op (other ∷ ops) = ground (arith, contains-put_by_size name op ops)

contains-sort_by_size :
    (name : String) (ops sorted : List String)
    → contains name (sort_by_size ops sorted) ≡ (contains name ops || contains name sorted)
unfolding sort_by_size
contains-sort_by_size name [] sorted = refl
contains-sort_by_size name (op ∷ ops) sorted = ground (
  arith,
  contains-sort_by_size name ops (put_by_size op sorted),
  contains-put_by_size name op sorted,
)

-- The list has the operators of the map and no others, and none comes before a longer one, which it
-- could be the beginning of.
pub get_operators-IsDescending :
    (ops : List String)
    → IsDescending (get_operators ops)
      × ((name : String) → contains name (get_operators ops) ≡ contains name ops)
unfolding get_operators
get_operators-IsDescending ops =
    (sort_by_size-IsDescending ops [] tt, λ name. ground (arith, contains-sort_by_size name ops []))
