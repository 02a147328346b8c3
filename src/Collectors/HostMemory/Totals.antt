-- ===== src/Collectors/HostMemory/Totals.antt =====
-- The swap statistics of mom/Collectors/HostMemory.py add up to what the kernel counted.
use mom.Prelude.{String, ◌≡◌, refl, Option, none, some, List, [], ◌∷◌, map, Result, ok, err, ◌>>=◌}
use mom.Prelude.Dict.{Dict, lookup}
use mom.Prelude.Int.{ℤ, pos, ◌+ℤ◌, ◌-ℤ◌, sub_self, chained}
use mom.Python.Value.{Error, Value, int}
use mom.Collectors.HostMemory.{
  HostMemory, Reading, collect, collect_all, create, plus, minus, advance,
}

-- A reading in which every number was found.
pub record Full : Type 0 where
  pub avail : ℤ
  pub anon : ℤ
  pub unused : ℤ
  pub buffers : ℤ
  pub cached : ℤ
  pub swap_total : ℤ
  pub swap_free : ℤ
  pub pswpin : ℤ
  pub pswpout : ℤ

abbrev pub reading : Full → Reading
reading f = record {
  avail = some f.avail;
  anon = some f.anon;
  unused = some f.unused;
  buffers = some f.buffers;
  cached = some f.cached;
  swap_total = some f.swap_total;
  swap_free = some f.swap_free;
  pswpin = some f.pswpin;
  pswpout = some f.pswpout;
}

abbrev pub latest : (Full → ℤ) → ℤ → List Full → ℤ
latest counter n [] = n
latest counter n (f ∷ fs) = latest counter (counter f) fs

-- the counters of a collector that has read them before
abbrev counted : Option ℤ → Option ℤ → ℤ → ℤ → HostMemory
counted p q n m = record {
  swap_in_prev = p;
  swap_in_cur = some n;
  swap_out_prev = q;
  swap_out_cur = some m;
}

module _ {R : Type 0} where
  abbrev pub amount : Option (Value R) → ℤ
  amount (some (int n)) = n
  amount _ = pos 0

  -- the sum of a statistic
  abbrev pub sum_of : String → List (Dict (Value R)) → ℤ
  sum_of name [] = pos 0
  sum_of name (row ∷ rows) = amount (lookup name row) +ℤ sum_of name rows

  -- What a run of collections returns and adds up to, from the counters that were read before it.
  abbrev pub AddsUp : ℤ → ℤ → List Full → Result Error (List (Dict (Value R))) → Type 0
  AddsUp n m fs (ok rows) =
      (sum_of "swap_in" rows ≡ latest (λ f. f.pswpin) n fs -ℤ n)
      × (sum_of "swap_out" rows ≡ latest (λ f. f.pswpout) m fs -ℤ m)
  AddsUp n m fs (err e) = ⊥

module _ (R : Type 0) where
  AddsUp-next :
      (f : Full) (p q : Option ℤ) (n m : ℤ) (fs : List Full)
      (rest : Result Error (List (Dict (Value R))) × HostMemory)
      → collect_all (map reading fs) (counted (some n) (some m) f.pswpin f.pswpout) ≡ rest
      → AddsUp {R = R} f.pswpin f.pswpout fs rest.0
      → AddsUp n m (f ∷ fs) (collect_all {R = R} (map reading (f ∷ fs)) (counted p q n m)).0
  unfolding collect_all collect advance plus minus ◌>>=◌
  AddsUp-next f p q n m fs (ok rows, c') e h = rw e (
    chained f.pswpin n (latest (λ g. g.pswpin) f.pswpin fs) refl h.0,
    chained f.pswpout m (latest (λ g. g.pswpout) f.pswpout fs) refl h.1,
  )
  AddsUp-next f p q n m fs (err x, c') e h = elim h [ ]

  AddsUp-counted :
      (fs : List Full) (p q : Option ℤ) (n m : ℤ)
      → AddsUp n m fs (collect_all {R = R} (map reading fs) (counted p q n m)).0
  unfolding collect_all ◌>>=◌
  AddsUp-counted [] p q n m = (sub_self n, sub_self m)
  AddsUp-counted (f ∷ fs) p q n m =
      AddsUp-next f p q n m fs _ refl (AddsUp-counted fs (some n) (some m) f.pswpin f.pswpout)

  -- The first collection reports no swapping.
  collect_all-first :
      (f : Full) (fs : List Full)
      → collect_all {R = R} (map reading (f ∷ fs)) create
        ≡ collect_all (map reading (f ∷ fs)) (counted none none f.pswpin f.pswpout)
  unfolding create collect_all collect advance plus minus ◌>>=◌
  collect_all-first f fs = refl

-- With complete readings no collection of a new collector fails, and the pages that it reports
-- as swapped in and out add up to what the kernel counted between the first reading and the last:
-- nothing is lost or counted twice.
pub collect_all-AddsUp :
    (R : Type 0) (f : Full) (fs : List Full)
    → AddsUp {R = R} f.pswpin f.pswpout
        (f ∷ fs)
        (collect_all {R = R} (map reading (f ∷ fs)) create).0
collect_all-AddsUp R f fs =
    rw (collect_all-first R f fs) (AddsUp-counted R (f ∷ fs) none none f.pswpin f.pswpout)
