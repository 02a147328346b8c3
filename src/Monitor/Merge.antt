-- ===== src/Monitor/Merge.antt =====
-- Which collector's value a statistic gets (mom/Monitor.py, `collect`).
use mom.Prelude.{
  String, ◌≡◌, refl, Bool, true, false, not, ◌&&◌, ◌||◌, Option, none, some, List, [], ◌∷◌, ◌++◌,
  All, arith, eq_iff, ◌==◌, Bool-cases, inl, inr,
}
use mom.Prelude.Dict.{Dict, lookup, lookup-insert}
use mom.Python.Value.{Value, is_none}
use mom.Monitor.{Collected, stats, fatal_error, Collector, offer, take_all, continue_with, merge}

module _ {R : Type 0} where
  -- the row has a value for the field that is not None
  abbrev pub offers : String → Dict (Value R) → Bool
  offers k [] = false
  offers k ((j, v) ∷ row) = (j == k && not (is_none v)) || offers k row

  -- A collector that has nothing to say of a field in this round.
  abbrev pub Silence : String → Collected R → Type 0
  Silence k (stats row) = offers k row ≡ false
  Silence k _ = Unit

  abbrev pub IsSilent : String → Collector R → Type 0
  IsSilent k c = Silence k c.collected

  -- a missing statistic, or a None
  abbrev unknown : Option (Value R) → Bool
  unknown none = true
  unknown (some v) = is_none v

  unknown-offer :
      (k j : String) (v : Value R) (taken : Dict (Value R))
      → unknown (lookup k taken) ≡ true
      → (j == k && not (is_none v)) ≡ false
      → unknown (lookup k (offer j v taken)) ≡ true
  unfolding offer
  unknown-offer k j v taken h s = ground (arith, lookup-insert k j v taken)

  unknown-take_all :
      (k : String) (row taken : Dict (Value R))
      → unknown (lookup k taken) ≡ true
      → offers k row ≡ false
      → unknown (lookup k (take_all row taken)) ≡ true
  unfolding take_all
  unknown-take_all k [] taken h s = h
  unknown-take_all k ((j, v) ∷ row) taken h s =
      unknown-take_all k row (offer j v taken) (unknown-offer k j v taken h (ground arith))
        (ground arith)

  known-offer :
      (k j : String) (v w : Value R) (taken : Dict (Value R))
      → lookup k taken ≡ some w
      → is_none w ≡ false
      → lookup k (offer j v taken) ≡ some w
  unfolding offer
  known-offer k j v w taken h s = ground (arith, lookup-insert k j v taken, eq_iff j k)

  known-take_all :
      (k : String) (w : Value R) (row taken : Dict (Value R))
      → lookup k taken ≡ some w
      → is_none w ≡ false
      → lookup k (take_all row taken) ≡ some w
  unfolding take_all
  known-take_all k w [] taken h s = h
  known-take_all k w ((j, v) ∷ row) taken h s =
      known-take_all k w row (offer j v taken) (known-offer k j v w taken h s) s

  learn-offer :
      (k j : String) (v w : Value R) (taken : Dict (Value R))
      → unknown (lookup k taken) ≡ true
      → (j == k) ≡ true
      → v ≡ w
      → is_none w ≡ false
      → lookup k (offer j v taken) ≡ some w
  unfolding offer
  learn-offer k j v w taken h e vw s = ground (arith, lookup-insert k j v taken, eq_iff j k)

  learn :
      (k : String) (w : Value R) (row taken : Dict (Value R))
      → unknown (lookup k taken) ≡ true
      → lookup k row ≡ some w
      → is_none w ≡ false
      → lookup k (take_all row taken) ≡ some w
  unfolding take_all
  learn k w [] taken h f s = ground arith
  learn k w ((j, v) ∷ row) taken h f s = elim (Bool-cases (j == k)) [
    | inl e ↦
        known-take_all k w row (offer j v taken) (learn-offer k j v w taken h e (ground arith) s) s
    | inr e ↦
        learn k w row (offer j v taken) (unknown-offer k j v taken h (ground arith)) (ground arith)
          s
  ]

  -- What a round of the loop keeps, if the rounds after it do.
  module _ (k : String) (w : Value R) (known : is_none w ≡ false) where
    known-continue :
        (x : Collected R) (rest : Dict (Value R) → Option (Dict (Value R)))
        → ((taken result : Dict (Value R))
            → lookup k taken ≡ some w
            → rest taken ≡ some result
            → lookup k result ≡ some w)
        → (taken result : Dict (Value R)) → lookup k taken ≡ some w
        → continue_with x rest taken ≡ some result
        → lookup k result ≡ some w
    known-continue (stats row) rest h taken result t m =
        h (take_all row taken) result (known-take_all k w row taken t known) m
    known-continue fatal_error rest h taken result t m = cc
    known-continue _ rest h taken result t m = h taken result t m

    known-merge :
        (cs : List (Collector R)) (taken result : Dict (Value R))
        → lookup k taken ≡ some w
        → merge cs taken ≡ some result
        → lookup k result ≡ some w
    unfolding merge
    known-merge [] taken result t m = ground arith
    known-merge (c ∷ cs) taken result t m =
        known-continue c.collected (merge cs) (known-merge cs) taken result t m

    silent-continue :
        (x : Collected R) (rest : Dict (Value R) → Option (Dict (Value R)))
        → ((taken result : Dict (Value R))
            → unknown (lookup k taken) ≡ true
            → rest taken ≡ some result
            → lookup k result ≡ some w)
        → (taken result : Dict (Value R)) → Silence k x
        → unknown (lookup k taken) ≡ true
        → continue_with x rest taken ≡ some result
        → lookup k result ≡ some w
    silent-continue (stats row) rest h taken result q t m =
        h (take_all row taken) result (unknown-take_all k row taken t q) m
    silent-continue fatal_error rest h taken result q t m = cc
    silent-continue _ rest h taken result q t m = h taken result t m

    unknown-merge :
        (before : List (Collector R)) (c : Collector R) (after : List (Collector R))
        (row taken result : Dict (Value R))
        → All (IsSilent k) before
        → c.collected ≡ stats row
        → lookup k row ≡ some w
        → unknown (lookup k taken) ≡ true
        → merge (before ++ c ∷ after) taken ≡ some result
        → lookup k result ≡ some w
    unfolding merge
    unknown-merge [] c after row taken result silent gave f h m =
        known-merge after (take_all row taken) result (learn k w row taken h f known) (rw gave at m)
    unknown-merge (b ∷ before) c after row taken result silent gave f h m =
        silent-continue b.collected (merge (before ++ c ∷ after))
          (λ t r u e. unknown-merge before c after row t r silent.1 gave f u e) taken result
          silent.0 h m

  -- A collector that reports no fatal error in this round.
  abbrev pub GoesOn : Collected R → Type 0
  GoesOn fatal_error = ⊥
  GoesOn _ = Unit

  abbrev pub HasNoFatal : Collector R → Type 0
  HasNoFatal c = GoesOn c.collected

  returned-continue :
      (x : Collected R) (rest : Dict (Value R) → Option (Dict (Value R)))
      → GoesOn x
      → ((taken : Dict (Value R)) → (result : Dict (Value R)) × (rest taken ≡ some result))
      → (taken : Dict (Value R))
      → (result : Dict (Value R)) × (continue_with x rest taken ≡ some result)
  returned-continue (stats row) rest g h taken = h (take_all row taken)
  returned-continue fatal_error rest g h taken = elim g [ ]
  returned-continue _ rest g h taken = h taken

  -- A round with no fatal error has a result.
  returned-merge :
      (cs : List (Collector R))
      → All HasNoFatal cs
      → (taken : Dict (Value R)) → (result : Dict (Value R)) × (merge cs taken ≡ some result)
  unfolding merge
  returned-merge [] g taken = (taken, refl)
  returned-merge (c ∷ cs) g taken =
      returned-continue c.collected (merge cs) g.0 (returned-merge cs g.1) taken

  -- Priority goes to the collector that is listed first: a round in which no collector reports a fatal
  -- error has a result, and the value of a statistic there is the one of the first collector that has
  -- a value for it other than None, whatever else the collectors after it return or raise.
  pub merge-first :
      (k : String) (w : Value R) (before : List (Collector R)) (c : Collector R)
      (after : List (Collector R)) (row : Dict (Value R))
      → All HasNoFatal (before ++ c ∷ after)
      → All (IsSilent k) before
      → c.collected ≡ stats row
      → lookup k row ≡ some w
      → is_none w ≡ false
      → (result : Dict (Value R)) × (merge (before ++ c ∷ after) [] ≡ some result)
        × (lookup k result ≡ some w)
  merge-first k w before c after row going silent gave f s =
      let (result, m) = returned-merge (before ++ c ∷ after) going [] in
      (result, m, unknown-merge k w s before c after row [] result silent gave f refl m)
