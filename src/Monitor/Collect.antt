-- ===== src/Monitor/Collect.antt =====
-- What one round of `collect` (mom/Monitor.py) does to the history and to the state of a monitor.
use mom.Prelude.{
  ℕ, ◌≤◌, ◌<◌, String, ◌≡◌, refl, true, false, Option, none, some, List, [], ◌∷◌, ◌++◌, arith,
  length, length-append, last, contains, is_some, eq_iff, if◌then◌else◌, Bool-cases, inl, inr, Bool,
  not, ◌||◌, ◌==◌, ◌⊎◌, All,
}
use mom.Prelude.Dict.{
  Dict, lookup, has, keys, setdefault, lookup-setdefault, contains-keys, lookup-insert,
}
use mom.Python.Value.{Value, nothing}
use mom.Monitor.Sets.{superset, superset-contains, superset-missing}
use mom.Monitor.{
  Collected, stats, fatal_error, no_data, collection_error, crashed, offer, take_all, continue_with,
  Collector, Monitor, merge, push, fill, finish, fields_of, optional_fields_of, with_fields,
  collect, terminate, set_ready, set_not_ready,
}

module _ {R : Type 0} where
  last-append :
      (rows : List (Dict (Value R))) (row : Dict (Value R)) → last (rows ++ row ∷ []) ≡ some row
  last-append [] row = refl
  last-append (r ∷ []) row = refl
  last-append (r ∷ s ∷ rows) row = last-append (s ∷ rows) row

  pub length-push :
      (limit : ℕ) (row : Dict (Value R)) (rows : List (Dict (Value R)))
      → length rows ≤ limit
      → length (push limit row rows) ≤ limit
  unfolding push
  length-push limit row [] h = ground arith
  length-push limit row (r ∷ rows) h = ground (arith, length-append rows (row ∷ []))

  pub last-push :
      (limit : ℕ) (row : Dict (Value R)) (rows : List (Dict (Value R)))
      → 0 < limit
      → last (push limit row rows) ≡ some row
  unfolding push
  last-push limit row [] h = ground arith
  last-push limit row (r ∷ []) h = ground arith
  last-push limit row (r ∷ s ∷ rows) h = ground (arith, last-append (s ∷ rows) row)

  -- `fill` gives the missing fields a None and keeps the rest.
  lookup-fill :
      (k : String) (ks : List String) (row : Dict (Value R))
      → lookup k (fill ks row)
        ≡ (if has k row then lookup k row else if contains k ks then some nothing else none)
  unfolding fill
  lookup-fill k [] row = ground arith
  lookup-fill k (x ∷ ks) row = ground (
    arith,
    lookup-fill k ks (setdefault x nothing row),
    lookup-setdefault k x nothing row,
    eq_iff x k,
  )

  -- A collector reports a fatal error in this round.
  abbrev is_fatal : Collected R → Bool
  is_fatal fatal_error = true
  is_fatal _ = false

  abbrev pub reports_fatal : List (Collector R) → Bool
  reports_fatal [] = false
  reports_fatal (c ∷ cs) = is_fatal c.collected || reports_fatal cs

  is_some-continue :
      (x : Collected R) (cs : List (Collector R)) (taken : Dict (Value R))
      → ((t : Dict (Value R)) → is_some (merge cs t) ≡ not (reports_fatal cs))
      → is_some (continue_with x (merge cs) taken) ≡ not (is_fatal x || reports_fatal cs)
  is_some-continue (stats row) cs taken h = h (take_all row taken)
  is_some-continue fatal_error cs taken h = refl
  is_some-continue _ cs taken h = h taken

  -- The loop over the collectors is cut just by a fatal error.
  is_some-merge :
      (cs : List (Collector R)) (taken : Dict (Value R))
      → is_some (merge cs taken) ≡ not (reports_fatal cs)
  unfolding merge
  is_some-merge [] taken = refl
  is_some-merge (c ∷ cs) taken = is_some-continue c.collected cs taken (λ t. is_some-merge cs t)

  -- The collector gives no value for the field, not even None.
  abbrev Without : String → Collected R → Type 0
  Without k (stats row) = has k row ≡ false
  Without k _ = Unit

  abbrev pub Lacks : String → Collector R → Type 0
  Lacks k c = Without k c.collected

  has-offer :
      (k j : String) (v : Value R) (taken : Dict (Value R))
      → has k (offer j v taken) ≡ (j == k) || has k taken
  unfolding offer
  has-offer k j v taken = ground (arith, lookup-insert k j v taken, eq_iff j k)

  has-take_all :
      (k : String) (row taken : Dict (Value R))
      → has k (take_all row taken) ≡ has k row || has k taken
  unfolding take_all
  has-take_all k [] taken = refl
  has-take_all k ((j, v) ∷ row) taken =
      ground (arith, has-take_all k row (offer j v taken), has-offer k j v taken)

  -- What a round lacks was lacking from the start, and no collector gave it.
  continue-Lacks :
      (k : String) (x : Collected R) (cs : List (Collector R)) (taken result : Dict (Value R))
      → ((t : Dict (Value R)) → merge cs t ≡ some result → (has k t ≡ false) × All (Lacks k) cs)
      → continue_with x (merge cs) taken ≡ some result
      → (has k taken ≡ false) × Without k x × All (Lacks k) cs
  continue-Lacks k (stats row) cs taken result h m =
      let (missing, rest) = h (take_all row taken) m in
      (
        ground (arith, missing, has-take_all k row taken),
        ground (arith, missing, has-take_all k row taken),
        rest,
      )
  continue-Lacks k fatal_error cs taken result h m = absurd (ground (arith, m))
  continue-Lacks k no_data cs taken result h m =
      let (missing, rest) = h taken m in (missing, tt, rest)
  continue-Lacks k collection_error cs taken result h m =
      let (missing, rest) = h taken m in (missing, tt, rest)
  continue-Lacks k crashed cs taken result h m =
      let (missing, rest) = h taken m in (missing, tt, rest)

  merge-Lacks :
      (k : String) (cs : List (Collector R)) (taken result : Dict (Value R))
      → has k result ≡ false
      → merge cs taken ≡ some result
      → (has k taken ≡ false) × All (Lacks k) cs
  unfolding merge
  merge-Lacks k [] taken result missing m =
      let same : taken ≡ result = ground (arith, m) in (rw same missing, tt)
  merge-Lacks k (c ∷ cs) taken result missing m =
      let (first, now, rest) =
        continue-Lacks k c.collected cs taken result (λ t e. merge-Lacks k cs t result missing e)
          m in
      (first, (now, rest))

  -- The state after a round, and what it returned.
  pub record Succeeded (limit : ℕ) (cs : List (Collector R)) (m : Monitor R) (row : Dict (Value R))
      (m' : Monitor R) : Type 0 where
    pub clean : reports_fatal cs ≡ false
    pub required : (k : String) → contains k (fields_of cs m) ≡ true → has k row ≡ true
    pub optional : (k : String) → contains k (optional_fields_of cs m) ≡ true → has k row ≡ true
    pub ready : m'.ready ≡ some true
    pub recorded : 0 < limit → last m'.statistics ≡ some row
    pub bounded : length m.statistics ≤ limit → length m'.statistics ≤ limit
    pub running : m'.terminated ≡ m.terminated

  pub record Failed (cs : List (Collector R)) (m m' : Monitor R) : Type 0 where
    pub ready : m'.ready ≡ some false
    pub kept : m'.statistics ≡ m.statistics
    pub cause :
        (reports_fatal cs ≡ true)
        ⊎ ((k : String) × (contains k (fields_of cs m) ≡ true) × All (Lacks k) cs)
    pub terminated : m'.terminated ≡ (if reports_fatal cs then true else m.terminated)

  abbrev pub Round :
      ℕ → List (Collector R) → Monitor R → Option (Dict (Value R)) → Monitor R → Type 0
  Round limit cs m (some row) m' = Succeeded limit cs m row m'
  Round limit cs m none m' = Failed cs m m'

  finished :
      (limit : ℕ) (cs : List (Collector R)) (m : Monitor R) (taken : Option (Dict (Value R)))
      → merge cs [] ≡ taken
      → let r = finish limit (fields_of cs m) (optional_fields_of cs m) taken (with_fields cs m) in
        Round limit cs m r.0 r.1
  unfolding terminate set_ready set_not_ready
  finished limit cs m none e = record {
    ready = refl;
    kept = refl;
    cause = inl (ground (arith, e, is_some-merge cs []));
    terminated = ground (arith, e, is_some-merge cs []);
  }
  finished limit cs m (some taken) e = elim (Bool-cases (superset (keys taken) (fields_of cs m))) [
    | inl complete ↦ rw complete (record {
      clean = ground (arith, e, is_some-merge cs []);
      required = λ k h. ground (
        arith,
        lookup-fill k (optional_fields_of cs m) taken,
        superset-contains (keys taken) (fields_of cs m) k,
        contains-keys k taken,
      );
      optional = λ k h. ground (arith, lookup-fill k (optional_fields_of cs m) taken);
      ready = refl;
      recorded = λ h. last-push limit _ m.statistics h;
      bounded = λ h. length-push limit _ m.statistics h;
      running = refl;
    })
    | inr missing ↦ rw missing (record {
      ready = refl;
      kept = refl;
      cause =
          let (k, wanted, absent) = superset-missing (keys taken) (fields_of cs m) missing in
          inr (k, wanted, (merge-Lacks k cs [] taken (ground (arith, contains-keys k taken)) e).1);
      terminated = ground (arith, e, is_some-merge cs []);
    })
  ]

  -- A round that returns a row: no collector reported a fatal error, the row has every mandatory and
  -- every optional field, it is the newest of the history, if the limit is not 0, a history within its
  -- limit stays so, and the monitor is ready and goes on as before. A round that returns None had a
  -- fatal error or a mandatory field that no collector gave; it leaves the history alone and the
  -- monitor is not ready, and it tells the monitor to end just if there was a fatal error.
  pub collect-Round :
      (limit : ℕ) (cs : List (Collector R)) (m : Monitor R)
      → Round limit cs m (collect limit cs m).0 (collect limit cs m).1
  unfolding collect
  collect-Round limit cs m = finished limit cs m (merge cs []) refl
