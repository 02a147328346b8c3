-- ===== src/Monitor/Snapshot.antt =====
-- What the rules of a policy see of a monitor: `interrogate` of mom/Monitor.py and `Stat` of
-- mom/Entity.py.
use mom.Prelude.{
  ℕ, ◌<◌, String, ◌≡◌, refl, sym, ◌∙◌, ap, Bool, true, false, Option, none, some, List, [], ◌∷◌,
  ◌++◌, Result, ok, err, last, contains, if◌then◌else◌,
}
use mathlib.Core.List.{append_assoc, append-nil}
use mathlib.Core.Path.{subst, ap₂}
use mathlib.Core.Option.{some-injective}
use mom.Prelude.Dict.{Dict, lookup}
use mom.Python.Value.{Error, key_error, Value}
use mom.Entity
use mom.Entity.{Entity, stat, stat_in, in_row, append_rows}
use mom.Monitor.{Collector, Monitor, collect, snapshot, interrogate, valid_fields, is_ready}
use mom.Monitor.Collect.{Succeeded, Round, collect-Round}

module _ {R : Type 0} where
  append_rows-eq-append :
      (rows stats : List (Dict (Value R))) → append_rows rows stats ≡ rows ++ stats
  append_rows-eq-append rows [] = sym (append-nil rows)
  append_rows-eq-append rows (row ∷ stats) =
      append_rows-eq-append (rows ++ row ∷ []) stats ∙ append_assoc rows (row ∷ []) stats

  -- The parts of an entity that `Stat` reads.
  record Shows (m : Monitor R) (e : Entity R) : Type 0 where
    statistics : e.statistics ≡ m.statistics
    monitor : e.monitor ≡ some (valid_fields m)

  finalize-Shows :
      (m : Monitor R) (valid : Option (List String)) (row : Option (Dict (Value R))) (e : Entity R)
      → Shows m e
      → Shows m (Entity.publish_last valid row e).1
  finalize-Shows m valid none e h = h
  finalize-Shows m none (some []) e h = h
  finalize-Shows m none (some (kv ∷ row)) e h = h
  finalize-Shows m (some valid) (some row) e h = record {
    statistics = h.statistics;
    monitor = h.monitor;
  }

  snapshot-Shows : (m : Monitor R) → Shows m (snapshot m)
  unfolding snapshot Entity.set_statistics Entity.create
  snapshot-Shows m = record { statistics = append_rows-eq-append [] m.statistics; monitor = refl }

  shown :
      (m : Monitor R) (b : Bool) (x e : Entity R)
      → Shows m x
      → (if b then some x else none) ≡ some e
      → (b ≡ true) × Shows m e
  shown m true x e s h = (refl, subst (λ y. Shows m y) (some-injective x e h) s)
  shown m false x e s h = cc

  interrogate-Shows :
      (m : Monitor R) (e : Entity R) → interrogate m ≡ some e → (is_ready m ≡ true) × Shows m e
  unfolding interrogate Entity.finalize
  interrogate-Shows m e h =
      shown m (is_ready m) (Entity.finalize (snapshot m)).1 e
        (finalize-Shows m _ (last (snapshot m).statistics) (snapshot m) (snapshot-Shows m)) h

  stat-Shows :
      (m : Monitor R) (e : Entity R) (row : Dict (Value R)) (name : String) (default : Value R)
      → Shows m e
      → last m.statistics ≡ some row
      → stat e name default ≡ (
          if contains name (valid_fields m)
          then ok (elim (lookup name row) [ none ↦ default | some v ↦ v ])
          else err key_error)
  unfolding stat
  stat-Shows m e row name default s newest =
      ap₂ (λ mon r. stat_in mon r name default) s.monitor (ap last s.statistics ∙ newest)
      ∙ tested (contains name (valid_fields m))
    where
      tested :
          (b : Bool)
          → let declared : Result Error (Unit {0}) = (if b then ok tt else err key_error) in
            let v = in_row name default (some row) in
            ◌≡◌ {A = Result Error (Value R)}
              (elim declared [ ok _ ↦ ok v | err x ↦ err x ])
              (if b then ok v else err key_error)
      tested true = refl
      tested false = refl

  -- After a round that returned a row, with room for it in the history, the monitor can be
  -- interrogated, and every entity that it gives shows that row: `Stat` of a declared field is the
  -- field's value in the row, and of any other field a KeyError.
  pub interrogate-collect :
      (limit : ℕ) (cs : List (Collector R)) (m m' : Monitor R) (row : Dict (Value R))
      (name : String) (default : Value R)
      → 0 < limit
      → collect limit cs m ≡ (some row, m')
      → (e : Entity R) × (interrogate m' ≡ some e)
        × (stat e name default ≡ (
            if contains name (valid_fields m')
            then ok (elim (lookup name row) [ none ↦ default | some v ↦ v ])
            else err key_error))
  unfolding interrogate Entity.finalize
  interrogate-collect limit cs m m' row name default room h =
      let e = (Entity.finalize (snapshot m')).1 in
      (
        e,
        ready_interrogate,
        stat-Shows m' e row name default
            (finalize-Shows m' _ (last (snapshot m').statistics) (snapshot m') (snapshot-Shows m'))
            (round.recorded room),
      )
    where
      round : Succeeded limit cs m row m'
      round =
          subst (λ (r : Option (Dict (Value R)) × Monitor R). Round limit cs m r.0 r.1) h
            (collect-Round limit cs m)

      ready_interrogate :
          (if is_ready m' then some (Entity.finalize (snapshot m')).1 else none)
          ≡ some (Entity.finalize (snapshot m')).1
      ready_interrogate = rw (round.ready) refl
