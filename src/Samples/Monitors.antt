-- ===== src/Samples/Monitors.antt =====
-- The theorems on monitors and on tracked guests at concrete rounds.
use mom.Prelude.{
  ℕ, ltb, String, ◌≡◌, refl, true, false, Option, none, some, List, [], ◌∷◌, ◌++◌, ok, err,
  contains, arith, if◌then◌else◌,
}
use mom.Prelude.Dict.{Dict, lookup}
use mom.Prelude.Int.{ℤ, pos}
use mom.Python.Value.{key_error, Value, nothing, int, str}
use mom.Entity.{Entity, stat}
use mom.Monitor
use mom.Monitor.{
  Monitor, Collector, stats, no_data, collection_error, fatal_error, crashed, merge, collect,
  valid_fields, interrogate,
}
use mom.Monitor.Sets.{union, difference, superset}
use mom.Monitor.Merge.{merge-first}
use mom.Monitor.Collect.{Round, collect-Round}
use mom.Monitor.Snapshot.{interrogate-collect}
use mom.Monitor.Threads
use mom.Monitor.Threads.{run}
use mom.Monitor.Threads.Bounded.{Ended, run-Ended}
use mom.GuestManager.{Guest, follow}
use mom.GuestManager.Tracking.{Distinct, expected, lookup-follow}

-- the first collector knows no swap figure, the third one disagrees with the second
abbrev agent : Collector ℤ
agent = record {
  fields = "mem_free" ∷ [];
  optional_fields = "swap_in" ∷ [];
  collected = stats (("mem_free", int (pos 10)) ∷ ("swap_in", nothing) ∷ []);
}

abbrev broken : Collector ℤ
broken = record { fields = "mem_free" ∷ []; optional_fields = []; collected = collection_error }

abbrev host_row : Dict (Value ℤ)
host_row = ("swap_in", int (pos 3)) ∷ ("mem_free", int (pos 99)) ∷ []

abbrev host : Collector ℤ
host = record {
  fields = "mem_free" ∷ [];
  optional_fields = "swap_in" ∷ [];
  collected = stats host_row;
}

abbrev late : Collector ℤ
late = record {
  fields = "mem_free" ∷ [];
  optional_fields = [];
  collected = stats (("swap_in", int (pos 8)) ∷ []);
}

abbrev row : Dict (Value ℤ)
row = ("mem_free", int (pos 10)) ∷ ("swap_in", int (pos 3)) ∷ []

abbrev failing : Collector ℤ
failing = record broken { collected = crashed }

merge-first_example :
    (result : Dict (Value ℤ)) × (merge ((agent ∷ broken ∷ []) ++ host ∷ failing ∷ late ∷ []) []
      ≡ some result)
    × (lookup "swap_in" result ≡ some (int (pos 3)))
merge-first_example =
    merge-first "swap_in" (int (pos 3)) (agent ∷ broken ∷ []) host (failing ∷ late ∷ []) host_row
      (tt, (tt, (tt, (tt, (tt, tt))))) (refl, (tt, tt)) refl refl refl

abbrev collectors : List (Collector ℤ)
collectors = agent ∷ broken ∷ host ∷ []

abbrev fresh : Monitor ℤ
fresh = Monitor.create (("uuid", str "g1") ∷ [])

collect-Round_example :
    Round 5 collectors fresh (collect 5 collectors fresh).0 (collect 5 collectors fresh).1
collect-Round_example = collect-Round 5 collectors fresh

-- a fatal error ends the monitor, whatever was collected before it
fatal_test :
    (collect 5 (agent ∷ record broken { collected = fatal_error } ∷ host ∷ []) fresh).1.terminated
    ≡ true
unfolding collect Monitor.create
fatal_test = refl

abbrev after : Monitor ℤ
after = record {
  properties = ("uuid", str "g1") ∷ [];
  statistics = row ∷ [];
  variables = [];
  fields = some ("mem_free" ∷ []);
  optional_fields = some ("swap_in" ∷ []);
  ready = some true;
  terminated = false;
}

interrogate-collect_example :
    (e : Entity ℤ) × (interrogate after ≡ some e)
    × (stat e "swap_in" nothing ≡ (
        if contains "swap_in" (valid_fields after)
        then ok (elim (lookup "swap_in" row) [ none ↦ nothing | some v ↦ v ])
        else err key_error))
unfolding collect Monitor.create superset Monitor.fields_of union Monitor.take_all Monitor.offer
    Monitor.optional_fields_of difference
interrogate-collect_example =
    interrogate-collect 5 collectors fresh after row "swap_in" nothing (omega arith) refl

-- one guest left the list, one stays, one comes
abbrev guests : Dict (Guest ℤ)
guests =
    ("old", record { monitor = fresh; thread = some true })
    ∷ ("same", record { monitor = fresh; thread = some true })
    ∷ []

abbrev info : String → Option (Dict (Value ℤ))
info id = some (("uuid", str id) ∷ [])

lookup-follow_example :
    (lookup "new" (follow true info (λ id. true) (some ("new" ∷ "same" ∷ [])) guests).1 ≡ (
      if contains "new" ("new" ∷ "same" ∷ [])
      then expected true info (λ id. true) "new" (lookup "new" guests)
      else none))
    × Distinct (follow true info (λ id. true) (some ("new" ∷ "same" ∷ [])) guests).1
lookup-follow_example =
    lookup-follow true info (λ id. true) ("new" ∷ "same" ∷ []) "new" guests (refl, (refl, tt))

-- a thread that is told to end before its fourth round
abbrev rounds : ℕ → Threads.Round ℤ
rounds i = record { running = ltb i 3; collectors = collectors }

run-Ended_example : (m' : Monitor ℤ) × (run 5 2 rounds 0 fresh ≡ some m') × Ended 2 rounds 0 3 m'
unfolding Monitor.create
run-Ended_example = run-Ended 5 2 rounds 0 3 fresh (omega arith) (omega arith) refl (omega arith)
