-- ===== src/Monitor/Threads/Bounded.antt =====
-- The thread of a monitor ends, and its history stays bounded (mom/HostMonitor.py,
-- mom/GuestMonitor.py, mom/Monitor.py).
use mom.Prelude.{
  ℕ, zero, suc, ◌+◌, ◌≤◌, ◌<◌, ◌≡◌, refl, true, false, Option, none, some, length, arith,
  Bool-cases, List, eqb, ◌∙◌, sym, ap, inl, inr,
}
use mom.Prelude.Dict.{Dict}
use mom.Python.Value.{Value}
use mom.Monitor.{Monitor, Collector, collect, should_run}
use mom.Monitor.Collect.{Round, collect-Round}
use mom.Monitor.Threads
use mom.Monitor.Threads.{run}

module _ {R : Type 0} where
  Round-bounded :
      (limit : ℕ) (cs : List (Collector R)) (m : Monitor R) (row : Option (Dict (Value R)))
      (m' : Monitor R)
      → Round limit cs m row m'
      → length m.statistics ≤ limit
      → length m'.statistics ≤ limit
  Round-bounded limit cs m none m' r h = rw r.kept h
  Round-bounded limit cs m (some row) m' r h = r.bounded h

  -- How the thread ended: before the round `last` it was told to, by the flag or by its monitor, and
  -- the history is within its limit.
  pub record Ended (limit : ℕ) (world : ℕ → Threads.Round R) (first n : ℕ) (m' : Monitor R)
      : Type 0 where
    pub last : ℕ
    pub from : first ≤ last
    pub by : last ≤ n
    pub told : should_run (world last).running m' ≡ false
    pub bounded : length m'.statistics ≤ limit

  -- a round that runs is not the one in which the flag is off
  goes_on :
      (world : ℕ → Threads.Round R) (i n : ℕ) (m : Monitor R)
      → i ≤ n
      → (world n).running ≡ false
      → should_run (world i).running m ≡ true
      → i + 1 ≤ n
  unfolding should_run
  goes_on world i n m low off runs = elim (Bool-cases (eqb i n)) [
    | inl same ↦
        let here : i ≡ n = ground (arith, same) in
        let still : (world i).running ≡ true = ground (arith, runs) in
        absurd (ground (arith, sym still ∙ ap (λ k. (world k).running) here ∙ off))
    | inr other ↦ ground (arith, other)
  ]

  -- If the flag is off in the round n, a thread whose history is within its limit ends by then; fuel
  -- above the rounds to go is enough.
  pub run-Ended :
      (fuel limit : ℕ) (world : ℕ → Threads.Round R) (i n : ℕ) (m : Monitor R)
      → i ≤ n
      → n < i + fuel
      → (world n).running ≡ false
      → length m.statistics ≤ limit
      → (m' : Monitor R) × (run fuel limit world i m ≡ some m') × Ended limit world i n m'
  unfolding run
  run-Ended zero limit world i n m low h off small = absurd (omega arith)
  run-Ended (suc fuel) limit world i n m low h off small =
      elim (Bool-cases (should_run (world i).running m)) [
        | inr told ↦ (
          m,
          rw told refl,
          record { last = i; from = omega arith; by = low; told = told; bounded = small },
        )
        | inl runs ↦
            let (m', e, ended) =
              run-Ended fuel limit world (i + 1) n (collect limit (world i).collectors m).1
                (goes_on world i n m low off runs) (omega arith) off
                (Round-bounded limit (world i).collectors m _ _
                  (collect-Round limit (world i).collectors m) small) in
            (
              m',
              rw runs e,
              record {
                last = ended.last;
                from = omega (arith, ended.from);
                by = ended.by;
                told = ended.told;
                bounded = ended.bounded;
              },
            )
      ]
