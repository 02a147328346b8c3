-- ===== src/Daemon/Loop/Ending.antt =====
-- When the main loop of the daemon ends (mom/__init__.py, run).
use mom.Prelude.{
  ℕ, zero, suc, ◌+◌, ◌≤◌, ◌<◌, ◌≡◌, refl, ◌∙◌, Bool, true, false, not, ◌&&◌, none, some, arith, ap,
}
use mom.Daemon.Config.{Config, validate_config}
use mom.Daemon.Loop.{
  Observed, threads_ok, after_round, main_loop, Alive, stop_all, threads, ended, ended_after, run,
}

-- Every thread lives, and nobody called shutdown.
abbrev pub is_quiet : Observed → Bool
is_quiet o =
    o.host_monitor && o.guest_manager && o.policy_engine && o.rpc_server && not o.shutdown_called

after_round-is_quiet : (o : Observed) → after_round o true ≡ is_quiet o
unfolding after_round threads_ok
after_round-is_quiet o = ground arith

main_loop-stopped :
    (fuel : ℕ) (world : ℕ → Observed) (i : ℕ) → 0 < fuel → main_loop fuel world i false ≡ some i
unfolding main_loop
main_loop-stopped zero world i h = absurd (omega arith)
main_loop-stopped (suc fuel) world i h = refl

-- `rounds` quiet rounds from `i`, and then the round `n`, which is not
main_loop-ends :
    (rounds fuel : ℕ) (world : ℕ → Observed) (i n : ℕ)
    → i + rounds ≡ n
    → rounds + 1 < fuel
    → ((k : ℕ) → i ≤ k → k < n → is_quiet (world k) ≡ true)
    → is_quiet (world n) ≡ false
    → main_loop fuel world i true ≡ some (n + 1)
unfolding main_loop
main_loop-ends rounds zero world i n e h quiet loud = absurd (omega arith)
main_loop-ends zero (suc fuel) world i n e h quiet loud =
    let here : n ≡ i = omega arith in
    let dead : after_round (world i) true ≡ false =
      after_round-is_quiet (world i) ∙ rw here at loud in
    rw (dead, here) (main_loop-stopped fuel world (i + 1) (omega arith))
main_loop-ends (suc rounds) (suc fuel) world i n e h quiet loud =
    let alive : after_round (world i) true ≡ true =
      after_round-is_quiet (world i) ∙ quiet i (omega arith) (omega arith) in
    rw alive (
      main_loop-ends rounds fuel world (i + 1) n (omega arith) (omega arith)
        (λ k low high. quiet k (omega arith) high) loud)

main_loop-goes_on :
    (fuel : ℕ) (world : ℕ → Observed) (i : ℕ)
    → ((k : ℕ) → is_quiet (world k) ≡ true)
    → main_loop fuel world i true ≡ none
unfolding main_loop
main_loop-goes_on zero world i quiet = refl
main_loop-goes_on (suc fuel) world i quiet =
    rw (after_round-is_quiet (world i), quiet i) (main_loop-goes_on fuel world (i + 1) quiet)

-- A daemon with a valid configuration, whose threads were built with a hypervisor interface: if the
-- round n is the first in which a thread is found dead or shutdown was called, then the main loop ends
-- after it, and the daemon stops the RPC server and waits for the threads that live. Fuel above n + 1
-- is enough.
pub run-ends :
    (fuel : ℕ) (world : ℕ → Observed) (alive : Alive) (c : Config) (n : ℕ)
    → validate_config c ≡ some true
    → n + 1 < fuel
    → ((k : ℕ) → k < n → is_quiet (world k) ≡ true)
    → is_quiet (world n) ≡ false
    → run fuel world alive (threads true) c ≡ some (ended (n + 1) (stop_all alive))
unfolding run
run-ends fuel world alive c n valid h quiet loud = rw valid (
    ap (ended_after alive)
      (main_loop-ends n fuel world 0 n (omega arith) h (λ k low. quiet k) loud))

-- While every round is quiet it goes on.
pub run-goes_on :
    (fuel : ℕ) (world : ℕ → Observed) (alive : Alive) (c : Config)
    → validate_config c ≡ some true
    → ((k : ℕ) → is_quiet (world k) ≡ true)
    → run fuel world alive (threads true) c ≡ none
unfolding run
run-goes_on fuel world alive c valid quiet =
    rw valid (ap (ended_after alive) (main_loop-goes_on fuel world 0 quiet))
