-- ===== src/PolicyEngine/Passes.antt =====
-- When a pass of mom/PolicyEngine.py calls the hypervisor interface.
use mom.Prelude.{
  ℕ, ◌≡◌, refl, sym, ap, Bool, true, false, Option, none, some, List, [], ◌∷◌, Result, ok,
}
use mathlib.Core.Option.{some-injective}
use mom.Prelude.Dict.{Dict, values}
use mom.Python.Value.{Floats, Error}
use mom.Policy.Store.{Store, evaluate}
use mom.Entity.{Entity}
use mom.Monitor
use mom.Monitor.{Monitor}
use mom.GuestManager
use mom.GuestManager.{Guest}
use mom.Controllers.Calls.{Call}
use mom.PolicyEngine.{Controller, process_all, controlled, controls_for, do_controls}

module _ {R : Type 0} ⦃F : Floats R⦄ where
  -- How a pass ends: at rest, with no call and no exception, or with what the controllers did to the
  -- entities that a policy without exceptions left.
  pub data Pass (fuel : ℕ) (s : Store) (host : Monitor R) (guests : List (Entity R))
      (controllers : List (Controller R)) (calls : List (Call R)) (r : Result Error (Unit {0}))
      (calls' : List (Call R)) : Type 0 where
    rest : r ≡ ok tt → calls' ≡ calls → Pass fuel s host guests controllers calls r calls'
    controls :
        (e host' : Entity R) (guests' : List (Entity R))
        → Monitor.interrogate host ≡ some e
        → evaluate fuel s e guests ≡ (some true, host' ∷ guests')
        → process_all controllers host' guests' calls ≡ (r, calls')
        → Pass fuel s host guests controllers calls r calls'

  at_rest :
      {fuel : ℕ} {s : Store} {host : Monitor R} {guests : List (Entity R)}
      {controllers : List (Controller R)} {calls calls' : List (Call R)}
      {r : Result Error (Unit {0})}
      → ◌≡◌ {A = Result Error (Unit {0}) × List (Call R)} (ok tt, calls) (r, calls')
      → Pass fuel s host guests controllers calls r calls'
  at_rest p = rest (sym (ap (λ x. x.0) p)) (sym (ap (λ x. x.1) p))

  controlled-Pass :
      (fuel : ℕ) (s : Store) (host : Monitor R) (guests : List (Entity R))
      (controllers : List (Controller R)) (calls calls' : List (Call R))
      (r : Result Error (Unit {0})) (e : Entity R) (x : Option Bool × List (Entity R))
      → Monitor.interrogate host ≡ some e
      → evaluate fuel s e guests ≡ x
      → controlled controllers x calls ≡ some (r, calls')
      → Pass fuel s host guests controllers calls r calls'
  controlled-Pass fuel s host guests controllers calls calls' r e (some true, host' ∷ guests') i v
        h =
      controls e host' guests' i v (some-injective _ _ h)
  controlled-Pass fuel s host guests controllers calls calls' r e (some true, []) i v h =
      at_rest (some-injective _ _ h)
  controlled-Pass fuel s host guests controllers calls calls' r e (some false, es) i v h =
      at_rest (some-injective _ _ h)
  controlled-Pass fuel s host guests controllers calls calls' r e (none, es) i v h = cc

  -- A pass that ended: it made no call and raised nothing, or the host was ready, the policy
  -- evaluated with no exception, and the calls are those of the controllers on the entities after
  -- the rules.
  pub do_controls-Pass :
      (fuel : ℕ) (s : Store) (host : Monitor R) (guests : Dict (Guest R))
      (controllers : List (Controller R)) (calls calls' : List (Call R))
      (r : Result Error (Unit {0}))
      → do_controls fuel s host guests controllers calls ≡ some (r, calls')
      → Pass fuel s host (values (GuestManager.interrogate guests)) controllers calls r calls'
  unfolding do_controls
  do_controls-Pass fuel s host guests controllers calls calls' r h =
      by_host (Monitor.interrogate host) refl h
    where
      by_host :
          (o : Option (Entity R))
          → Monitor.interrogate host ≡ o
          → controls_for fuel s o (values (GuestManager.interrogate guests)) controllers calls
            ≡ some (r, calls')
          → Pass fuel s host (values (GuestManager.interrogate guests)) controllers calls r calls'
      by_host none i k = at_rest (some-injective _ _ k)
      by_host (some e) i k = controlled-Pass fuel s host _ controllers calls calls' r e _ i refl k
