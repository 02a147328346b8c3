-- ===== src/Controllers/CpuTune/Changes.antt =====
-- When mom/Controllers/CpuTune.py tunes a guest, and to which values.
use mom.Prelude.{
  ◌≡◌, refl, Bool, true, false, not, sym, pure, lift, ◌&&◌, ◌||◌, List, [], ◌∷◌, arith, Result, ok,
  err, ◌>>=◌, if◌then◌else◌,
}
use mom.Prelude.Int.{ℤ}
use mom.Python.Value.{Floats, Error, Value, is_none}
use mom.Python.Order.{value_eq}
use mom.Python.Arith.{to_int}
use mom.Entity.{Entity, get_control, prop}
use mom.Controllers.Calls.{Call, cpu_tune, emit, attribute}
use mom.Controllers.Loop.{Sends, Sent, Outcome, for_each-sends}
use mom.Controllers.CpuTune.{get_changed_val, tune, process_guest, process}
use mathlib.Core.List.{append-nil}

module _ {R : Type 0} ⦃F : Floats R⦄ where
  -- A parameter that the rules left alone or set to its value; one that is not equal to itself, a
  -- NaN, always counts as changed.
  unfoldable pub settled : Value R → Value R → Bool
  settled control current =
      (is_none control || value_eq control current) && value_eq current current

  -- The value that a parameter should have.
  unfoldable pub desired : Value R → Value R → Value R
  desired control current = if is_none control || value_eq control current then current else control

  abbrev tune_call : Result Error ℤ → Result Error ℤ → Result Error (Value R) → List (Call R)
  tune_call (ok q) (ok p) (ok uuid) = cpu_tune uuid q p ∷ []
  tune_call _ _ _ = []

  abbrev pub tuning_of :
      Entity R → Value R → Value R → Result Error (Value R) → Result Error (Value R) → List (Call R)
  tuning_of guest quota period (ok prev_quota) (ok prev_period) =
      if settled quota prev_quota && settled period prev_period
      then []
      else tune_call (to_int (desired quota prev_quota)) (to_int (desired period prev_period))
          (prop guest "uuid")
  tuning_of guest quota period _ _ = []

  -- The call that a guest needs: none if both parameters are settled, and else one with both.
  abbrev pub tuning : Entity R → List (Call R)
  tuning guest =
      tuning_of guest (get_control guest "vcpu_quota") (get_control guest "vcpu_period")
        (attribute guest "vcpu_quota") (attribute guest "vcpu_period")

  get_changed_val-eq-desired : (v prev : Value R) → get_changed_val v prev ≡ desired v prev
  unfolding get_changed_val desired
  get_changed_val-eq-desired v prev = ground arith

  settled_iff : (v prev : Value R) → value_eq (desired v prev) prev ≡ settled v prev
  unfolding desired settled
  settled_iff v prev = ground arith

  block-Sent :
      (q p : Result Error ℤ) (uuid name : Result Error (Value R)) (calls : List (Call R))
      → let out =
          (◌>>=◌ {E = Error}
              (λ s. (q, s))
              λ q'.
                ◌>>=◌ {E = Error}
                  (λ s. (p, s))
                  λ p'.
                    ◌>>=◌ {E = Error}
                      (λ s. (uuid, s))
                      λ u. ◌>>=◌ {E = Error} (λ s. (name, s)) λ n. emit (cpu_tune u q' p'))
            calls in
        Sent calls (tune_call q p uuid) out.0 out.1
  unfolding ◌>>=◌ emit
  block-Sent (ok q) (ok p) (ok u) (ok n) calls = refl
  block-Sent (ok q) (ok p) (ok u) (err e) calls = refl
  block-Sent (ok q) (ok p) (err e) name calls = refl
  block-Sent (ok q) (err e) uuid name calls = refl
  block-Sent (err e) p uuid name calls = refl

  tune-Sent :
      (guest : Entity R) (q p pq pp : Value R) (calls : List (Call R))
      → let out = tune guest (get_changed_val q pq) (get_changed_val p pp) pq pp calls in
        Sent calls (tuning_of guest q p (ok pq) (ok pp)) out.0 out.1
  unfolding tune ◌>>=◌ emit
  tune-Sent guest q p pq pp calls =
      rw
        (
          get_changed_val-eq-desired q pq,
          get_changed_val-eq-desired p pp,
          settled_iff q pq,
          settled_iff p pp,
        )
        (by_tests (settled q pq) (settled p pp))
    where
      by_tests :
          (b c : Bool)
          → let out =
              (if not b || not c
                  then (do
                    q' ← lift (to_int (desired q pq))
                    p' ← lift (to_int (desired p pp))
                    u ← lift (prop guest "uuid")
                    n ← lift (prop guest "name")
                    emit (cpu_tune u q' p'))
                  else pure tt)
                calls in
            Sent calls
              (if b && c
                then []
                else tune_call (to_int (desired q pq)) (to_int (desired p pp)) (prop guest "uuid"))
              out.0
              out.1
      by_tests true true = sym (append-nil calls)
      by_tests true false =
          block-Sent (to_int (desired q pq)) (to_int (desired p pp)) (prop guest "uuid")
            (prop guest "name") calls
      by_tests false _ =
          block-Sent (to_int (desired q pq)) (to_int (desired p pp)) (prop guest "uuid")
            (prop guest "name") calls

  attributes-Sent :
      (guest : Entity R) (q p : Value R) (aq ap : Result Error (Value R)) (calls : List (Call R))
      → let out =
          (do
            pq ← lift aq
            pp ← lift ap
            tune guest (get_changed_val q pq) (get_changed_val p pp) pq pp)
            calls in
        Sent calls (tuning_of guest q p aq ap) out.0 out.1
  unfolding ◌>>=◌
  attributes-Sent guest q p (ok pq) (ok pp) calls = tune-Sent guest q p pq pp calls
  attributes-Sent guest q p (ok pq) (err e) calls = refl
  attributes-Sent guest q p (err e) ap calls = refl

  process_guest-Sends : Sends {R = R} process_guest tuning
  unfolding process_guest
  process_guest-Sends = record {
    at = λ guest calls.
        attributes-Sent guest _ _ (attribute guest "vcpu_quota") (attribute guest "vcpu_period")
          calls;
  }

  -- A pass over the guests sends one call with both parameters to each guest for which a rule asks
  -- for a value that differs from the current one, and nothing to a guest whose two parameters are
  -- settled; a parameter that no rule changed keeps its current value in the call. If a guest
  -- raises, the guests before it were served, and it and those after it were not.
  pub process-tunes :
      (guests : List (Entity R)) (calls : List (Call R))
      → Outcome tuning guests calls (process guests calls).0 (process guests calls).1
  unfolding process
  process-tunes guests calls = for_each-sends process_guest tuning process_guest-Sends guests calls
