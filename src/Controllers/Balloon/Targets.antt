-- ===== src/Controllers/Balloon/Targets.antt =====
-- Which guests mom/Controllers/Balloon.py resizes, and to what size.
use mom.Prelude.{
  refl, sym, Bool-cases, inl, inr, List, [], ◌∷◌, Result, ok, err, ◌>>=◌, if◌then◌else◌,
}
use mom.Prelude.Int.{ℤ}
use mom.Python.Value.{Floats, Error, Value, is_none, nothing}
use mom.Python.Arith.{to_int}
use mom.Entity.{Entity, get_control, prop, stat}
use mom.Controllers.Calls.{Call, balloon_target, emit}
use mom.Controllers.Loop.{Sends, Sent, Outcome, for_each-sends}
use mom.Controllers.Balloon.{process_guest, process}
use mathlib.Core.List.{append-nil}

module _ {R : Type 0} ⦃F : Floats R⦄ where
  abbrev target_call : Result Error ℤ → Result Error (Value R) → List (Call R)
  target_call (ok target) (ok uuid) = balloon_target uuid target ∷ []
  target_call _ _ = []

  -- The call that the control variable of a guest asks for: none if it is not set.
  abbrev pub target : Entity R → List (Call R)
  target guest =
      if is_none (get_control guest "balloon_target")
      then []
      else target_call (to_int (get_control guest "balloon_target")) (prop guest "uuid")

  resize-Sent :
      (target : Result Error ℤ) (uuid name prev : Result Error (Value R)) (calls : List (Call R))
      → let out =
          (◌>>=◌ {E = Error}
              (λ s. (target, s))
              λ t.
                ◌>>=◌ {E = Error}
                  (λ s. (uuid, s))
                  λ u.
                    ◌>>=◌ {E = Error}
                      (λ s. (name, s))
                      λ n. ◌>>=◌ {E = Error} (λ s. (prev, s)) λ p. emit (balloon_target u t))
            calls in
        Sent calls (target_call target uuid) out.0 out.1
  unfolding ◌>>=◌ emit
  resize-Sent (ok t) (ok u) (ok n) (ok p) calls = refl
  resize-Sent (ok t) (ok u) (ok n) (err e) calls = refl
  resize-Sent (ok t) (ok u) (err e) prev calls = refl
  resize-Sent (ok t) (err e) name prev calls = refl
  resize-Sent (err e) uuid name prev calls = refl

  process_guest-Sends : Sends {R = R} process_guest target
  unfolding process_guest ◌>>=◌ emit
  process_guest-Sends = record {
    at = λ guest calls. elim (Bool-cases (is_none (get_control guest "balloon_target"))) [
      | inl unset ↦ rw unset (sym (append-nil calls))
      | inr asked ↦ rw asked (
          resize-Sent (to_int (get_control guest "balloon_target")) (prop guest "uuid")
            (prop guest "name") (stat guest "balloon_cur" nothing) calls)
    ];
  }

  -- A pass over the guests sends one balloon target, in the guests' order, to each guest whose rules
  -- set one, and nothing to the others; if a guest raises, the guests before it were served, and it
  -- and those after it were not.
  pub process-sends :
      (guests : List (Entity R)) (calls : List (Call R))
      → Outcome target guests calls (process guests calls).0 (process guests calls).1
  unfolding process
  process-sends guests calls = for_each-sends process_guest target process_guest-Sends guests calls
