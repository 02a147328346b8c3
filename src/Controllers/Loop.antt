-- ===== src/Controllers/Loop.antt =====
-- The loop over the guests that Balloon and CpuTune share: if each guest is sent its own calls or
-- raises and is sent none, then the loop sends the calls of all guests in order, or those of the
-- guests before the one that raised.
use mom.Prelude.{◌≡◌, refl, sym, ◌∙◌, ap, List, [], ◌∷◌, ◌++◌, Result, ok, err, proceed, ◌>>=◌}
use mathlib.Core.List.{append_assoc, append-nil}
use mom.Python.Value.{Error}
use mom.Entity.{Entity}
use mom.Controllers.Calls.{Call, C, for_each}

module _ {R : Type 0} where
  -- the calls of all guests, in order
  abbrev pub calls_of : (Entity R → List (Call R)) → List (Entity R) → List (Call R)
  calls_of wanted [] = []
  calls_of wanted (guest ∷ guests) = wanted guest ++ calls_of wanted guests

  abbrev pub Sent : List (Call R) → List (Call R) → Result Error (Unit {0}) → List (Call R) → Type 0
  Sent calls wanted (ok _) calls' = calls' ≡ calls ++ wanted
  Sent calls wanted (err e) calls' = calls' ≡ calls

  -- One guest is sent what it wants, or nothing and an exception.
  pub record Sends (process_guest : Entity R → C R (Unit {0})) (wanted : Entity R → List (Call R))
      : Type 0 where
    pub at :
        (guest : Entity R) (calls : List (Call R))
        → Sent calls (wanted guest) (process_guest guest calls).0 (process_guest guest calls).1

  -- The guests before the one that raised.
  pub record Stopped (wanted : Entity R → List (Call R)) (guests : List (Entity R))
      (calls calls' : List (Call R)) : Type 0 where
    pub before : List (Entity R)
    pub guest : Entity R
    pub after : List (Entity R)
    pub split : guests ≡ before ++ guest ∷ after
    pub sent : calls' ≡ calls ++ calls_of wanted before

  abbrev pub Outcome :
      (Entity R → List (Call R))
      → List (Entity R)
      → List (Call R)
      → Result Error (Unit {0})
      → List (Call R)
      → Type 0
  Outcome wanted guests calls (ok _) calls' = calls' ≡ calls ++ calls_of wanted guests
  Outcome wanted guests calls (err e) calls' = Stopped wanted guests calls calls'

  module _ (process_guest : Entity R → C R (Unit {0})) (wanted : Entity R → List (Call R))
      (sends : Sends process_guest wanted) where
    continued :
        (guest : Entity R) (guests : List (Entity R)) (calls calls₁ : List (Call R))
        (r : Result Error (Unit {0})) (calls₂ : List (Call R))
        → calls₁ ≡ calls ++ wanted guest
        → Outcome wanted guests calls₁ r calls₂
        → Outcome wanted (guest ∷ guests) calls r calls₂
    continued guest guests calls calls₁ (ok u) calls₂ first rest = rest ∙ rw (first, append_assoc)
    continued guest guests calls calls₁ (err e) calls₂ first rest = record {
      before = guest ∷ rest.before;
      guest = rest.guest;
      after = rest.after;
      split = ap (λ gs. guest ∷ gs) rest.split;
      sent = rest.sent ∙ rw (first, append_assoc);
    }

    stepped :
        (guest : Entity R) (guests : List (Entity R)) (calls : List (Call R))
        (r : Result Error (Unit {0})) (calls₁ : List (Call R))
        → Sent calls (wanted guest) r calls₁
        → ((c : List (Call R))
            → Outcome wanted guests c
                (for_each process_guest guests c).0
                (for_each process_guest guests c).1)
        → let out = proceed r (λ _. for_each process_guest guests) calls₁ in
          Outcome wanted (guest ∷ guests) calls out.0 out.1
    stepped guest guests calls (ok u) calls₁ first rest =
        continued guest guests calls calls₁ _ _ first (rest calls₁)
    stepped guest guests calls (err e) calls₁ first rest = record {
      before = [];
      guest = guest;
      after = guests;
      split = refl;
      sent = first ∙ sym (append-nil calls);
    }

    -- The loop sends what the guests want, up to the guest that raises.
    pub for_each-sends :
        (guests : List (Entity R)) (calls : List (Call R))
        → Outcome wanted guests calls
            (for_each process_guest guests calls).0
            (for_each process_guest guests calls).1
    unfolding for_each ◌>>=◌
    for_each-sends [] calls = sym (append-nil calls)
    for_each-sends (guest ∷ guests) calls =
        stepped guest guests calls (process_guest guest calls).0 (process_guest guest calls).1
          (sends.at guest calls) (for_each-sends guests)
