-- ===== src/IoTune/Unchanged.antt =====
-- From the collector mom/Collectors/GuestIoTune.py to the controller mom/Controllers/IoTune.py.
use mathlib.Core.Path.{subst}
use mom.Prelude.{
  ◌≡◌, refl, String, Bool, true, false, Option, none, some, List, [], ◌∷◌, Result, ok, err, pure,
  lift, proceed, ◌>>=◌, if◌then◌else◌, arith,
}
use mom.Python.Value.{Error}
use mom.Hypervisor.Json.{Json, item}
use mom.IoTune.{Tune}
use mom.IoTune.Equality.{equal_refl, Distinct}
use mom.IoTune.Collector.{T, tune_of, pair_all, collect}
use mom.IoTune.Controller.{Call, changed_list, process_guest}

-- Each tune has the limits of the state at its place.
abbrev pub Paired : List Tune → List Json → Type 0
Paired [] [] = Unit
Paired (t ∷ ts) (s ∷ ss) = (item s "ioTune" ≡ ok t.current) × Paired ts ss
Paired ts ss = ⊥

abbrev pub AllDistinct : List Tune → Type 0
AllDistinct [] = Unit
AllDistinct (t ∷ ts) = Distinct t.current × AllDistinct ts

abbrev Holds : {A : Type 0} → (A → Type 0) → Result Error A → Type 0
Holds P (ok a) = P a
Holds P (err e) = Unit

-- What an action returns has a property.
After : {A : Type 0} → (A → Type 0) → T A → Type 0
After P m = (b : Bool) → Holds P (m b).0

After-bind :
    {A B : Type 0} (Q : A → Type 0) (P : B → Type 0) (m : T A) (f : A → T B)
    → After Q m
    → ((a : A) → Q a → After P (f a))
    → After P (m >>= f)
unfolding After ◌>>=◌
After-bind Q P m f hm hf b = go (m b).0 (m b).1 (hm b)
  where
    go : (r : Result Error _) (b' : Bool) → Holds Q r → Holds P (proceed r f b').0
    go (ok a) b' h = hf a h b'
    go (err e) b' h = tt

After-lift : {A : Type 0} (r : Result Error A) → After (λ a. r ≡ ok a) (lift r)
unfolding After ◌>>=◌
After-lift (ok a) b = refl
After-lift (err e) b = tt

After-pure : {A : Type 0} (P : A → Type 0) (a : A) → P a → After P (pure a)
unfolding After ◌>>=◌
After-pure P a h b = h

After-option :
    {A B : Type 0} (P : B → Type 0) (o : Option A) (m : T B) (f : A → T B)
    → After P m
    → ((a : A) → After P (f a))
    → After P (elim o [ none ↦ m | some a ↦ f a ])
After-option P none m f hm hf = hm
After-option P (some a) m f hm hf = hf a

After-if :
    {B : Type 0} (P : B → Type 0) (c : Bool) (m n : T B)
    → After P m
    → After P n
    → After P (if c then m else n)
After-if P true m n hm hn = hm
After-if P false m n hm hn = hn

any-Holds : {A : Type 0} (r : Result Error A) → Holds (λ a. Unit {0}) r
any-Holds (ok a) = tt
any-Holds (err e) = tt

After-any : {A : Type 0} (m : T A) → After (λ a. Unit {0}) m
unfolding After
After-any m b = any-Holds (m b).0

tune_of-current :
    (limits state : Json) → After (λ t. item state "ioTune" ≡ ok t.current) (tune_of limits state)
unfolding tune_of
tune_of-current limits state = After-bind _ _ _ _ (After-lift _) λ name n.
    After-bind _ _ _ _ (After-lift _) λ path p. After-bind _ _ _ _ (After-lift _) λ guaranteed g.
      After-bind _ _ _ _ (After-lift _)
        λ maximum m. After-bind _ _ _ _ (After-lift _) λ current c. After-pure _ _ c

pair_all-Paired :
    (states policies : List Json) → After (λ r. Paired r.0 r.1) (pair_all states policies)
unfolding pair_all
pair_all-Paired states [] = After-pure _ _ tt
pair_all-Paired states (limits ∷ policies) = After-bind _ _ _ _ (After-lift _) λ name n.
    After-bind _ _ _ _ (After-lift _) λ path p. After-bind _ _ _ _ (After-lift _) λ found f.
      After-option _ found _ _ (pair_all-Paired states policies) λ state.
        After-bind _ _ _ _ (tune_of-current limits state) λ tune t.
          After-bind _ _ _ _ (pair_all-Paired states policies) λ rest r. After-pure _ _ (t, r)

abbrev pub Matched : Option (List Tune × List Json) → Type 0
Matched none = Unit
Matched (some (tunes, states)) = Paired tunes states

collect-Matched : (policies states : Result Error Json) → After Matched (collect policies states)
unfolding collect
collect-Matched policies states = After-bind _ _ _ _ (After-any _) λ p hp.
    After-if _ _ _ _ (After-bind _ _ _ _ (After-any _) λ u hu. After-pure Matched none tt) (
      After-bind _ _ _ _ (After-any _) λ s hs.
        After-if _ _ _ _ (After-bind _ _ _ _ (After-any _) λ u hu. After-pure Matched none tt) (
          After-bind _ _ _ _ (After-any _) λ u hu. After-bind _ _ _ _ (After-any _) λ each he.
            After-bind _ _ _ _ (After-any _) λ all ha.
              After-bind _ _ _ _ (pair_all-Paired all each)
                λ found h. After-pure Matched (some found) h))

changed_list-unchanged :
    (tunes : List Tune) (states : List Json)
    → Paired tunes states
    → AllDistinct tunes
    → changed_list tunes states ≡ ok []
unfolding changed_list
changed_list-unchanged [] [] p d = refl
changed_list-unchanged [] (s ∷ ss) p d = elim p [ ]
changed_list-unchanged (t ∷ ts) [] p d = elim p [ ]
changed_list-unchanged (t ∷ ts) (s ∷ ss) (e, p) (d, ds) =
    ground (arith, e, equal_refl t.current d, changed_list-unchanged ts ss p ds)

-- What the collector found, it found for the same disks in both lists: if no rule changes a limit
-- before the controller runs, the controller reads both lists to the end without an IndexError and
-- makes no call. The dictionaries of limits have distinct keys.
pub collect-unchanged :
    (policies answers : Result Error Json) (b : Bool) (uuid : String) (tunes : List Tune)
    (states : List Json) (calls : List Call)
    → (collect policies answers b).0 ≡ ok (some (tunes, states))
    → AllDistinct tunes
    → process_guest (record { uuid = uuid; tunes = tunes; states = states }) calls ≡ (ok tt, calls)
unfolding process_guest After ◌>>=◌
collect-unchanged policies answers b uuid tunes states calls collected d =
    by_lists tunes states (subst (Holds Matched) collected (collect-Matched policies answers b)) d
  where
    by_lists :
        (tunes : List Tune) (states : List Json)
        → Paired tunes states
        → AllDistinct tunes
        → process_guest (record { uuid = uuid; tunes = tunes; states = states }) calls
          ≡ (ok tt, calls)
    by_lists [] ss p d = refl
    by_lists (t ∷ ts) [] p d = refl
    by_lists (t ∷ ts) (s ∷ ss) p d = rw (changed_list-unchanged (t ∷ ts) (s ∷ ss) p d)
