-- ===== src/Hypervisor/Memoize/Freshness.antt =====
-- What a memoized function returns is never older than the expiration.
use mom.Prelude.{
  ℕ, ◌≤◌, ◌≡◌, refl, ap, ◌∙◌, String, false, Option, none, some, List, [], ◌∷◌, Result, ok, err,
  ◌==◌, eq_iff, arith, Bool-cases, inl, inr,
}
use mathlib.Core.Option.{some-injective}
use mom.Prelude.Dict.{lookup, lookup-insert}
use mom.Prelude.Int
use mom.Prelude.Int.{
  ℤ, pos, negsuc, pos_part, neg_part, ◌+ℤ◌, ◌-ℤ◌, ◌≤ℤ◌, ltb_ℤ, sub_self, +ℤ_parts, -ℤ_parts,
}
use mom.Python.Value.{Error}
use mom.Hypervisor.Memoize.{Call, Cache, refresh, is_expired, answer, memoizer}

now_is_fresh : (expiration : ℕ) (now : ℤ) → is_expired expiration now now ≡ false
unfolding Int.abs
now_is_fresh expiration now = rw (← sub_self now) (ground arith)

abs_bounds :
    (bound : ℕ) (d : ℤ)
    → ltb_ℤ (pos bound) (Int.abs d) ≡ false
    → (pos_part d ≤ bound) × (neg_part d ≤ bound)
unfolding Int.abs
abs_bounds bound (pos n) h = ground arith
abs_bounds bound (negsuc n) h = ground arith

-- what the test of the code says of the two times
within_expiration :
    (expiration : ℕ) (now stamp : ℤ)
    → is_expired expiration now stamp ≡ false
    → (now ≤ℤ stamp +ℤ pos expiration) × (stamp ≤ℤ now +ℤ pos expiration)
within_expiration expiration now stamp h =
    let bounds = abs_bounds expiration (now -ℤ stamp) h in
    (
      omega (arith, bounds, -ℤ_parts now stamp, +ℤ_parts stamp (pos expiration)),
      omega (arith, bounds, -ℤ_parts now stamp, +ℤ_parts now (pos expiration)),
    )

module _ {A : Type 0} where
  -- The latest call comes first.
  pub data Made : List (Call A) → String → ℤ → A → Type 0 where
    here :
        {c : Call A} {calls : List (Call A)} {key : String} {t : ℤ} {v : A}
        → c.key ≡ key
        → c.now ≡ t
        → c.outcome ≡ ok v
        → Made (c ∷ calls) key t v
    before :
        {c : Call A} {calls : List (Call A)} {key : String} {t : ℤ} {v : A}
        → Made calls key t v
        → Made (c ∷ calls) key t v

  -- The caches that a sequence of calls leads to.
  pub data Reaches (expiration : ℕ) : List (Call A) → Cache A → Type 0 where
    start : Reaches expiration [] []
    called :
        {calls : List (Call A)} {cache : Cache A} (c : Call A)
        → Reaches expiration calls cache
        → Reaches expiration (c ∷ calls) (memoizer expiration c cache).1

  abbrev Stored : List (Call A) → Cache A → Type 0
  Stored calls cache =
      (key : String) (t : ℤ) (v : A) → lookup key cache ≡ some (t, v) → Made calls key t v

  -- What a call may return: a value that was made at most `expiration` before or after now.
  abbrev pub Fresh : ℕ → List (Call A) → String → ℤ → Result Error A → Type 0
  Fresh expiration calls key now (ok v) =
      (t : ℤ) × Made calls key t v × (now ≤ℤ t +ℤ pos expiration) × (t ≤ℤ now +ℤ pos expiration)
  Fresh expiration calls key now (err e) = Unit

  refresh-Stored :
      (c : Call A) (calls : List (Call A)) (cache : Cache A) (r : Result Error A)
      → c.outcome ≡ r
      → Stored calls cache
      → Stored (c ∷ calls) (refresh c.key c.now r cache).1
  refresh-Stored c calls cache (ok w) e s key t v h = elim (Bool-cases (c.key == key)) [
    | inl same ↦
        let stored =
          some-injective (c.now, w) (t, v)
            (rw (lookup-insert key c.key (c.now, w) cache, same) at h) in
        here ((eq_iff c.key key).0 same) (ap (λ x. x.0) stored) (e ∙ ap (λ x. ok x.1) stored)
    | inr other ↦ before (s key t v (rw (lookup-insert key c.key (c.now, w) cache, other) at h))
  ]
  refresh-Stored c calls cache (err x) e s key t v h = before (s key t v h)

  refresh-Fresh :
      (expiration : ℕ) (c : Call A) (calls : List (Call A)) (cache : Cache A) (r : Result Error A)
      → c.outcome ≡ r
      → Fresh expiration (c ∷ calls) c.key c.now (refresh c.key c.now r cache).0
  refresh-Fresh expiration c calls cache (ok v) e =
      let (later, earlier) =
        within_expiration expiration c.now c.now (now_is_fresh expiration c.now) in
      (c.now, here refl refl e, later, earlier)
  refresh-Fresh expiration c calls cache (err x) e = tt

  -- both facts of one call, by what the cache has
  answered :
      (expiration : ℕ) (c : Call A) (calls : List (Call A)) (cache : Cache A) (o : Option (ℤ × A))
      → lookup c.key cache ≡ o
      → Stored calls cache
      → let r = answer expiration c o cache in
        Fresh expiration (c ∷ calls) c.key c.now r.0 × Stored (c ∷ calls) r.1
  answered expiration c calls cache none e s =
      (refresh-Fresh expiration c calls cache _ refl, refresh-Stored c calls cache _ refl s)
  answered expiration c calls cache (some (t, v)) e s =
      elim (Bool-cases (is_expired expiration c.now t)) [
        | inl old ↦
            rw old
              (refresh-Fresh expiration c calls cache _ refl, refresh-Stored c calls cache _ refl s)
        | inr fresh ↦
            let (later, earlier) = within_expiration expiration c.now t fresh in
            rw fresh
              ((t, before (s c.key t v e), later, earlier), λ key t' v' h. before (s key t' v' h))
      ]

  Reaches-Stored :
      {expiration : ℕ} {calls : List (Call A)} {cache : Cache A}
      → Reaches expiration calls cache
      → Stored calls cache
  unfolding memoizer
  Reaches-Stored start = λ key t v h. cc
  Reaches-Stored {expiration} (called {calls} {cache} c r) =
      (answered expiration c calls cache (lookup c.key cache) refl (Reaches-Stored r)).1

  -- After any calls, a call that returns a value returns one that the function gave to a call with
  -- the same arguments, this one or an earlier one, whose time is at most the expiration before
  -- now, and, if the clock went back, at most the expiration after it.
  pub memoizer-Fresh :
      (expiration : ℕ) (calls : List (Call A)) (cache : Cache A) (c : Call A)
      → Reaches expiration calls cache
      → Fresh expiration (c ∷ calls) c.key c.now (memoizer expiration c cache).0
  unfolding memoizer
  memoizer-Fresh expiration calls cache c r =
      (answered expiration c calls cache (lookup c.key cache) refl (Reaches-Stored r)).0
