-- ===== src/Hypervisor/Memoize/Once.antt =====
-- A memoized function is called once within the expiration (mom/HypervisorInterfaces/vdsmCommon.py).
use mom.Prelude.{
  ℕ, ◌≤◌, ◌≡◌, refl, String, false, Option, none, some, List, [], ◌∷◌, Result, ok, err, All, ◌==◌,
  eq_iff, eq_refl, arith, Bool-cases, inl, inr, if◌then◌else◌,
}
use mom.Prelude.Dict.{lookup, lookup-insert}
use mom.Prelude.Int
use mom.Prelude.Int.{ℤ, pos, negsuc, pos_part, neg_part, ◌+ℤ◌, ◌-ℤ◌, ◌≤ℤ◌, ltb_ℤ, +ℤ_parts}
use mom.Python.Value.{Error}
use mom.Hypervisor.Memoize.{Call, Cache, refresh, is_expired, answer, memoizer}

abs_bounded :
    (bound : ℕ) (d : ℤ)
    → pos_part d ≤ bound
    → neg_part d ≤ bound
    → ltb_ℤ (pos bound) (Int.abs d) ≡ false
unfolding Int.abs
abs_bounded bound (pos n) h k = ground arith
abs_bounded bound (negsuc n) h k = ground arith

sub_bounded :
    (bound : ℕ) (a b : ℤ)
    → a ≤ℤ b +ℤ pos bound
    → b ≤ℤ a +ℤ pos bound
    → (pos_part (a -ℤ b) ≤ bound) × (neg_part (a -ℤ b) ≤ bound)
unfolding ◌-ℤ◌
sub_bounded bound a b h k = ground (arith, +ℤ_parts b (pos bound), +ℤ_parts a (pos bound))

unexpired :
    (expiration : ℕ) (now stamp : ℤ)
    → now ≤ℤ stamp +ℤ pos expiration
    → stamp ≤ℤ now +ℤ pos expiration
    → is_expired expiration now stamp ≡ false
unexpired expiration now stamp h k =
    let (above, below) = sub_bounded expiration now stamp h k in
    abs_bounded expiration (now -ℤ stamp) above below

-- The two times are at most the expiration apart.
abbrev pub Near : ℕ → ℤ → ℤ → Type 0
Near expiration t now = (now ≤ℤ t +ℤ pos expiration) × (t ≤ℤ now +ℤ pos expiration)

module _ {A : Type 0} (expiration : ℕ) (key : String) (v : A) where
  -- The calls one after another: each that has the arguments `key` returns the value.
  abbrev pub AllReturn : List (Call A) → Cache A → Type 0
  AllReturn [] cache = Unit
  AllReturn (c ∷ calls) cache =
      (if c.key == key then ((memoizer expiration c cache).0 ≡ ok v) else Unit)
      × AllReturn calls (memoizer expiration c cache).1

  other-refresh :
      (t : ℤ) (c : Call A) (cache : Cache A) (r : Result Error A)
      → (c.key == key) ≡ false
      → lookup key cache ≡ some (t, v)
      → lookup key (refresh c.key c.now r cache).1 ≡ some (t, v)
  other-refresh t c cache (ok w) other h = rw (lookup-insert key c.key (c.now, w) cache, other) h
  other-refresh t c cache (err x) other h = h

  -- A call with other arguments leaves the value.
  other-answer :
      (t : ℤ) (c : Call A) (cache : Cache A) (o : Option (ℤ × A))
      → (c.key == key) ≡ false
      → lookup key cache ≡ some (t, v)
      → lookup key (answer expiration c o cache).1 ≡ some (t, v)
  other-answer t c cache none other h = other-refresh t c cache c.outcome other h
  other-answer t c cache (some (stamp, w)) other h =
      elim (Bool-cases (is_expired expiration c.now stamp)) [
        | inl old ↦ rw old (other-refresh t c cache c.outcome other h)
        | inr fresh ↦ rw fresh h
      ]

  stored-AllReturn :
      (t : ℤ) (calls : List (Call A)) (cache : Cache A)
      → lookup key cache ≡ some (t, v)
      → All (λ c. Near expiration t c.now) calls
      → AllReturn calls cache
  unfolding memoizer
  stored-AllReturn t [] cache h near = tt
  stored-AllReturn t (c ∷ calls) cache h ((later, earlier), near) =
      elim (Bool-cases (c.key == key)) [
        | inl same ↦
            let equal = (eq_iff c.key key).0 same in
            rw (same, equal, h, unexpired expiration c.now t later earlier)
              (refl, stored-AllReturn t calls cache h near)
        | inr other ↦ rw other (
          tt,
          stored-AllReturn t calls _ (other-answer t c cache (lookup c.key cache) other h) near,
        )
      ]

-- If the function gives a value to a call whose arguments the cache does not have, then this call and
-- every call with the same arguments whose time is at most the expiration before or after it return
-- that value, whatever the function would give later, and whatever calls with other arguments, at most
-- as far from it, are made among them.
pub memoizer-AllReturn :
    {A : Type 0} (expiration : ℕ) (c : Call A) (v : A) (calls : List (Call A)) (cache : Cache A)
    → lookup c.key cache ≡ none
    → c.outcome ≡ ok v
    → All (λ next. Near expiration c.now next.now) calls
    → AllReturn expiration c.key v (c ∷ calls) cache
unfolding memoizer
memoizer-AllReturn expiration c v calls cache new gave near =
    rw (eq_refl c.key, new, gave)
      (
        refl,
        stored-AllReturn expiration c.key v c.now calls _
            (rw (lookup-insert c.key c.key (c.now, v) cache, eq_refl c.key) refl) near,
      )
