-- ===== src/Hypervisor/Memoize.antt =====
-- `memoize` of mom/HypervisorInterfaces/vdsmCommon.py: a cache whose values expire. What the decorated
-- function does when it is called, and the clock, which counts ticks, are parameters; the lock makes a
-- call one step. `cache` and `timestamps` are written together, so they are one dictionary.
pub mod Freshness
pub mod Once
use mom.Prelude.{ℕ, String, Bool, Option, none, some, Result, ok, err, if◌then◌else◌}
use mom.Prelude.Dict.{Dict, lookup, insert}
use mom.Prelude.Int
use mom.Prelude.Int.{ℤ, pos, ◌-ℤ◌, ltb_ℤ}
use mom.Python.Value.{Error}

-- A call: its arguments as a text, the time, and what the function would do.
pub record Call (A : Type 0) : Type 0 where
  pub key : String
  pub now : ℤ
  pub outcome : Result Error A

abbrev pub Cache : Type 0 → Type 0
Cache A = Dict (ℤ × A)

-- abs(now - timestamps[key]) > expiration
abbrev pub is_expired : ℕ → ℤ → ℤ → Bool
is_expired expiration now stamp = ltb_ℤ (pos expiration) (Int.abs (now -ℤ stamp))

module _ {A : Type 0} where
  -- the function is called; an exception leaves the cache alone
  abbrev pub refresh : String → ℤ → Result Error A → Cache A → Result Error A × Cache A
  refresh key now (ok v) cache = (ok v, insert key (now, v) cache)
  refresh key now (err e) cache = (err e, cache)

  abbrev pub answer : ℕ → Call A → Option (ℤ × A) → Cache A → Result Error A × Cache A
  answer expiration c none cache = refresh c.key c.now c.outcome cache
  answer expiration c (some (stamp, v)) cache =
      let refreshed = refresh c.key c.now c.outcome cache in
      if is_expired expiration c.now stamp then refreshed else (ok v, cache)

  unfoldable pub memoizer : ℕ → Call A → Cache A → Result Error A × Cache A
  memoizer expiration c cache = answer expiration c (lookup c.key cache) cache
