-- ===== src/Collectors/HostKsm/Wrap.antt =====
-- The processor time of ksmd in an interval (mom/Collectors/HostKSM.py) when its counter wraps.
use mom.Prelude.{ℕ, ◌+◌, ◌%◌, ◌^◌, ◌<◌, ◌≡◌, arith}
use mom.Prelude.Int.{ℤ, pos, ◌-ℤ◌}
use mom.Collectors.HostKsm.{modulo, interval_jiffs}

-- A counter that is kept modulo 2 ^ 32 gives the ticks between two reads, though it wrapped between
-- them, if there were fewer than 2 ^ 32.
pub interval_jiffs_wrap :
    (t d : ℕ) → d < 2 ^ 32 → interval_jiffs (pos ((t + d) % 2 ^ 32)) (pos (t % 2 ^ 32)) ≡ d
unfolding interval_jiffs modulo ◌-ℤ◌
interval_jiffs_wrap t d h = ground arith

-- The ticks are below 2 ^ 32 for any two counts.
pub interval_jiffs_lt : (cur last : ℤ) → interval_jiffs cur last < 2 ^ 32
unfolding interval_jiffs modulo
interval_jiffs_lt cur last = ground arith
