-- ===== src/Energy/Msr/Wrap.antt =====
-- The difference of two readings of a 32 bit counter, across the wrap.
use mammut.Common.{ℕ, ◌+◌, ◌-◌, ◌%◌, ◌^◌, ◌≤◌, ◌<◌, ◌≡◌, arith}
use mammut.Energy.Msr.{delta_diff}

-- For 32 bit readings `deltaDiff` is the subtraction modulo 2 ^ 32, on both branches.
pub delta_diff_lem :
    (c1 c2 : ℕ) → c1 < 2 ^ 32 → c2 < 2 ^ 32 → delta_diff c1 c2 ≡ (c2 + 2 ^ 32 - c1) % 2 ^ 32
unfolding delta_diff
delta_diff_lem c1 c2 h1 h2 = ground arith

-- If a count that never falls grew by less than 2 ^ 32 between two readings of its low 32 bits,
-- their `deltaDiff` is the growth.
pub delta_diff-growth :
    (before after : ℕ)
    → before ≤ after
    → after < before + 2 ^ 32
    → delta_diff (before % 2 ^ 32) (after % 2 ^ 32) ≡ after - before
unfolding delta_diff
delta_diff-growth before after le lt = ground arith
