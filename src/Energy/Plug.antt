-- ===== src/Energy/Plug.antt =====
-- The plug counters of src/energy/energy-linux.cpp that integrate power over time:
-- CounterPlugFileLinux, on a file that another program writes, and CounterPlugINALinux, on the INA231
-- sensors. Power is counted in milliwatts and time in milliseconds, so energy in microjoules; the
-- rounding of `double` is not modelled. The readings are arguments.
mod Totals
mod Examples
use mammut.Common.{ℕ, ◌+◌, ◌-◌, ◌*◌, List, [], ◌∷◌}

-- `_cumulativeJoules`, and `_lastTimestamp` or `_lastRead`.
pub record Plug : Type 0 where
  pub cumulative : ℕ
  pub last : ℕ

-- `CounterPlugFileLinux::getJoules`, for the power read and the time.
pub file_get_joules : Plug → ℕ → ℕ → Plug × ℕ
file_get_joules p watts now =
    let cumulative = p.cumulative + watts * (now - p.last) in
    (record { cumulative = cumulative; last = now }, cumulative)

-- `CounterPlugINALinux::getJoules`, for the power of the two sensors and the time.
pub ina_get_joules : Plug → ℕ → ℕ → ℕ → Plug × ℕ
ina_get_joules p watts_a7 watts_a15 now =
    let j = (watts_a7 + watts_a15) * (now - p.last) in
    (record { cumulative = p.cumulative + j; last = now }, j)

-- `reset` of either class.
pub reset : Plug → ℕ → Plug
reset p now = record { cumulative = 0; last = now }

-- Calls of `CounterPlugFileLinux::getJoules` with the power and the time of each.
pub file_polls : Plug → List (ℕ × ℕ) → Plug
file_polls p [] = p
file_polls p ((watts, now) ∷ rest) = file_polls (file_get_joules p watts now).0 rest
