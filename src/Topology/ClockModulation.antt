-- ===== src/Topology/ClockModulation.antt =====
-- The clock modulation of a virtual core, src/topology/topology-linux.cpp: the table of values built
-- by `VirtualCoreLinux`, and the duty cycle set and read through bits 4 to 0 of the register
-- MSR_CLOCK_MODULATION. A percentage is counted in hundredths: 6.25 is 625, 12.5 is 1250, 100 is
-- 10000, so the source's floating point values and their quotients are exact.
pub mod Laws
use Prim.Native.Nat.{bit_and}
use mathlib.Core.Option
use mammut.Common.{
  ℕ, zero, suc, ◌+◌, ◌-◌, ◌*◌, ◌/◌, ◌%◌, ◌^◌, ◌≤◌, ◌<◌, ◌≡◌, refl, ap, sym, ◌∙◌, ◌⊎◌, inl, inr,
  Bool, true, false, Option, some, none, List, [], ◌∷◌, ◌++◌, ◌==◌, if◌then◌else◌, arith, Result,
  ok, throw, Error,
}
use mammut.Utils.Msr.{Device, read, read_bits, write_bits}
use mammut.Utils.Vectors.{contains}

-- `_clkModLowBit`, `_clkModStep` and `_clkModValues`.
pub record Table : Type 0 where
  pub low_bit : ℕ
  pub step : ℕ
  pub values : List ℕ

abbrev pub msr_clock_modulation : ℕ
msr_clock_modulation = 0x19a

-- The loop that pushes `step * (i + 1)`, with `left` rounds to go.
unfoldable pub push_values : ℕ → ℕ → ℕ → List ℕ
push_values zero i step = []
push_values (suc left) i step = step * (i + 1) ∷ push_values left (i + 1) step

-- The part of the constructor of `VirtualCoreLinux` that fills the table, for the register EAX of
-- CPUID leaf 6.
unfoldable pub init_table : ℕ → Table
unfolding push_values
init_table eax =
    if bit_and eax (2 ^ 5) == 0
    then record { low_bit = 1; step = 1250; values = push_values 7 0 1250 ++ 10000 ∷ [] }
    else record { low_bit = 0; step = 625; values = push_values 15 0 625 ++ 10000 ∷ [] }

module _ (d : Device) (junk : ℕ) (table : Table) where
  open d use {State}

  -- `writeBits` with its result ignored.
  write_ignoring : State → ℕ → ℕ → ℕ → State
  write_ignoring s high low value =
      Option.get_or (write_bits d junk s msr_clock_modulation high low value) s

  -- `VirtualCoreLinux::setClockModulation`
  pub set_clock_modulation : State → ℕ → Result State
  unfolding write_ignoring
  set_clock_modulation s value =
      if contains table.values value
      then ok (
          if value == 10000
          then write_ignoring s 4 table.low_bit 0
          else write_ignoring (write_ignoring s 4 4 1) 3 table.low_bit (value / table.step))
      else throw Error.wrong_modulation

  -- `VirtualCoreLinux::getClockModulation`; a field that cannot be read counts as 0.
  unfoldable pub get_clock_modulation : State → ℕ
  get_clock_modulation s =
      if Option.get_or (read_bits d s msr_clock_modulation 4 4) 0 == 0
      then 10000
      else Option.get_or (read_bits d s msr_clock_modulation 3 table.low_bit) 0 * table.step
