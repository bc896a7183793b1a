-- ===== src/Energy/Msr/Init.antt =====
-- `CounterCpusLinuxMsr::init` and the tests it makes of the processors. The start of the thread that
-- refreshes the counters is its last act and is left out.
pub mod Laws
mod Examples
use Prim.Native.Nat.{bit_and}
use mathlib.Core.Option
use mammut.Common.{
  ℕ, zero, suc, ◌+◌, ◌/◌, ◌^◌, max, ◌≡◌, Bool, true, false, not, ◌&&◌, ◌||◌, Option, some, none,
  List, [], ◌∷◌, map, length, replicate, take, ltb, ◌==◌, if◌then◌else◌, Error, Result, ok, throw,
  ◌>>=◌, Text, codes, text_eq,
}
use mammut.Energy.Msr.{
  CpuFamily, intel, amd, Registers, Track, Slot, Counter, reset, msr_pkg_energy_status_intel,
  msr_pp0_energy_status_intel, msr_pp1_energy_status_intel, msr_dram_energy_status_intel,
  msr_pkg_energy_status_amd,
}

abbrev msr_rapl_power_unit_intel : ℕ
msr_rapl_power_unit_intel = 0x606

abbrev msr_pkg_power_info_intel : ℕ
msr_pkg_power_info_intel = 0x614

abbrev msr_rapl_power_unit_amd : ℕ
msr_rapl_power_unit_amd = 0xC0010299

-- A `topology::Cpu`: its id, its first virtual core, and two lines of /proc/cpuinfo.
pub record CpuInfo : Type 0 where
  pub cpu_id : ℕ
  pub core : ℕ
  pub vendor_id : Text
  pub family : Text

-- `Msr(core)`: `none` if the file cannot be opened, or else what `Msr::read` finds in a register.
abbrev pub Machine : Type 0
Machine = ℕ → Option (ℕ → Option ℕ)

pub available : Machine → ℕ → Bool
available m core = elim (m core) [ none ↦ false | some r ↦ true ]

pub read_msr : Machine → ℕ → ℕ → Option ℕ
read_msr m core which = elim (m core) [ none ↦ none | some r ↦ r which ]

can_read : Option ℕ → Bool
can_read none = false
can_read (some v) = true

can_read_nonzero : Option ℕ → Bool
can_read_nonzero none = false
can_read_nonzero (some v) = not (v == 0)

abbrev starts_with : Text → Text → Bool
starts_with s prefix = text_eq (take 12 s) prefix

-- `hasCoresCounter`
pub has_cores_counter : CpuFamily → Machine → CpuInfo → Bool
has_cores_counter intel m cpu = can_read_nonzero (read_msr m cpu.core msr_pp0_energy_status_intel)
has_cores_counter amd m cpu = false

-- `hasGraphicCounter`
pub has_graphic_counter : CpuFamily → Machine → CpuInfo → Bool
has_graphic_counter intel m cpu = can_read_nonzero (read_msr m cpu.core msr_pp1_energy_status_intel)
has_graphic_counter amd m cpu = false

-- `hasDramCounter`
pub has_dram_counter : CpuFamily → Machine → CpuInfo → Bool
has_dram_counter intel m cpu = can_read_nonzero (read_msr m cpu.core msr_dram_energy_status_intel)
has_dram_counter amd m cpu = false

-- `isCpuIntelSupported`
pub is_cpu_intel_supported : Machine → CpuInfo → Bool
is_cpu_intel_supported m cpu =
    text_eq cpu.family (codes "6")
    && starts_with cpu.vendor_id (codes "GenuineIntel")
    && available m cpu.core
    && can_read_nonzero (read_msr m cpu.core msr_rapl_power_unit_intel)
    && can_read_nonzero (read_msr m cpu.core msr_pkg_power_info_intel)
    && can_read (read_msr m cpu.core msr_pkg_energy_status_intel)

-- `isCpuAMDSupported`
pub is_cpu_amd_supported : Machine → CpuInfo → Bool
is_cpu_amd_supported m cpu =
    text_eq cpu.family (codes "23")
    && starts_with cpu.vendor_id (codes "AuthenticAMD")
    && available m cpu.core
    && can_read_nonzero (read_msr m cpu.core msr_rapl_power_unit_amd)
    && can_read (read_msr m cpu.core msr_pkg_energy_status_amd)

-- `isCpuSupported`
pub is_cpu_supported : Machine → CpuInfo → Bool
is_cpu_supported m cpu = is_cpu_intel_supported m cpu || is_cpu_amd_supported m cpu

pub all_supported : Machine → List CpuInfo → Bool
all_supported m [] = true
all_supported m (cpu ∷ cpus) = is_cpu_supported m cpu && all_supported m cpus

-- The vendor test at the head of `init`.
pub family_of : CpuInfo → Option CpuFamily
family_of cpu =
    if starts_with cpu.vendor_id (codes "GenuineIntel")
    then some intel
    else if starts_with cpu.vendor_id (codes "AuthenticAMD")
    then some amd
    else none

-- The loop that finds `_maxId`.
pub max_id : ℕ → List CpuInfo → ℕ
max_id top [] = top
max_id top (cpu ∷ cpus) = max_id (if ltb top cpu.cpu_id then cpu.cpu_id else top) cpus

-- The loop that fills `_msrs`.
pub open_msrs : Machine → List CpuInfo → Result (List ℕ)
open_msrs m [] = ok []
open_msrs m (cpu ∷ cpus) =
    if available m cpu.core
    then (open_msrs m cpus >>= λ ids. ok (cpu.cpu_id ∷ ids))
    else throw Error.open_failed

-- `_msrs[id]` after the loop: the last CPU of that id.
pub core_of : List CpuInfo → ℕ → Option ℕ
core_of [] id = none
core_of (cpu ∷ cpus) id = elim (core_of cpus id) [
  | some core ↦ some core
  | none ↦ if cpu.cpu_id == id then some cpu.core else none
]

pub registers : List CpuInfo → Machine → Registers
registers cpus m id which = elim (core_of cpus id) [
  | none ↦ none
  | some core ↦ read_msr m core which
]

-- The three flags: `true` unless some CPU lacks the register.
pub all_have : (CpuFamily → Machine → CpuInfo → Bool) → CpuFamily → Machine → List CpuInfo → Bool
all_have has f m [] = true
all_have has f m (cpu ∷ cpus) = has f m cpu && all_have has f m cpus

-- `_powerPerUnit`, `_energyPerUnit` and `_timePerUnit` are these powers of 0.5; the thermal
-- specification power is a number of power units, or 180 W.
pub data ThermalSpec : Type 0 where
  power_units : ℕ → ThermalSpec
  watts : ℕ → ThermalSpec

pub record Units : Type 0 where
  pub power : ℕ
  pub energy : ℕ
  pub time : ℕ
  pub thermal_spec : ThermalSpec

unit_register : CpuFamily → ℕ
unit_register intel = msr_rapl_power_unit_intel
unit_register amd = msr_rapl_power_unit_amd

thermal_of : CpuFamily → Registers → ℕ → ThermalSpec
thermal_of intel hw top =
    power_units (bit_and (Option.get_or (hw top msr_pkg_power_info_intel) 0) 0x7FFF)
thermal_of amd hw top = watts 180

pub units_of : CpuFamily → Registers → ℕ → Units
unfolding unit_register thermal_of
units_of f hw top =
    let result = Option.get_or (hw top (unit_register f)) 0 in
    record {
      power = bit_and result 0xF;
      energy = bit_and (result / 2 ^ 8) 0x1F;
      time = bit_and (result / 2 ^ 16) 0xF;
      thermal_spec = thermal_of f hw top;
    }

abbrev blank : Slot
blank =
    let t : Track = record { joules = 0; last = 0 } in
    record { cpu = t; cores = t; graphic = t; dram = t }

-- The members as they stand before the call of `reset`. The arrays are not initialised there: for
-- each component that is present `reset` writes what the other methods read.
pub new_counter : CpuFamily → List CpuInfo → Machine → List ℕ → Counter
new_counter f cpus m opened = record {
  family = f;
  opened = opened;
  num_cpus = length cpus;
  slots = replicate (suc (max_id 0 cpus)) blank;
  has_cores = all_have has_cores_counter f m cpus;
  has_graphic = all_have has_graphic_counter f m cpus;
  has_dram = all_have has_dram_counter f m cpus;
}

-- `init` once the family is known and every CPU is supported.
pub start : CpuFamily → List CpuInfo → Machine → Result (Counter × Units)
start f cpus m = do
  opened ← open_msrs m cpus
  c ← reset (new_counter f cpus m opened) (registers cpus m)
  ok (c, units_of f (registers cpus m) (max_id 0 cpus))

init_family : Option CpuFamily → List CpuInfo → Machine → Result (Option (Counter × Units))
init_family none cpus m = ok none
init_family (some f) cpus m =
    if all_supported m cpus then (start f cpus m >>= λ c. ok (some c)) else ok none

-- `init`; `ok none` for the result `false`. `_cpus[0]` is read without a test.
pub init : List CpuInfo → Machine → Result (Option (Counter × Units))
unfolding init_family
init [] m = throw Error.uninitialised
init (cpu ∷ cpus) m = init_family (family_of cpu) (cpu ∷ cpus) m
