-- ===== src/Energy/Msr.antt =====
-- Class CounterCpusLinuxMsr of src/energy/energy-linux.cpp: energy counters of the processors, read
-- from 32 bit registers that wrap. `_energyPerUnit` is a power of 0.5 and each addition to a
-- `double` is a number of units times it, so energy is counted here in units, exactly; the cast of
-- a sum above 2 ^ 53 units is not modelled. The thread that refreshes the counters makes the same
-- calls as a client, under the same lock, so an interleaving is a sequence of calls.
pub mod Wrap
pub mod History
pub mod Reset
pub mod Init
mod Examples
use Prim.Native.Nat.{bit_and}
use mammut.Common.{
  ℕ, zero, suc, ◌+◌, ◌-◌, ◌%◌, ◌^◌, ◌<◌, ◌≡◌, Bool, true, false, not, ◌&&◌, ◌||◌, Option, some,
  none, List, [], ◌∷◌, length, get_elem?, set, ltb, ◌==◌, if◌then◌else◌, Error, Result, ok, throw,
  ◌>>=◌, or_throw,
}

pub data CpuFamily : Type 0 where
  intel amd : CpuFamily

-- Registers of include/mammut/utils.hpp.
abbrev pub msr_pkg_energy_status_intel : ℕ
msr_pkg_energy_status_intel = 0x611

abbrev pub msr_pp0_energy_status_intel : ℕ
msr_pp0_energy_status_intel = 0x639

abbrev pub msr_pp1_energy_status_intel : ℕ
msr_pp1_energy_status_intel = 0x641

abbrev pub msr_dram_energy_status_intel : ℕ
msr_dram_energy_status_intel = 0x619

abbrev pub msr_pkg_energy_status_amd : ℕ
msr_pkg_energy_status_amd = 0xC001029B

abbrev pub msr_pp0_energy_status_amd : ℕ
msr_pp0_energy_status_amd = 0xC001029A

-- The registers at one moment, by CPU id and register; `none` where the 8 bytes cannot be read.
abbrev pub Registers : Type 0
Registers = ℕ → ℕ → Option ℕ

-- One of the values of `_joulesCpus[cpuId]`, in energy units, with its `_lastReadCounters...[cpuId]`.
pub record Track : Type 0 where
  pub joules : ℕ
  pub last : ℕ

pub record Slot : Type 0 where
  pub cpu : Track
  pub cores : Track
  pub graphic : Track
  pub dram : Track

-- `slots` are the arrays of length `_maxId + 1`; an id is in `opened` once `_msrs[id]` is set.
-- `num_cpus` is `_cpus.size()`.
pub record Counter : Type 0 where
  pub family : CpuFamily
  pub opened : List ℕ
  pub num_cpus : ℕ
  pub slots : List Slot
  pub has_cores : Bool
  pub has_graphic : Bool
  pub has_dram : Bool

pub is_opened : List ℕ → ℕ → Bool
is_opened [] id = false
is_opened (x ∷ xs) id = x == id || is_opened xs id

-- `default:` of the switch of `readEnergyCounter`.
pub is_energy_counter : ℕ → Bool
is_energy_counter which =
    which == msr_pkg_energy_status_intel
    || which == msr_pp0_energy_status_intel
    || which == msr_pp1_energy_status_intel
    || which == msr_dram_energy_status_intel
    || which == msr_pkg_energy_status_amd
    || which == msr_pp0_energy_status_amd

pub nonzero_low : Option ℕ → Result ℕ
nonzero_low none = throw Error.registers_not_present
nonzero_low (some result) =
    if result == 0 then throw Error.registers_not_present else ok (bit_and result 0xFFFFFFFF)

-- `readEnergyCounter`
pub read_energy_counter : List ℕ → Registers → ℕ → ℕ → Result ℕ
unfolding is_opened is_energy_counter nonzero_low
read_energy_counter opened hw id which =
    if is_energy_counter which
    then (if is_opened opened id then nonzero_low (hw id which) else throw Error.uninitialised)
    else throw Error.invalid_counter

-- `deltaDiff`, on `uint32_t`
pub delta_diff : ℕ → ℕ → ℕ
delta_diff c1 c2 = if ltb c1 c2 then c2 - c1 else (0xFFFFFFFF - c1 + 1 + c2) % 2 ^ 32

-- `updateCounter`
pub update_counter : List ℕ → Registers → ℕ → ℕ → Track → Result Track
update_counter opened hw id which t = do
  current ← read_energy_counter opened hw id which
  ok (record { joules = t.joules + delta_diff t.last current; last = current })

abbrev pub slot_at : Counter → ℕ → Result Slot
slot_at c id = or_throw Error.uninitialised (get_elem? c.slots id)

abbrev pub with_slot : Counter → ℕ → Slot → Counter
with_slot c id s = record c { slots = set c.slots id s }

abbrev pub pkg_register : CpuFamily → ℕ
pkg_register intel = msr_pkg_energy_status_intel
pkg_register amd = msr_pkg_energy_status_amd

-- `getJoulesCpu`
pub get_joules_cpu : Counter → Registers → ℕ → Result (Counter × ℕ)
get_joules_cpu c hw id = do
  s ← slot_at c id
  t ← update_counter c.opened hw id (pkg_register c.family) s.cpu
  ok (with_slot c id (record s { cpu = t }), t.joules)

-- The inner branch of `getJoulesCores`: per-core registers of AMD are not read.
cores_of : CpuFamily → Counter → Registers → ℕ → Slot → Result (Counter × ℕ)
cores_of intel c hw id s = do
  t ← update_counter c.opened hw id msr_pp0_energy_status_intel s.cores
  ok (with_slot c id (record s { cores = t }), t.joules)
cores_of amd c hw id s = ok (c, s.cores.joules)

-- `getJoulesCores`
pub get_joules_cores : Counter → Registers → ℕ → Result (Counter × ℕ)
unfolding cores_of
get_joules_cores c hw id =
    if c.has_cores then (slot_at c id >>= λ s. cores_of c.family c hw id s) else ok (c, 0)

graphic_of : CpuFamily → Counter → Registers → ℕ → Result (Counter × ℕ)
graphic_of intel c hw id = do
  s ← slot_at c id
  t ← update_counter c.opened hw id msr_pp1_energy_status_intel s.graphic
  ok (with_slot c id (record s { graphic = t }), t.joules)
graphic_of amd c hw id = ok (c, 0)

-- `getJoulesGraphic`
pub get_joules_graphic : Counter → Registers → ℕ → Result (Counter × ℕ)
unfolding graphic_of
get_joules_graphic c hw id = if c.has_graphic then graphic_of c.family c hw id else ok (c, 0)

dram_of : CpuFamily → Counter → Registers → ℕ → Result (Counter × ℕ)
dram_of intel c hw id = do
  s ← slot_at c id
  t ← update_counter c.opened hw id msr_dram_energy_status_intel s.dram
  ok (with_slot c id (record s { dram = t }), t.joules)
dram_of amd c hw id = ok (c, 0)

-- `getJoulesDram`
pub get_joules_dram : Counter → Registers → ℕ → Result (Counter × ℕ)
unfolding dram_of
get_joules_dram c hw id = if c.has_dram then dram_of c.family c hw id else ok (c, 0)

-- `JoulesCpu` of include/mammut/energy/energy.hpp
pub record JoulesCpu : Type 0 where
  pub cpu : ℕ
  pub cores : ℕ
  pub graphic : ℕ
  pub dram : ℕ

-- `CounterCpusLinux::getJoulesComponents`
pub get_joules_components : Counter → Registers → ℕ → Result (Counter × JoulesCpu)
unfolding get_joules_cpu get_joules_cores get_joules_graphic get_joules_dram
get_joules_components c hw id = get_joules_cpu c hw id >>= λ r. get_joules_cores r.0 hw id >>= λ q.
    get_joules_graphic q.0 hw id >>= λ p. get_joules_dram p.0 hw id >>= λ o.
    ok (o.0, record { cpu = r.1; cores = q.1; graphic = p.1; dram = o.1 })

-- The new reading of a component that is present, or the old one.
reread : Bool → Counter → Registers → ℕ → ℕ → Track → Result ℕ
reread true c hw id which t = read_energy_counter c.opened hw id which
reread false c hw id which t = ok t.last

abbrev zeroed : ℕ → Track
zeroed last = record { joules = 0; last = last }

-- One round of the loop of `reset`: the index is used where the other methods use a CPU id.
pub reset_slot : Counter → Registers → ℕ → Result Counter
unfolding reread
reset_slot c hw i = do
  s ← slot_at c i
  cpu ← read_energy_counter c.opened hw i (pkg_register c.family)
  cores ← reread c.has_cores c hw i msr_pp0_energy_status_intel s.cores
  graphic ← reread c.has_graphic c hw i msr_pp1_energy_status_intel s.graphic
  dram ← reread c.has_dram c hw i msr_dram_energy_status_intel s.dram
  ok (
      with_slot c i (record {
        cpu = zeroed cpu;
        cores = zeroed cores;
        graphic = zeroed graphic;
        dram = zeroed dram;
      }))

pub reset_loop : ℕ → ℕ → Counter → Registers → Result Counter
reset_loop zero i c hw = ok c
reset_loop (suc left) i c hw = reset_slot c hw i >>= λ c'. reset_loop left (i + 1) c' hw

-- `reset`
pub reset : Counter → Registers → Result Counter
unfolding reset_loop
reset c hw = reset_loop c.num_cpus 0 c hw
