-- ===== src/CpuFreq/Epyc.antt =====
-- Class DomainLinux of src/cpufreq/cpufreq-linux.cpp where `_epyc` is true: a domain of an AMD Epyc,
-- whose frequencies are the P-states of its registers. The state is that of the registers of the
-- domain's first core; a domain has no `_paths`.
pub mod PStates
mod Examples
use mammut.Common.{
  ℕ, zero, suc, ◌+◌, ◌-◌, ◌*◌, ◌/◌, ◌<◌, get_elem?, length, Bool, true, false, ◌||◌, Option, some,
  none, List, [], ◌∷◌, ◌++◌, ltb, ◌==◌, if◌then◌else◌, Error, Result, ok, throw, ◌>>=◌, or_throw,
}
use mammut.Common.Int.{ℤ, pos, negsuc, sub_ℕ}
use mammut.Utils.Msr.{Device, read_bits, write_bits}
use mammut.CpuFreq.Domain.{Governor, governor_userspace, Domain}

-- The register of the P-state 0, those of the next ones being behind it.
abbrev pub pstate_def : ℕ
pstate_def = 0xC0010064

-- The register that selects a P-state.
abbrev pub pstate_control : ℕ
pstate_control = 0xC0010062

-- What a P-state's fields `fId` and `dfsId` give, in kHz: a quotient of integers times 200.
pub quotient : ℕ → ℕ → Option ℕ
quotient f_id dfs_id = if f_id == 0 || dfs_id == 0 then none else some (f_id / dfs_id * 200 * 1000)

-- `none` for a read that failed.
pub frequency_of : Option ℕ → Option ℕ → Option ℕ
frequency_of none dfs_id = none
frequency_of (some f_id) none = none
frequency_of (some f_id) (some dfs_id) = quotient f_id dfs_id

pub push_back : List ℕ → Option ℕ → List ℕ
push_back frequencies none = frequencies
push_back frequencies (some f) = frequencies ++ f ∷ []

-- The first position of a frequency in the list, counted on from `i`.
pub position : ℕ → List ℕ → ℕ → Option ℕ
position frequency [] i = none
position frequency (f ∷ fs) i =
    let later = position frequency fs (suc i) in if frequency == f then some i else later

module _ (device : Device) where
  open device use {State}

  -- The frequency of the P-state `i`, where its register has one.
  unfoldable pub pstate_frequency : State → ℕ → Option ℕ
  pstate_frequency s i =
      frequency_of (read_bits device s (pstate_def + i) 7 0)
        (read_bits device s (pstate_def + i) 13 8)

  -- The loop of the constructor from `i` below `n` down to 0.
  pub pstates_loop : State → ℕ → List ℕ → List ℕ
  pstates_loop s zero frequencies = frequencies
  pstates_loop s (suc i) frequencies =
      pstates_loop s i (push_back frequencies (pstate_frequency s i))

  -- The constructor, for some virtual cores.
  unfoldable pub create_epyc : State → ℕ → List ℕ → Domain
  create_epyc s first others = record {
    first = first;
    others = others;
    available_frequencies = pstates_loop s 9 [];
    turbo_frequencies = [];
    available_governors = governor_userspace ∷ [];
  }

  accepted : State → Option State → State × Bool
  accepted s none = (s, false)
  accepted s (some t) = (t, true)

  -- `getCurrentEpycPstate`; where the register cannot be read, `readBits` has set the variable to 0.
  pub get_current_epyc_pstate : State → ℕ
  get_current_epyc_pstate s = elim (read_bits device s pstate_control 2 0) [
    | none ↦ 0
    | some pstate ↦ pstate
  ]

  -- `getCurrentFrequency`
  epyc_get_current_frequency : State → Domain → ℕ
  epyc_get_current_frequency s d = 0

  -- `getCurrentFrequencyUserspace`; an index that wraps below 0 is out of range.
  pub epyc_get_current_frequency_userspace : State → Domain → Result ℕ
  epyc_get_current_frequency_userspace s d =
      let pstate = get_current_epyc_pstate s in
      if ltb pstate (length d.available_frequencies)
      then or_throw Error.uninitialised
          (get_elem? d.available_frequencies (length d.available_frequencies - 1 - pstate))
      else throw Error.uninitialised

  select : ℕ → State → Domain → Option ℕ → State × Bool
  select junk s d none = (s, false)
  select junk s d (some i) =
      accepted s
        (write_bits device junk s pstate_control 2 0 (length d.available_frequencies - 1 - i))

  -- `setFrequencyUserspace`; `junk` is what `writeBits` uses where its read fails.
  pub epyc_set_frequency_userspace : ℕ → State → Domain → ℕ → State × Bool
  epyc_set_frequency_userspace junk s d frequency =
      select junk s d (position frequency d.available_frequencies 0)

  -- `getCurrentGovernor`
  epyc_get_current_governor : State → Domain → Governor
  epyc_get_current_governor s d = governor_userspace

  -- `setGovernor`
  epyc_set_governor : State → Domain → Governor → Bool
  epyc_set_governor s d g = g == governor_userspace

  -- `getHardwareFrequencyBounds`
  epyc_get_hardware_frequency_bounds : State → Domain → ℕ × ℕ
  epyc_get_hardware_frequency_bounds s d = (0, 0)

  -- `getCurrentGovernorBounds`
  epyc_get_current_governor_bounds : State → Domain → Option (ℕ × ℕ)
  epyc_get_current_governor_bounds s d = none

  -- `setGovernorBounds`
  epyc_set_governor_bounds : State → Domain → ℕ → ℕ → Bool
  epyc_set_governor_bounds s d lower upper = false

  -- `getTransitionLatency`, where `_paths` is empty.
  epyc_get_transition_latency : State → Domain → ℤ
  epyc_get_transition_latency s d = negsuc 0

  -- `getCurrentVoltage` in units of 0.00625, of which 1.55 has 248; 0 where the read fails.
  epyc_get_current_voltage : State → Domain → ℤ
  epyc_get_current_voltage s d =
      elim (read_bits device s (pstate_def + get_current_epyc_pstate s) 21 14) [
        | none ↦ pos 0
        | some vid ↦ sub_ℕ 248 vid
      ]
