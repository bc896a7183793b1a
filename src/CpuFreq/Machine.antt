-- ===== src/CpuFreq/Machine.antt =====
-- The rest of class DomainLinux of src/cpufreq/cpufreq-linux.cpp (the branches for `_epyc` false),
-- the boosting of class CpuFreqLinux, and the functions of class CpuFreq of src/cpufreq/cpufreq.cpp
-- that go over the domains. A virtual core stands for itself as its identifier.
pub mod Lookups
use mammut.Common.{
  ℕ, suc, Bool, true, false, not, ◌&&◌, Option, some, none, List, [], ◌∷◌, ◌++◌, length, ◌==◌,
  if◌then◌else◌, Error, Result, ok, throw, ◌>>=◌, or_throw,
}
use mammut.Common.Int.{ℤ, pos, negsuc}
use mammut.Utils.Vectors.{contains}
use mammut.CpuFreq.Domain.{
  Governor, Domain, contains_core, get_virtual_cores_identifiers, is_governor_available,
  remove_turbo_frequencies, reinsert_turbo_frequencies,
}

-- The files of the directory cpufreq of a virtual core that are only read.
pub data Attribute : Type 0 where
  scaling_cur_freq : Attribute
  cpuinfo_min_freq : Attribute
  cpuinfo_max_freq : Attribute
  cpuinfo_transition_latency : Attribute

-- What the machine has besides the files that are written: the attributes of a virtual core, the
-- file `_boostingFile`, bits 32 to 47 of the register IA32_PERF_STATUS of a core where `Msr` reads
-- it, and the sensor VOLT250USP0V0 where it exists.
pub record Platform (S : Type 0) : Type 1 where
  pub attribute : S → ℕ → Attribute → Option ℕ
  pub read_boost : S → Option ℕ
  pub write_boost : S → ℕ → Option S
  pub perf_status : S → ℕ → Option ℕ
  pub sensor : S → Option ℕ

-- What `getCurrentVoltage` gives: the register's field over 2 ^ 13, the sensor's value, or 0.
pub data Voltage : Type 0 where
  ratio : ℕ → Voltage
  sensed : ℕ → Voltage
  no_voltage : Voltage

-- A machine with the objects of its domains; a domain's identifier is its place in the list.
pub record Machine (S : Type 0) : Type 0 where
  pub store : S
  pub domains : List Domain

module _ {S : Type 0} (platform : Platform S) where
  -- `readFirstLineFromFile` on an attribute of the first core.
  read_attribute : S → Domain → Attribute → Result ℕ
  read_attribute s d a = or_throw Error.open_failed (platform.attribute s d.first a)

  -- `getCurrentFrequency`
  pub get_current_frequency : S → Domain → Result ℕ
  get_current_frequency s d = read_attribute s d Attribute.scaling_cur_freq

  -- `getHardwareFrequencyBounds`
  pub get_hardware_frequency_bounds : S → Domain → Result (ℕ × ℕ)
  get_hardware_frequency_bounds s d = read_attribute s d Attribute.cpuinfo_min_freq >>= λ lower.
      read_attribute s d Attribute.cpuinfo_max_freq >>= λ upper. ok (lower, upper)

  -- `getTransitionLatency`: a file that does not open does not exist for `existsFile`.
  pub get_transition_latency : S → Domain → ℤ
  get_transition_latency s d =
      elim (platform.attribute s d.first Attribute.cpuinfo_transition_latency) [
        | none ↦ negsuc 0
        | some latency ↦ pos latency
      ]

  from_sensor : Option ℕ → Voltage
  from_sensor none = Voltage.no_voltage
  from_sensor (some value) = Voltage.sensed value

  -- `getCurrentVoltage`
  pub get_current_voltage : S → Domain → Voltage
  get_current_voltage s d = elim (platform.perf_status s d.first) [
    | none ↦ from_sensor (platform.sensor s)
    | some r ↦ if r == 0 then from_sensor (platform.sensor s) else Voltage.ratio r
  ]

  -- `isBoostingSupported`
  pub is_boosting_supported : S → Bool
  is_boosting_supported s = elim (platform.read_boost s) [ none ↦ false | some value ↦ true ]

  -- `isBoostingEnabled`
  pub is_boosting_enabled : S → Bool
  is_boosting_enabled s = elim (platform.read_boost s) [
    | none ↦ false
    | some value ↦ not (value == 0)
  ]

  -- `enableBoosting`
  pub enable_boosting : S → Result S
  enable_boosting s = or_throw Error.open_failed (platform.write_boost s 1)

  -- `disableBoosting`
  pub disable_boosting : S → Result S
  disable_boosting s = or_throw Error.open_failed (platform.write_boost s 0)

-- `CpuFreq::removeTurboFrequencies`
pub remove_turbo_frequencies_all : List Domain → Result (List Domain)
remove_turbo_frequencies_all [] = ok []
remove_turbo_frequencies_all (d ∷ ds) =
    remove_turbo_frequencies d >>= λ d'. remove_turbo_frequencies_all ds >>= λ ds'. ok (d' ∷ ds')

-- `CpuFreq::reinsertTurboFrequencies`
pub reinsert_turbo_frequencies_all : List Domain → List Domain
reinsert_turbo_frequencies_all [] = []
reinsert_turbo_frequencies_all (d ∷ ds) =
    reinsert_turbo_frequencies d ∷ reinsert_turbo_frequencies_all ds

-- `filterVirtualCores`
unfoldable pub filter_virtual_cores : List ℕ → List ℕ → List ℕ
filter_virtual_cores [] identifiers = []
filter_virtual_cores (core ∷ cores) identifiers =
    let rest = filter_virtual_cores cores identifiers in
    if contains identifiers core then core ∷ rest else rest

-- `getDomain`, from the position `i` on: the place of the domain.
unfoldable pub get_domain : List Domain → ℕ → ℕ → Result ℕ
get_domain [] i core = throw Error.no_domain
get_domain (d ∷ ds) i core =
    let later = get_domain ds (suc i) core in if contains_core d core then ok i else later

-- The loop of `getDomains`, with the domains found so far.
domains_loop : List Domain → List ℕ → List ℕ → Result (List ℕ)
domains_loop ds r [] = ok r
domains_loop ds r (core ∷ cores) =
    get_domain ds 0 core >>= λ d. domains_loop ds (if contains r d then r else (r ++ d ∷ [])) cores

-- `getDomains` for some virtual cores
pub get_domains : List Domain → List ℕ → Result (List ℕ)
get_domains ds cores = domains_loop ds [] cores

-- The inner loop of `getDomainsComplete`: how many of the cores the domain has.
contained : Domain → List ℕ → ℕ
contained d [] = 0
contained d (core ∷ cores) =
    let rest = contained d cores in if contains_core d core then suc rest else rest

-- `getDomainsComplete`, from the position `i` on.
pub get_domains_complete : List Domain → ℕ → List ℕ → List ℕ
get_domains_complete [] i cores = []
get_domains_complete (d ∷ ds) i cores =
    let rest = get_domains_complete ds (suc i) cores in
    if contained d cores == length (get_virtual_cores_identifiers d) then i ∷ rest else rest

-- The loop of `CpuFreq::isGovernorAvailable`.
available_everywhere : List Domain → Governor → Bool
available_everywhere [] g = true
available_everywhere (d ∷ ds) g = is_governor_available d g && available_everywhere ds g

-- `CpuFreq::isGovernorAvailable`
pub is_governor_available_all : List Domain → Governor → Bool
is_governor_available_all [] g = false
is_governor_available_all (d ∷ ds) g = available_everywhere (d ∷ ds) g
