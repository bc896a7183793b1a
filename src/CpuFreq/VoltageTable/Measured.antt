-- ===== src/CpuFreq/VoltageTable/Measured.antt =====
-- `DomainLinux::getVoltageTable` of src/cpufreq/cpufreq-linux.cpp for a number of virtual cores (the
-- branches for `_epyc` false). Keeping a core busy, sleeping and the arithmetic of voltages are
-- parameters on the state that the cpufreq files are in, too.
pub mod Keys
pub mod Restored
use mammut.Common.{
  ℕ, zero, suc, length, Bool, true, false, List, [], ◌∷◌, take, ◌==◌, if◌then◌else◌, Result, ok,
  throw, ◌>>=◌,
}
use mammut.CpuFreq.Domain.{
  Governor, governor_userspace, Files, Domain, get_virtual_cores_identifiers, get_current_governor,
  get_current_frequency_userspace, set_frequency_userspace, get_current_governor_bounds,
  set_governor_bounds, set_governor,
}
use mammut.CpuFreq.Rollback.{Row, get_row}
use mammut.CpuFreq.VoltageTable.{VoltageTable, insert_entry}

-- `maximizeUtilization` and `resetUtilization` of a virtual core, `getOneVirtualPerPhysical`, `sleep`,
-- `getCurrentVoltage`, and the sum and the mean of voltages.
pub record Measuring (S V : Type 0) : Type 0 where
  pub maximize_utilization : S → ℕ → Result S
  pub reset_utilization : S → ℕ → Result S
  pub get_one_virtual_per_physical : List ℕ → List ℕ
  pub sleep : S → S
  pub get_current_voltage : S → Domain → V
  pub no_voltage : V
  pub plus : V → V → V
  pub over : V → ℕ → V

abbrev pub num_samples : ℕ
num_samples = 5

module _ {S V : Type 0} (files : Files S) (measuring : Measuring S V) where
  on_each : (S → ℕ → Result S) → S → List ℕ → Result S
  on_each op s [] = ok s
  on_each op s (core ∷ cores) = op s core >>= λ s'. on_each op s' cores

  -- The loop over the samples, with the sum so far.
  samples : S → Domain → ℕ → V → S × V
  samples s d zero sum = (s, sum)
  samples s d (suc n) sum =
      let s' = measuring.sleep s in
      samples s' d n (measuring.plus sum (measuring.get_current_voltage s' d))

  -- The loop over the frequencies; what `setFrequencyUserspace` answers is dropped.
  frequencies : S → Domain → ℕ → List ℕ → VoltageTable V → Result (S × VoltageTable V)
  frequencies s d n [] table = ok (s, table)
  frequencies s d n (f ∷ fs) table = set_frequency_userspace files s d f >>= λ set.
      (let sampled = samples set.0 d num_samples measuring.no_voltage in
        frequencies sampled.0 d n fs
          (insert_entry (n, f) (measuring.over sampled.1 num_samples) table))

  -- What is done at the end; what the calls answer is dropped.
  give_back : S → Domain → Row → Result S
  give_back s d row = set_governor files s d row.governor >>= λ set.
      (if row.governor == governor_userspace
        then (set_frequency_userspace files set.0 d row.frequency >>= λ r. ok r.0)
        else (set_governor_bounds files set.0 d row.lower_bound row.upper_bound >>= λ r. ok r.0))

  -- From the second check on.
  measure : S × Bool → Domain → Row → ℕ → List ℕ → Result (S × VoltageTable V)
  measure (s, false) d row n cores = ok (s, [])
  measure (s, true) d row n cores = on_each measuring.maximize_utilization s cores >>= λ s1.
      frequencies s1 d n d.available_frequencies [] >>= λ measured.
      on_each measuring.reset_utilization measured.0 cores >>= λ s2.
      give_back s2 d row >>= λ s3. ok (s3, measured.1)

  -- `numCores` of the loop over all numbers of virtual cores
  unfoldable pub num_cores : Domain → Bool → ℕ
  num_cores d only =
      let cores = get_virtual_cores_identifiers d in
      length (if only then measuring.get_one_virtual_per_physical cores else cores)

  -- The first `numVirtualCores` of `vcToMax`, or all of them where there are fewer.
  cores_to_max : Domain → ℕ → Bool → List ℕ
  cores_to_max d num_virtual_cores only_physical_cores =
      let all = get_virtual_cores_identifiers d in
      take num_virtual_cores
        (if only_physical_cores then measuring.get_one_virtual_per_physical all else all)

  -- `getVoltageTable`
  pub get_voltage_table : S → Domain → ℕ → Bool → Result (S × VoltageTable V)
  get_voltage_table s d num_virtual_cores only_physical_cores =
      let cores = cores_to_max d num_virtual_cores only_physical_cores in
      get_row files s d >>= λ row.
      set_governor files s d governor_userspace >>= λ set. measure set d row (length cores) cores
