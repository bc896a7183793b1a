-- ===== src/CpuFreq/Domain.antt =====
-- Class DomainLinux of src/cpufreq/cpufreq-linux.cpp on the kernel's cpufreq files (the branches
-- for `_epyc` false), and the functions of class Domain of src/cpufreq/cpufreq.cpp. A file's line
-- is the number or the governor that its text stands for.
pub mod Turbo
mod Examples
use mammut.Common.{
  ℕ, zero, suc, ◌/◌, ◌%◌, get_elem?, Bool, true, false, not, ◌&&◌, ◌||◌, Option, some, none, List,
  [], ◌∷◌, ◌++◌, ltb, ◌==◌, if◌then◌else◌, Error, Result, ok, throw, ◌>>=◌, or_throw,
}
use mammut.Utils.Vectors.{contains}
pub use mammut.CpuFreq.Governors.{Governor, governor_userspace}

-- The files of the directory cpufreq of a virtual core.
pub data File : Type 0 where
  scaling_governor : File
  scaling_setspeed : File
  scaling_min_freq : File
  scaling_max_freq : File

-- The kernel: a read or a write fails where the file does not open. A written line stays in the
-- buffer of the stream until the file is closed, so a line that the kernel refuses is not noticed:
-- the write returns, with the state that the refusal leaves.
pub record Files (S : Type 0) : Type 1 where
  pub read : S → ℕ → File → Option ℕ
  pub write : S → ℕ → File → ℕ → Option S

pub record Domain : Type 0 where
  pub first : ℕ
  pub others : List ℕ
  pub available_frequencies : List ℕ
  pub turbo_frequencies : List ℕ
  pub available_governors : List Governor

-- The virtual cores, of which `_paths` has one directory each.
unfoldable pub paths : Domain → List ℕ
paths d = d.first ∷ d.others

-- `getVirtualCoresIdentifiers`
unfoldable pub get_virtual_cores_identifiers : Domain → List ℕ
get_virtual_cores_identifiers d = d.first ∷ d.others

-- `Domain::contains`
unfoldable pub contains_core : Domain → ℕ → Bool
unfolding get_virtual_cores_identifiers contains
contains_core d core = contains (get_virtual_cores_identifiers d) core

-- `isGovernorAvailable`
unfoldable pub is_governor_available : Domain → Governor → Bool
unfolding contains
is_governor_available d g = contains d.available_governors g

-- The decimal digits of a number, the first one first, for a number below 10 ^ fuel.
digits : ℕ → ℕ → List ℕ → List ℕ
digits zero n rest = rest
digits (suc fuel) n rest =
    let more = digits fuel (n / 10) (n % 10 ∷ rest) in if ltb n 10 then n ∷ rest else more

-- `intToString(frequency).at(3) == '1'`; a frequency has 32 bits, ten digits at most.
pub is_turbo : ℕ → Result Bool
is_turbo frequency =
    or_throw Error.out_of_range (get_elem? (digits 10 frequency []) 3) >>= λ digit. ok (digit == 1)

-- The loop of `removeTurboFrequencies`, over the frequencies still to look at: those that stay and
-- those that are taken out.
remove_loop : List ℕ → Result (List ℕ × List ℕ)
remove_loop [] = ok ([], [])
remove_loop (f ∷ fs) = is_turbo f >>= λ turbo. remove_loop fs >>= λ split.
    ok (if turbo then (split.0, f ∷ split.1) else (f ∷ split.0, split.1))

-- `removeTurboFrequencies`, as on x86-64
pub remove_turbo_frequencies : Domain → Result Domain
remove_turbo_frequencies d = elim d.turbo_frequencies [
  | [] ↦ remove_loop d.available_frequencies >>= λ split.
      ok (record d { available_frequencies = split.0; turbo_frequencies = split.1 })
  | f ∷ fs ↦ ok d
]

-- `reinsertTurboFrequencies`
pub reinsert_turbo_frequencies : Domain → Domain
reinsert_turbo_frequencies d = record d {
  available_frequencies = d.available_frequencies ++ d.turbo_frequencies;
  turbo_frequencies = [];
}

-- `back` of the vector of an item and more behind it.
unfoldable pub last_of : ℕ → List ℕ → ℕ
last_of x [] = x
last_of x (y ∷ ys) = last_of y ys

module _ {S : Type 0} (files : Files S) where
  unfoldable pub write_loop : S → List ℕ → File → ℕ → Result S
  write_loop s [] file what = ok s
  write_loop s (core ∷ cores) file what =
      or_throw Error.write_failed (files.write s core file what) >>= λ s'.
      write_loop s' cores file what

  -- `writeToDomainFiles`
  unfoldable pub write_to_domain_files : S → Domain → File → ℕ → Result S
  unfolding paths
  write_to_domain_files s d file what = write_loop s (paths d) file what

  -- `readFirstLineFromFile` on the first core's file.
  unfoldable pub read_first : S → Domain → File → Result ℕ
  read_first s d file = or_throw Error.open_failed (files.read s d.first file)

  -- `getCurrentGovernor`
  unfoldable pub get_current_governor : S → Domain → Result Governor
  get_current_governor s d = read_first s d File.scaling_governor

  -- `getCurrentFrequencyUserspace`
  unfoldable pub get_current_frequency_userspace : S → Domain → Result ℕ
  get_current_frequency_userspace s d = get_current_governor s d >>= λ g.
      (if g == governor_userspace then read_first s d File.scaling_setspeed else ok 0)

  -- `setFrequencyUserspace`
  unfoldable pub set_frequency_userspace : S → Domain → ℕ → Result (S × Bool)
  set_frequency_userspace s d frequency = get_current_governor s d >>= λ g.
      (if g == governor_userspace && contains d.available_frequencies frequency
        then (write_to_domain_files s d File.scaling_setspeed frequency >>= λ s'. ok (s', true))
        else ok (s, false))

  -- `getCurrentGovernorBounds`
  unfoldable pub get_current_governor_bounds : S → Domain → Result (ℕ × ℕ)
  get_current_governor_bounds s d = read_first s d File.scaling_min_freq >>= λ lower.
      read_first s d File.scaling_max_freq >>= λ upper. ok (lower, upper)

  -- `setGovernorBounds`
  unfoldable pub set_governor_bounds : S → Domain → ℕ → ℕ → Result (S × Bool)
  set_governor_bounds s d lower upper =
      if not (contains d.available_frequencies lower)
        || not (contains d.available_frequencies upper)
        || ltb upper lower
      then ok (s, false)
      else (write_to_domain_files s d File.scaling_min_freq lower >>= λ s1.
          write_to_domain_files s1 d File.scaling_max_freq upper >>= λ s2. ok (s2, true))

  -- `setGovernor`
  unfoldable pub set_governor : S → Domain → Governor → Result (S × Bool)
  set_governor s d g =
      if not (contains d.available_governors g)
      then ok (s, false)
      else (write_to_domain_files s d File.scaling_governor g >>= λ s'. ok (s', true))

  -- `setHighestFrequencyUserspace`
  unfoldable pub set_highest_frequency_userspace : S → Domain → Result (S × Bool)
  set_highest_frequency_userspace s d = elim d.available_frequencies [
    | [] ↦ ok (s, false)
    | x ∷ xs ↦ set_frequency_userspace s d (last_of x xs)
  ]

  -- `setLowestFrequencyUserspace`
  unfoldable pub set_lowest_frequency_userspace : S → Domain → Result (S × Bool)
  set_lowest_frequency_userspace s d = elim d.available_frequencies [
    | [] ↦ ok (s, false)
    | x ∷ xs ↦ set_frequency_userspace s d x
  ]
