-- ===== src/CpuFreq/Local.antt =====
-- The constructors of DomainLinux and CpuFreqLinux of src/cpufreq/cpufreq-linux.cpp. A virtual core
-- stands for itself as its identifier. The files of the directories cpufreq are a parameter, as
-- they are when the objects are made; a file is its bytes, none where it does not open.
pub mod Made
pub mod Frequencies
pub mod Places
pub mod Unknown
mod Examples
use mammut.Common.{
  ℕ, zero, suc, length, Bool, true, false, ◌&&◌, Option, some, none, List, [], ◌∷◌, leb, ◌==◌,
  if◌then◌else◌, Error, Result, ok, throw, ◌>>=◌, Text, codes, text_eq, take, get_elem?, or_throw,
}
use mammut.Utils.Msr.{Device}
use mammut.Utils.Strings.{split}
use mammut.CpuFreq.Governors.{Governor, governor_num, Streams, get_governor_from_governor_name}
use mammut.CpuFreq.Domain.{Domain}
use mammut.CpuFreq.Machine.{filter_virtual_cores}
use mammut.CpuFreq.Epyc.{create_epyc}

-- The files that the constructors read. `related_cpus` is the output of the command that lists the
-- file of the domains, without copies of a line; none where there is no directory cpufreq.
pub record Sysfs : Type 0 where
  pub scaling_available_frequencies : ℕ → Option Text
  pub time_in_state : ℕ → Option (List Text)
  pub scaling_available_governors : ℕ → Option Text
  pub related_cpus : Option (List Text)

-- A domain's object: `_epyc` and the rest.
pub record DomainLinux : Type 0 where
  pub epyc : Bool
  pub domain : Domain

-- `!getFamily().compare("23") && !getVendorId().compare(0, 12, "AuthenticAMD")`
pub is_epyc : Text → Text → Bool
is_epyc family vendor_id =
    text_eq family (codes "23") && text_eq (take 12 vendor_id) (codes "AuthenticAMD")

-- `std::sort` on numbers.
insert_sorted : ℕ → List ℕ → List ℕ
insert_sorted x [] = x ∷ []
insert_sorted x (y ∷ ys) =
    let later = y ∷ insert_sorted x ys in if leb x y then x ∷ y ∷ ys else later

pub sort : List ℕ → List ℕ
sort [] = []
sort (x ∷ xs) = insert_sorted x (sort xs)

-- `while(stream >> item)` with one round for each byte that is left at most.
pub extract_loop : {A : Type 0} → (Text → Option (A × Text)) → ℕ → Text → List A
extract_loop next zero s = []
extract_loop next (suc fuel) s = elim (next s) [
  | none ↦ []
  | some (x, rest) ↦ x ∷ extract_loop next fuel rest
]

pub extract_all : {A : Type 0} → (Text → Option (A × Text)) → Text → List A
extract_all next s = extract_loop next (length s) s

module _ (streams : Streams) where
  -- A line of stats/time_in_state; an empty line has no item 0.
  frequency_of_line : Text → Result ℕ
  frequency_of_line line = or_throw Error.uninitialised (get_elem? (split line 32) 0) >>= λ item.
      ok (streams.string_to_uint item)

  frequencies_of_lines : List Text → Result (List ℕ)
  frequencies_of_lines [] = ok []
  frequencies_of_lines (line ∷ lines) =
      frequency_of_line line >>= λ f. frequencies_of_lines lines >>= λ fs. ok (f ∷ fs)

  from_time_in_state : Option (List Text) → Result (List ℕ)
  from_time_in_state none = ok []
  from_time_in_state (some lines) = frequencies_of_lines lines

  -- The frequencies that the files give, before they are sorted.
  pub read_frequencies : Option Text → Option (List Text) → Result (List ℕ)
  read_frequencies none lines = from_time_in_state lines
  read_frequencies (some s) lines = ok (extract_all streams.next_uint s)

  -- The loop over the names; `junk` is what the variable of `getGovernorFromGovernorName` holds in
  -- each call of it.
  pub governors_of : (ℕ → ℕ) → List Text → List Governor
  governors_of junk [] = []
  governors_of junk (name ∷ names) =
      let rest = governors_of (λ i. junk (suc i)) names in
      let g = get_governor_from_governor_name streams (junk 0) name in
      if g == governor_num then rest else g ∷ rest

  pub read_governors : (ℕ → ℕ) → Option Text → Result (List Governor)
  read_governors junk none = throw Error.open_failed
  read_governors junk (some s) = ok (governors_of junk (extract_all streams.next_word s))

  -- The constructor of DomainLinux where `_epyc` is false.
  pub create_kernel_domain : Sysfs → (ℕ → ℕ) → ℕ → List ℕ → Result Domain
  create_kernel_domain sysfs junk first others =
      read_frequencies (sysfs.scaling_available_frequencies first) (sysfs.time_in_state first)
      >>= λ fs. read_governors junk (sysfs.scaling_available_governors first) >>= λ gs. ok (record {
        first = first;
        others = others;
        available_frequencies = sort fs;
        turbo_frequencies = [];
        available_governors = gs;
      })

  module _ (device : Device) where
    open device use {State}

    -- The constructor of DomainLinux. `registers` are those of each core.
    pub create_domain : Sysfs → (ℕ → State) → Bool → (ℕ → ℕ) → List ℕ → Result DomainLinux
    create_domain sysfs registers epyc junk [] = throw Error.out_of_range
    create_domain sysfs registers true junk (first ∷ others) =
        ok (record { epyc = true; domain = create_epyc device (registers first) first others })
    create_domain sysfs registers false junk (first ∷ others) =
        create_kernel_domain sysfs junk first others >>= λ d.
        ok (record { epyc = false; domain = d })

    -- The loop over the lines of the file of the domains.
    create_domains :
        Sysfs → (ℕ → State) → Bool → (ℕ → ℕ) → List ℕ → List Text → Result (List DomainLinux)
    create_domains sysfs registers epyc junk vc [] = ok []
    create_domains sysfs registers epyc junk vc (line ∷ lines) =
        create_domain sysfs registers epyc junk
          (filter_virtual_cores vc (extract_all streams.next_uint line))
        >>= λ d. create_domains sysfs registers epyc junk vc lines >>= λ ds. ok (d ∷ ds)

    -- The loop over the virtual cores of each physical core.
    create_epyc_domains : Sysfs → (ℕ → State) → (ℕ → ℕ) → List (List ℕ) → Result (List DomainLinux)
    create_epyc_domains sysfs registers junk [] = ok []
    create_epyc_domains sysfs registers junk (cores ∷ physical) =
        create_domain sysfs registers true junk cores >>= λ d.
        create_epyc_domains sysfs registers junk physical >>= λ ds. ok (d ∷ ds)

    -- With the lines of the files of the domains, and where there is no directory cpufreq.
    domains_for :
        Sysfs
        → (ℕ → State)
        → Bool
        → (ℕ → ℕ)
        → List ℕ
        → List (List ℕ)
        → Option (List Text)
        → Result (List DomainLinux)
    domains_for sysfs registers epyc junk vc physical (some lines) =
        create_domains sysfs registers epyc junk vc lines
    domains_for sysfs registers true junk vc physical none =
        create_epyc_domains sysfs registers junk physical
    domains_for sysfs registers false junk vc physical none = ok []

    -- The constructor of CpuFreqLinux, for the family and the vendor of the first CPU, the virtual
    -- cores `vc` of the topology and those of each of its physical cores.
    pub create_cpu_freq :
        Sysfs
        → (ℕ → State)
        → Text
        → Text
        → (ℕ → ℕ)
        → List ℕ
        → List (List ℕ)
        → Result (List DomainLinux)
    create_cpu_freq sysfs registers family vendor_id junk vc physical =
        domains_for sysfs registers (is_epyc family vendor_id) junk vc physical sysfs.related_cpus
