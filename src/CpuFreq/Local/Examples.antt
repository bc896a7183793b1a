-- ===== src/CpuFreq/Local/Examples.antt =====
-- A machine of three cores in two domains, whose kernel offers the governor schedutil.
use mammut.Common.{
  ℕ, ◌+◌, ◌*◌, ◌-◌, ◌≤◌, ◌≡◌, refl, ap, true, Option, some, none, List, [], ◌∷◌, map, if◌then◌else◌,
  ok, Text, codes, text_eq, arith,
}
use mammut.Utils.Vectors.{contains}
use mammut.Utils.Strings.{isspace, isdigit, all_digits}
use mammut.Utils.Msr.Store.{store}
use mammut.CpuFreq.Governors.{
  Streams, find_name, assign, word_of, string_to_enum, get_governor_from_governor_name,
}
use mammut.CpuFreq.Governors.Names.{IsWord, ReadsWords}
use mammut.CpuFreq.Domain.{
  Files, Domain, set_frequency_userspace, set_highest_frequency_userspace,
  set_lowest_frequency_userspace, is_governor_available,
}
use mammut.CpuFreq.Machine.{get_domain}
use mammut.CpuFreq.Local.{
  Sysfs, DomainLinux, insert_sorted, sort, extract_loop, extract_all, read_frequencies,
  governors_of, read_governors, create_kernel_domain, create_cpu_freq,
}
use mammut.CpuFreq.Local.Frequencies.{create_kernel_domain-extremes}
use mammut.CpuFreq.Local.Places.{numbers, line_of, Opens, get_domain-create_cpu_freq}
use mammut.CpuFreq.Local.Unknown.{create_kernel_domain-unknown}

skip : Text → Text
skip [] = []
skip (c ∷ s) = let rest = skip s in if isspace c then rest else c ∷ s

-- The bytes up to a space, and the others.
word_and_rest : Text → Text × Text
word_and_rest [] = ([], [])
word_and_rest (c ∷ s) =
    let more = word_and_rest s in if isspace c then ([], c ∷ s) else (c ∷ more.0, more.1)

nonempty : Text × Text → Option (Text × Text)
nonempty ([], rest) = none
nonempty (c ∷ word, rest) = some (c ∷ word, rest)

value_of : ℕ → Text → ℕ
value_of n [] = n
value_of n (c ∷ s) = value_of (n * 10 + (c - 48)) s

number_of : Option (Text × Text) → Option (ℕ × Text)
number_of none = none
number_of (some (word, rest)) = if all_digits word then some (value_of 0 word, rest) else none

abbrev streams : Streams
streams = record {
  next_uint = λ s. number_of (nonempty (word_and_rest (skip s)));
  next_word = λ s. nonempty (word_and_rest (skip s));
  string_to_uint = value_of 0;
}

whole_word : (t : Text) → IsWord t → word_and_rest t ≡ (t, [])
unfolding word_and_rest
whole_word [] w = refl
whole_word (c ∷ t) (h, w) = rw (h, whole_word t w) refl

reads : ReadsWords streams
unfolding skip nonempty
reads c t (h, w) = rw h (ap nonempty (whole_word (c ∷ t) (h, w)))

abbrev sysfs : Sysfs
sysfs = record {
  scaling_available_frequencies = λ core. some (codes "2400000 1200000 ");
  time_in_state = λ core. none;
  scaling_available_governors = λ core. some (codes "performance schedutil ");
  related_cpus = some (codes "0 2 " ∷ codes "1 " ∷ []);
}

abbrev junk : ℕ → ℕ
junk i = 3

abbrev one_file : Files ℕ
one_file = record { read = λ s core file. some s; write = λ s core file v. some v }

abbrev made : ℕ → List ℕ → Domain
made first others = record {
  first = first;
  others = others;
  available_frequencies = 1200000 ∷ 2400000 ∷ [];
  turbo_frequencies = [];
  available_governors = 5 ∷ 3 ∷ [];
}

create_made :
    (first : ℕ) (others : List ℕ)
    → create_kernel_domain streams sysfs junk first others ≡ ok (made first others)
unfolding create_kernel_domain read_frequencies read_governors governors_of extract_all extract_loop
    get_governor_from_governor_name string_to_enum word_of find_name assign skip word_and_rest
    nonempty number_of value_of all_digits isspace isdigit sort insert_sorted text_eq
create_made first others = refl

create_kernel_domain-extremes_example :
    (d : Domain) × (high : ℕ) × (low : ℕ) × (create_kernel_domain streams sysfs junk 0 (2 ∷ [])
      ≡ ok d)
    × ((v : ℕ) → contains d.available_frequencies v ≡ contains (2400000 ∷ 1200000 ∷ []) v)
    × (contains (2400000 ∷ 1200000 ∷ []) high ≡ true)
    × (contains (2400000 ∷ 1200000 ∷ []) low ≡ true)
    × ((v : ℕ) → contains (2400000 ∷ 1200000 ∷ []) v ≡ true → (low ≤ v) × (v ≤ high))
    × (set_highest_frequency_userspace one_file 3 d ≡ set_frequency_userspace one_file 3 d high)
    × (set_lowest_frequency_userspace one_file 3 d ≡ set_frequency_userspace one_file 3 d low)
unfolding read_frequencies extract_all extract_loop skip word_and_rest nonempty number_of value_of
    all_digits isspace isdigit
create_kernel_domain-extremes_example =
    create_kernel_domain-extremes one_file streams sysfs junk 3 0 (2 ∷ []) 2400000 (1200000 ∷ [])
      (codes "performance schedutil ") refl refl

opens : Opens streams store sysfs
unfolding read_frequencies extract_all extract_loop
opens = record { frequencies = λ core. (_, refl); governors = λ core. (_, refl) }

get_domain-create_cpu_freq_example :
    (ds : List DomainLinux) × (create_cpu_freq streams store sysfs
        (λ core k. 0)
        (codes "6")
        (codes "GenuineIntel")
        junk
        (0 ∷ 1 ∷ 2 ∷ [])
        []
      ≡ ok ds)
    × ((core : ℕ)
        → contains (0 ∷ 1 ∷ 2 ∷ []) core ≡ true
        → get_domain (map (λ d. d.domain) ds) 0 core
          ≡ line_of streams (codes "0 2 " ∷ codes "1 " ∷ []) core 0)
unfolding contains numbers extract_all extract_loop skip word_and_rest nonempty number_of value_of
    all_digits isspace isdigit
get_domain-create_cpu_freq_example =
    get_domain-create_cpu_freq streams store sysfs (λ core k. 0) (codes "6") (codes "GenuineIntel")
      junk (0 ∷ 1 ∷ 2 ∷ []) [] (codes "0 2 " ∷ codes "1 " ∷ []) refl opens
      ((2, refl, refl), ((1, refl, refl), tt))

-- The domain that this makes for core 1.
place_of_core : line_of streams (codes "0 2 " ∷ codes "1 " ∷ []) 1 0 ≡ ok 1
unfolding line_of numbers contains extract_all extract_loop skip word_and_rest nonempty number_of
    value_of all_digits isspace isdigit
place_of_core = refl

create_kernel_domain-unknown_example :
    (d : Domain) × (create_kernel_domain streams sysfs junk 1 [] ≡ ok d)
    × (is_governor_available d 3 ≡ true)
unfolding read_frequencies extract_all extract_loop skip word_and_rest nonempty number_of value_of
    all_digits isspace isdigit find_name text_eq
create_kernel_domain-unknown_example =
    create_kernel_domain-unknown streams sysfs junk 1 [] (2400000 ∷ 1200000 ∷ [])
      (codes "performance schedutil ") 1 115 (codes "chedutil") reads refl refl refl (ground arith)
      refl (omega arith)
