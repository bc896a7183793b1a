-- ===== src/CpuFreq/Local/Places.antt =====
-- The domains that CpuFreqLinux makes for the lines of the file of the domains.
use mammut.Common.{
  ℕ, suc, ◌≡◌, refl, sym, ap, ap₂, ◌∙◌, Bool, true, false, ◌&&◌, some, List, [], ◌∷◌, All, map,
  if◌then◌else◌, Error, Result, ok, throw, ok-injective, >>=-eq-ok, Text, arith,
}
use mammut.Utils.Msr.{Device}
use mammut.Utils.Vectors.{contains}
use mammut.CpuFreq.Governors.{Streams}
use mammut.CpuFreq.Domain.{Domain, contains_core, get_virtual_cores_identifiers}
use mammut.CpuFreq.Machine.{filter_virtual_cores, get_domain}
use mammut.CpuFreq.Epyc.{create_epyc}
use mammut.CpuFreq.Local.Made.{create_kernel_domain-made_of}
use mammut.CpuFreq.Local.{
  Sysfs, DomainLinux, extract_all, read_frequencies, read_governors, create_kernel_domain,
  create_domain, create_domains, domains_for, create_cpu_freq, is_epyc,
}

-- The numbers of a line.
unfoldable pub numbers : Streams → Text → List ℕ
numbers streams line = extract_all streams.next_uint line

-- The place, from `i` on, of the first line that names the core.
unfoldable pub line_of : Streams → List Text → ℕ → ℕ → Result ℕ
line_of streams [] core i = throw Error.no_domain
line_of streams (line ∷ lines) core i =
    let later = line_of streams lines core (suc i) in
    if contains (numbers streams line) core then ok i else later

contains-filter_virtual_cores :
    (vc identifiers : List ℕ) (core : ℕ)
    → contains (filter_virtual_cores vc identifiers) core
      ≡ (contains vc core && contains identifiers core)
unfolding filter_virtual_cores contains
contains-filter_virtual_cores [] identifiers core = refl
contains-filter_virtual_cores (v ∷ vc) identifiers core = ground (
  arith,
  contains-filter_virtual_cores vc identifiers core,
  ap (λ (w : ℕ). contains identifiers w) {x = v} {y = core},
)

module _ (streams : Streams) (device : Device) where
  open device use {State}

  kernel_domain_cores :
      (sysfs : Sysfs) (junk : ℕ → ℕ) (first : ℕ) (others : List ℕ) (d : Domain)
      → create_kernel_domain streams sysfs junk first others ≡ ok d
      → get_virtual_cores_identifiers d ≡ first ∷ others
  unfolding create_kernel_domain get_virtual_cores_identifiers
  kernel_domain_cores sysfs junk first others d e =
      let (fs, e1, r1) =
        >>=-eq-ok
          (read_frequencies streams (sysfs.scaling_available_frequencies first)
            (sysfs.time_in_state first))
          _ e in
      let (gs, e2, r2) =
        >>=-eq-ok (read_governors streams junk (sysfs.scaling_available_governors first)) _ r1 in
      sym (ap (λ (x : Domain). x.first ∷ x.others) (ok-injective r2))

  domain_cores :
      (sysfs : Sysfs) (registers : ℕ → State) (epyc : Bool) (junk : ℕ → ℕ) (cores : List ℕ)
      (d : DomainLinux)
      → create_domain streams device sysfs registers epyc junk cores ≡ ok d
      → get_virtual_cores_identifiers d.domain ≡ cores
  unfolding create_domain get_virtual_cores_identifiers create_epyc
  domain_cores sysfs registers epyc junk [] d e = cc
  domain_cores sysfs registers true junk (first ∷ others) d e =
      sym (ap (λ (x : DomainLinux). x.domain.first ∷ x.domain.others) (ok-injective e))
  domain_cores sysfs registers false junk (first ∷ others) d e =
      let (k, e1, r1) = >>=-eq-ok (create_kernel_domain streams sysfs junk first others) _ e in
      sym (ap (λ (x : DomainLinux). x.domain.first ∷ x.domain.others) (ok-injective r1))
      ∙ kernel_domain_cores sysfs junk first others k e1

  get_domain-create_domains :
      (sysfs : Sysfs) (registers : ℕ → State) (epyc : Bool) (junk : ℕ → ℕ) (vc : List ℕ)
      (lines : List Text) (ds : List DomainLinux) (core i : ℕ)
      → create_domains streams device sysfs registers epyc junk vc lines ≡ ok ds
      → contains vc core ≡ true
      → get_domain (map (λ d. d.domain) ds) i core ≡ line_of streams lines core i
  unfolding create_domains get_domain line_of contains_core numbers
  get_domain-create_domains sysfs registers epyc junk vc [] ds core i e h =
      ap (λ (l : List DomainLinux). get_domain (map (λ d. d.domain) l) i core)
        (sym (ok-injective e))
  get_domain-create_domains sysfs registers epyc junk vc (line ∷ lines) ds core i e h =
      let cores = filter_virtual_cores vc (numbers streams line) in
      let (d, e1, r1) =
        >>=-eq-ok (create_domain streams device sysfs registers epyc junk cores) _ e in
      let (rest, e2, r2) =
        >>=-eq-ok (create_domains streams device sysfs registers epyc junk vc lines) _ r1 in
      let ih =
        get_domain-create_domains sysfs registers epyc junk vc lines rest core (suc i) e2 h in
      let has : contains (get_virtual_cores_identifiers d.domain) core
          ≡ contains (numbers streams line) core =
        ap (λ (l : List ℕ). contains l core) (domain_cores sysfs registers epyc junk cores d e1)
        ∙ contains-filter_virtual_cores vc (numbers streams line) core
        ∙ ap (λ (b : Bool). b && contains (numbers streams line) core) h in
      ap (λ (l : List DomainLinux). get_domain (map (λ d. d.domain) l) i core)
        (sym (ok-injective r2))
      ∙ ap₂ (λ (b : Bool) (r : Result ℕ). if b then ok i else r) has ih

  -- The files of each core are such that its frequencies and governors can be read.
  pub record Opens (sysfs : Sysfs) : Type 0 where
    pub frequencies :
        (core : ℕ)
        → (fs : List ℕ) × (read_frequencies streams
              (sysfs.scaling_available_frequencies core)
              (sysfs.time_in_state core)
            ≡ ok fs)
    pub governors : (core : ℕ) → (s : Text) × (sysfs.scaling_available_governors core ≡ some s)

  kernel_domain-ok :
      (sysfs : Sysfs) (registers : ℕ → State) (junk : ℕ → ℕ) (first : ℕ) (others : List ℕ)
      (d : Domain)
      → create_kernel_domain streams sysfs junk first others ≡ ok d
      → create_domain streams device sysfs registers false junk (first ∷ others)
        ≡ ok (record { epyc = false; domain = d })
  unfolding create_domain
  kernel_domain-ok sysfs registers junk first others d e = rw e refl

  create_domain-Returns :
      (sysfs : Sysfs) (registers : ℕ → State) (epyc : Bool) (junk : ℕ → ℕ) (cores : List ℕ)
      (core : ℕ)
      → Opens sysfs
      → contains cores core ≡ true
      → (d : DomainLinux) × (create_domain streams device sysfs registers epyc junk cores ≡ ok d)
  unfolding create_domain contains
  create_domain-Returns sysfs registers epyc junk [] core opens h = cc
  create_domain-Returns sysfs registers true junk (first ∷ others) core opens h = (_, refl)
  create_domain-Returns sysfs registers false junk (first ∷ others) core opens h =
      let (fs, e1) = opens.frequencies first in
      let (s, e2) = opens.governors first in
      (
        _,
        kernel_domain-ok sysfs registers junk first others _
            (create_kernel_domain-made_of streams sysfs junk first others fs s e1 e2),
      )

  -- Each line names a virtual core of the topology.
  abbrev pub Named : List ℕ → List Text → Type 0
  Named vc lines =
      All
        (λ line.
          (core : ℕ) × (contains vc core ≡ true) × (contains (numbers streams line) core ≡ true))
        lines

  create_domains-Returns :
      (sysfs : Sysfs) (registers : ℕ → State) (epyc : Bool) (junk : ℕ → ℕ) (vc : List ℕ)
      (lines : List Text)
      → Opens sysfs
      → Named vc lines
      → (ds : List DomainLinux) × (create_domains streams device sysfs registers epyc junk vc lines
          ≡ ok ds)
  unfolding create_domains numbers
  create_domains-Returns sysfs registers epyc junk vc [] opens named = ([], refl)
  create_domains-Returns sysfs registers epyc junk vc (line ∷ lines) opens ((core, a, b), named) =
      let cores = filter_virtual_cores vc (numbers streams line) in
      let (d, e1) = create_domain-Returns sysfs registers epyc junk cores core opens (
        contains-filter_virtual_cores vc (numbers streams line) core
        ∙ ap₂ (λ (p q : Bool). p && q) a b) in
      let (ds, e2) = create_domains-Returns sysfs registers epyc junk vc lines opens named in
      (d ∷ ds, rw (e1, e2) refl)

  -- Where there is a directory cpufreq, the frequencies and governors of each core can be read, and
  -- each line of the file of the domains names a virtual core of the topology, the constructor of
  -- CpuFreqLinux returns. `getDomain` of a virtual core of the topology then gives the domain at the
  -- place of the first line that names the core, and throws where none does.
  pub get_domain-create_cpu_freq :
      (sysfs : Sysfs) (registers : ℕ → State) (family vendor_id : Text) (junk : ℕ → ℕ) (vc : List ℕ)
      (physical : List (List ℕ)) (lines : List Text)
      → sysfs.related_cpus ≡ some lines
      → Opens sysfs
      → Named vc lines
      → (ds : List DomainLinux) × (create_cpu_freq streams device sysfs registers family vendor_id
            junk vc physical
          ≡ ok ds)
        × ((core : ℕ)
            → contains vc core ≡ true
            → get_domain (map (λ d. d.domain) ds) 0 core ≡ line_of streams lines core 0)
  unfolding create_cpu_freq domains_for
  get_domain-create_cpu_freq sysfs registers family vendor_id junk vc physical lines there opens
        named =
      let epyc = is_epyc family vendor_id in
      let (ds, e) = create_domains-Returns sysfs registers epyc junk vc lines opens named in
      (
        ds,
        ap (λ o. domains_for streams device sysfs registers epyc junk vc physical o) there ∙ e,
        λ core h. get_domain-create_domains sysfs registers epyc junk vc lines ds core 0 e h,
      )
