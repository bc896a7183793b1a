-- ===== src/CpuFreq/Local/Unknown.antt =====
-- Governors of the kernel that the enumeration does not have.
use mammut.Common.{
  ℕ, zero, suc, ◌≡◌, ◌≢◌, refl, ap, ◌∙◌, true, some, none, List, [], ◌∷◌, get_elem?, ==_false,
  ==_self, ok, Text, arith,
}
use mathlib.Core.Option.{some-injective}
use mammut.Utils.Vectors.{contains}
use mammut.CpuFreq.Governors.{
  governor_num, governors_names, Streams, find_name, assign, get_governor_from_governor_name,
}
use mammut.CpuFreq.Governors.Names.{IsWord, ReadsWords, get_governor-word}
use mammut.CpuFreq.Domain.{Domain, is_governor_available}
use mammut.CpuFreq.Local.Made.{made_of, create_kernel_domain-made_of}
use mammut.CpuFreq.Local.{Sysfs, extract_all, read_frequencies, governors_of, create_kernel_domain}

module _ (streams : Streams) where
  contains-governors_of :
      (junk : ℕ → ℕ) (names : List Text) (i : ℕ) (name : Text)
      → get_elem? names i ≡ some name
      → get_governor_from_governor_name streams (junk i) name ≡ junk i
      → junk i ≢ governor_num
      → contains (governors_of streams junk names) (junk i) ≡ true
  unfolding governors_of contains
  contains-governors_of junk [] i name e same ne = cc
  contains-governors_of junk (first ∷ names) zero name e same ne =
      let here : get_governor_from_governor_name streams (junk 0) first ≡ junk 0 =
        ap (get_governor_from_governor_name streams (junk 0)) (some-injective _ _ e) ∙ same in
      rw (here, ==_false (junk 0) governor_num ne, ==_self (junk 0)) refl
  contains-governors_of junk (first ∷ names) (suc i) name e same ne =
      ground (arith, contains-governors_of (λ (j : ℕ). junk (suc j)) names i name e same ne)

  -- Where the frequencies can be read and the kernel offers a governor whose name, a word, is none
  -- of the six: the constructor returns a domain that says that a governor is available, which is
  -- whatever the variable of `getGovernorFromGovernorName` held that nothing sets, unless that was
  -- `GOVERNOR_NUM`.
  pub create_kernel_domain-unknown :
      (sysfs : Sysfs) (junk : ℕ → ℕ) (first : ℕ) (others fs : List ℕ) (s : Text) (i c : ℕ)
      (t : Text)
      → ReadsWords streams
      → read_frequencies streams
          (sysfs.scaling_available_frequencies first)
          (sysfs.time_in_state first)
        ≡ ok fs
      → sysfs.scaling_available_governors first ≡ some s
      → get_elem? (extract_all streams.next_word s) i ≡ some (c ∷ t)
      → IsWord (c ∷ t)
      → find_name governors_names (c ∷ t) 0 ≡ none
      → junk i ≢ governor_num
      → (d : Domain) × (create_kernel_domain streams sysfs junk first others ≡ ok d)
        × (is_governor_available d (junk i) ≡ true)
  unfolding is_governor_available assign
  create_kernel_domain-unknown sysfs junk first others fs s i c t reads read there at word unknown
        ne =
      let names = extract_all streams.next_word s in
      (
        made_of first others fs (governors_of streams junk names),
        create_kernel_domain-made_of streams sysfs junk first others fs s read there,
        contains-governors_of junk names i (c ∷ t) at
            (get_governor-word streams reads (junk i) c t word ∙ ap (assign (junk i)) unknown) ne,
      )
