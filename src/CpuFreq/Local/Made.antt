-- ===== src/CpuFreq/Local/Made.antt =====
-- The domain that the constructor of DomainLinux makes on the kernel's files.
use mammut.Common.{ℕ, ◌≡◌, refl, Option, some, List, [], ok, Text}
use mammut.CpuFreq.Governors.{Governor, Streams}
use mammut.CpuFreq.Domain.{Domain}
use mammut.CpuFreq.Local.{
  Sysfs, sort, extract_all, read_frequencies, governors_of, read_governors, create_kernel_domain,
}

-- What is made of the frequencies and the governors that are read.
abbrev pub made_of : ℕ → List ℕ → List ℕ → List Governor → Domain
made_of first others fs gs = record {
  first = first;
  others = others;
  available_frequencies = sort fs;
  turbo_frequencies = [];
  available_governors = gs;
}

module _ (streams : Streams) where
  pub read_governors-some :
      (junk : ℕ → ℕ) (file : Option Text) (s : Text)
      → file ≡ some s
      → read_governors streams junk file
        ≡ ok (governors_of streams junk (extract_all streams.next_word s))
  unfolding read_governors
  read_governors-some junk file s e = rw (e, read_governors) refl

  create_kernel_domain-lem :
      (sysfs : Sysfs) (junk : ℕ → ℕ) (first : ℕ) (others fs : List ℕ) (gs : List Governor)
      → read_frequencies streams
          (sysfs.scaling_available_frequencies first)
          (sysfs.time_in_state first)
        ≡ ok fs
      → read_governors streams junk (sysfs.scaling_available_governors first) ≡ ok gs
      → create_kernel_domain streams sysfs junk first others ≡ ok (made_of first others fs gs)
  unfolding create_kernel_domain
  create_kernel_domain-lem sysfs junk first others fs gs e1 e2 = rw (e1, e2) refl

  -- The constructor returns where the frequencies and the governors can be read.
  pub create_kernel_domain-made_of :
      (sysfs : Sysfs) (junk : ℕ → ℕ) (first : ℕ) (others fs : List ℕ) (s : Text)
      → read_frequencies streams
          (sysfs.scaling_available_frequencies first)
          (sysfs.time_in_state first)
        ≡ ok fs
      → sysfs.scaling_available_governors first ≡ some s
      → create_kernel_domain streams sysfs junk first others
        ≡ ok (made_of first others fs (governors_of streams junk (extract_all streams.next_word s)))
  create_kernel_domain-made_of sysfs junk first others fs s e1 e2 =
      create_kernel_domain-lem sysfs junk first others fs _ e1
        (read_governors-some junk (sysfs.scaling_available_governors first) s e2)
