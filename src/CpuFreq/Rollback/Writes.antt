-- ===== src/CpuFreq/Rollback/Writes.antt =====
-- What the kernel does with writes to the cpufreq files.
use mammut.Common.{ℕ, ◌≡◌, ◌≢◌, ◌≤◌, refl, sym, ◌∙◌, true, some, List, [], ◌∷◌, All, ok}
use mammut.Utils.Vectors.{contains}
use mammut.CpuFreq.Domain.{
  Governor, governor_userspace, File, scaling_governor, scaling_setspeed, scaling_min_freq,
  scaling_max_freq, Files, Domain, paths, write_loop, write_to_domain_files,
}

-- The kernel's policies: that of each core, and the governors and the frequencies of each.
pub record Policies : Type 0 where
  pub policy : ℕ → ℕ
  pub governors : ℕ → List Governor
  pub frequencies : ℕ → List ℕ

module _ {S : Type 0} (files : Files S) (ps : Policies) where
  -- What the kernel accepts: a governor that it has; a frequency that it has, as the speed only under
  -- userspace and within the bounds, and as a bound only where the bounds stay in order.
  abbrev pub Accepts : S → ℕ → File → ℕ → Type 0
  Accepts s core scaling_governor v = contains (ps.governors (ps.policy core)) v ≡ true
  Accepts s core scaling_setspeed v =
      (contains (ps.frequencies (ps.policy core)) v ≡ true)
      × (files.read s core scaling_governor ≡ some governor_userspace)
      × (lower upper : ℕ) × (files.read s core scaling_min_freq ≡ some lower)
      × (files.read s core scaling_max_freq ≡ some upper)
      × (lower ≤ v)
      × (v ≤ upper)
  Accepts s core scaling_min_freq v =
      (contains (ps.frequencies (ps.policy core)) v ≡ true)
      × (upper : ℕ) × (files.read s core scaling_max_freq ≡ some upper)
      × (v ≤ upper)
  Accepts s core scaling_max_freq v =
      (contains (ps.frequencies (ps.policy core)) v ≡ true)
      × (lower : ℕ) × (files.read s core scaling_min_freq ≡ some lower)
      × (lower ≤ v)

  -- The files open for writing. The cores of one policy share their files. What is accepted is what
  -- is read then; accepted or not, a write leaves the other policies alone, and changes no other file
  -- than its own and scaling_setspeed, which shows the frequency that the policy runs at.
  pub record Kernel : Type 0 where
    pub opens :
        (s : S) (core : ℕ) (file : File) (v : ℕ) → (s' : S) × (files.write s core file v ≡ some s')
    pub shared :
        (s : S) (core core' : ℕ) (file : File)
        → ps.policy core' ≡ ps.policy core
        → files.read s core' file ≡ files.read s core file
    pub accepted :
        (s s' : S) (core : ℕ) (file : File) (v : ℕ)
        → files.write s core file v ≡ some s'
        → Accepts s core file v
        → files.read s' core file ≡ some v
    pub other_policy :
        (s s' : S) (core core' : ℕ) (file file' : File) (v : ℕ)
        → files.write s core file v ≡ some s'
        → ps.policy core' ≢ ps.policy core
        → files.read s' core' file' ≡ files.read s core' file'
    pub other_file :
        (s s' : S) (core core' : ℕ) (file file' : File) (v : ℕ)
        → files.write s core file v ≡ some s'
        → file ≢ file'
        → file' ≢ scaling_setspeed
        → files.read s' core' file' ≡ files.read s core' file'

  module _ (kernel : Kernel) where
    pub record Wrote (s s' : S) (at : ℕ) (file : File) (v : ℕ) : Type 0 where
      pub value :
          Accepts s at file v
          → (core : ℕ) → ps.policy core ≡ ps.policy at
          → files.read s' core file ≡ some v
      pub elsewhere :
          (core : ℕ) (file' : File)
          → ps.policy core ≢ ps.policy at
          → files.read s' core file' ≡ files.read s core file'
      pub beside :
          (core : ℕ) (file' : File)
          → file ≢ file'
          → file' ≢ scaling_setspeed
          → files.read s' core file' ≡ files.read s core file'

    -- What is accepted of one core of a policy is accepted of the next one.
    Accepts-next :
        (s s' : S) (core core' : ℕ) (file : File) (v : ℕ)
        → ps.policy core' ≡ ps.policy core
        → files.write s core file v ≡ some s'
        → Accepts s core file v
        → Accepts s' core' file v
    Accepts-next s s' core core' scaling_governor v q e a = rw q a
    Accepts-next s s' core core' scaling_setspeed v q e (has, user, lower, upper, el, eu, ge, le) =
        let keeps : (f : File)
            → scaling_setspeed ≢ f
            → files.read s' core' f ≡ files.read s core f =
          λ f ne.
            kernel.other_file s s' core core' scaling_setspeed f v e ne (λ p. ne (sym p))
            ∙ kernel.shared s core core' f q in
        (
          rw q has,
          keeps scaling_governor (λ p. cc) ∙ user,
          lower,
          upper,
          keeps scaling_min_freq (λ p. cc) ∙ el,
          keeps scaling_max_freq (λ p. cc) ∙ eu,
          ge,
          le,
        )
    Accepts-next s s' core core' scaling_min_freq v q e (has, upper, eu, le) = (
      rw q has,
      upper,
      kernel.other_file s s' core core' scaling_min_freq scaling_max_freq v e (λ p. cc) (λ p. cc)
          ∙ kernel.shared s core core' scaling_max_freq q
          ∙ eu,
      le,
    )
    Accepts-next s s' core core' scaling_max_freq v q e (has, lower, el, ge) = (
      rw q has,
      lower,
      kernel.other_file s s' core core' scaling_max_freq scaling_min_freq v e (λ p. cc) (λ p. cc)
          ∙ kernel.shared s core core' scaling_min_freq q
          ∙ el,
      ge,
    )

    write_loop-Wrote :
        (cores : List ℕ) (s : S) (core : ℕ) (file : File) (v : ℕ)
        → All (λ c. ps.policy c ≡ ps.policy core) cores
        → (s' : S) × (write_loop files s (core ∷ cores) file v ≡ ok s') × Wrote s s' core file v
    unfolding write_loop
    write_loop-Wrote [] s core file v all =
        let (s', e) = kernel.opens s core file v in
        (
          s',
          rw e refl,
          record {
            value = λ a c q. kernel.shared s' core c file q ∙ kernel.accepted s s' core file v e a;
            elsewhere = λ c f ne. kernel.other_policy s s' core c file f v e ne;
            beside = λ c f ne ng. kernel.other_file s s' core c file f v e ne ng;
          },
        )
    write_loop-Wrote (core' ∷ cores) s core file v (same, all) =
        let (s1, e) = kernel.opens s core file v in
        let (s', rest, w) = write_loop-Wrote cores s1 core' file v (rw same all) in
        (
          s',
          rw e rest,
          record {
            value =
                λ a c q. w.value (Accepts-next s s1 core core' file v same e a) c (q ∙ sym same);
            elsewhere = λ c f ne.
                w.elsewhere c f (λ q. ne (q ∙ same))
                ∙ kernel.other_policy s s1 core c file f v e ne;
            beside =
                λ c f ne ng. w.beside c f ne ng ∙ kernel.other_file s s1 core c file f v e ne ng;
          },
        )

    -- The cores of a domain are one policy's, and its governors and frequencies are the policy's.
    pub record IsPolicy (d : Domain) : Type 0 where
      pub one : All (λ c. ps.policy c ≡ ps.policy d.first) d.others
      pub governors :
          (g : Governor)
          → contains d.available_governors g ≡ true
          → contains (ps.governors (ps.policy d.first)) g ≡ true
      pub frequencies :
          (f : ℕ)
          → contains d.available_frequencies f ≡ true
          → contains (ps.frequencies (ps.policy d.first)) f ≡ true

    pub write-Wrote :
        (s : S) (d : Domain) (file : File) (v : ℕ)
        → IsPolicy d
        → (s' : S) × (write_to_domain_files files s d file v ≡ ok s') × Wrote s s' d.first file v
    unfolding write_to_domain_files paths
    write-Wrote s d file v is = write_loop-Wrote d.others s d.first file v is.one
