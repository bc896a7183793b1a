-- ===== src/CpuFreq/Rollback/Restores.antt =====
-- What `rollback` leaves in the cpufreq files.
use mammut.Common.{
  ℕ, ◌≡◌, ◌≢◌, ◌≤◌, ◌⊎◌, inl, inr, refl, sym, ap, ◌∙◌, true, false, some, List, [], ◌∷◌, ◌==◌,
  ==_iff, ltb, ok, arith,
}
use mammut.Utils.Vectors.{contains}
use mammut.CpuFreq.Domain.{
  governor_userspace, File, scaling_governor, scaling_setspeed, scaling_min_freq, scaling_max_freq,
  Files, Domain, read_first, get_current_governor, get_current_frequency_userspace,
  set_frequency_userspace, get_current_governor_bounds, set_governor_bounds, set_governor,
}
use mammut.CpuFreq.Rollback.Writes.{Policies, Kernel, IsPolicy, write-Wrote}
use mammut.CpuFreq.Rollback.{Row, expect, restore, rollback}

module _ {S : Type 0} (files : Files S) (ps : Policies) (kernel : Kernel files ps) where
  -- The row names what the domain can be set to.
  abbrev pub Possible : Domain → Row → Type 0
  Possible d row =
      (contains d.available_governors row.governor ≡ true)
      × (((row.governor == governor_userspace ≡ true)
            × (contains d.available_frequencies row.frequency ≡ true))
          ⊎ ((row.governor == governor_userspace ≡ false)
              × (contains d.available_frequencies row.lower_bound ≡ true)
              × (contains d.available_frequencies row.upper_bound ≡ true)
              × (ltb row.upper_bound row.lower_bound ≡ false)))

  -- The bounds that the domain has let the row be set: under userspace the frequency lies within
  -- them; else the lower bound, which is written first, is not above the upper bound there is.
  pub record Fits (s : S) (d : Domain) (row : Row) : Type 0 where
    pub lower : ℕ
    pub upper : ℕ
    pub reads_lower : files.read s d.first scaling_min_freq ≡ some lower
    pub reads_upper : files.read s d.first scaling_max_freq ≡ some upper
    pub within :
        ((row.governor == governor_userspace ≡ true)
          × (lower ≤ row.frequency)
          × (row.frequency ≤ upper))
        ⊎ ((row.governor == governor_userspace ≡ false) × (row.lower_bound ≤ upper))

  -- The domain has the row's governor, with its frequency or with its bounds.
  abbrev pub Restored : S → Domain → Row → Type 0
  Restored s d row =
      (get_current_governor files s d ≡ ok row.governor)
      × (((row.governor == governor_userspace ≡ true)
            × (get_current_frequency_userspace files s d ≡ ok row.frequency))
          ⊎ ((row.governor == governor_userspace ≡ false)
              × (get_current_governor_bounds files s d ≡ ok (row.lower_bound, row.upper_bound))))

  -- Under userspace the bounds are left as they are.
  abbrev pub BoundsKept : S → S → Domain → Row → Type 0
  BoundsKept s s' d row =
      (row.governor == governor_userspace ≡ true)
      → (files.read s' d.first scaling_min_freq ≡ files.read s d.first scaling_min_freq)
        × (files.read s' d.first scaling_max_freq ≡ files.read s d.first scaling_max_freq)

  pub restore-Restored :
      (s : S) (d : Domain) (row : Row)
      → IsPolicy files ps kernel d
      → Possible d row
      → Fits s d row
      → (s' : S) × (restore files s d row ≡ ok s')
        × Restored s' d row
        × BoundsKept s s' d row
        × ((core : ℕ) (file : File)
            → ps.policy core ≢ ps.policy d.first
            → files.read s' core file ≡ files.read s core file)
  unfolding restore set_governor set_frequency_userspace set_governor_bounds expect
      get_current_governor get_current_frequency_userspace get_current_governor_bounds read_first
  restore-Restored s d row is (gov, inl (user, freq)) fits =
      let (s1, e1, w1) = write-Wrote files ps kernel s d scaling_governor row.governor is in
      let (s2, e2, w2) = write-Wrote files ps kernel s1 d scaling_setspeed row.frequency is in
      let now = w1.value (is.governors row.governor gov) d.first refl in
      let still = w2.beside d.first scaling_governor (λ e. cc) (λ e. cc) ∙ now in
      let low = w1.beside d.first scaling_min_freq (λ e. cc) (λ e. cc) in
      let high = w1.beside d.first scaling_max_freq (λ e. cc) (λ e. cc) in
      let inside : (fits.lower ≤ row.frequency) × (row.frequency ≤ fits.upper) = elim fits.within [
        | inl (u, ge, le) ↦ (ge, le)
        | inr (u, le) ↦ absurd cc
      ] in
      let set =
        w2.value
          (
            is.frequencies row.frequency freq,
            now ∙ ap some ((==_iff row.governor governor_userspace).0 user),
            fits.lower,
            fits.upper,
            low ∙ fits.reads_lower,
            high ∙ fits.reads_upper,
            inside.0,
            inside.1,
          )
          d.first refl in
      (
        s2,
        simp (gov, e1, now, user, freq, e2),
        (simp still, inl (user, simp (still, user, set))),
        λ u. (
          w2.beside d.first scaling_min_freq (λ e. cc) (λ e. cc) ∙ low,
          w2.beside d.first scaling_max_freq (λ e. cc) (λ e. cc) ∙ high,
        ),
        λ c f ne. w2.elsewhere c f ne ∙ w1.elsewhere c f ne,
      )
  restore-Restored s d row is (gov, inr (user, lower, upper, order)) fits =
      let (s1, e1, w1) = write-Wrote files ps kernel s d scaling_governor row.governor is in
      let (s2, e2, w2) = write-Wrote files ps kernel s1 d scaling_min_freq row.lower_bound is in
      let (s3, e3, w3) = write-Wrote files ps kernel s2 d scaling_max_freq row.upper_bound is in
      let now = w1.value (is.governors row.governor gov) d.first refl in
      let high = w1.beside d.first scaling_max_freq (λ e. cc) (λ e. cc) ∙ fits.reads_upper in
      let le : row.lower_bound ≤ fits.upper = elim fits.within [
        | inl (u, ge, le) ↦ absurd cc
        | inr (u, le) ↦ le
      ] in
      let low =
        w2.value (is.frequencies row.lower_bound lower, fits.upper, high, le) d.first refl in
      let set =
        w3.value (is.frequencies row.upper_bound upper, row.lower_bound, low, ground (arith, order))
          d.first refl in
      let still =
        w3.beside d.first scaling_governor (λ e. cc) (λ e. cc)
        ∙ w2.beside d.first scaling_governor (λ e. cc) (λ e. cc)
        ∙ now in
      let low_still = w3.beside d.first scaling_min_freq (λ e. cc) (λ e. cc) ∙ low in
      (
        s3,
        simp (gov, e1, user, lower, upper, order, e2, e3),
        (simp still, inr (user, simp (low_still, set))),
        λ u. absurd cc,
        λ c f ne. w3.elsewhere c f ne ∙ w2.elsewhere c f ne ∙ w1.elsewhere c f ne,
      )

  Restored-unchanged :
      (s s' : S) (d : Domain) (row : Row)
      → ((file : File) → files.read s' d.first file ≡ files.read s d.first file)
      → Restored s d row
      → Restored s' d row
  unfolding get_current_governor get_current_frequency_userspace get_current_governor_bounds
      read_first
  Restored-unchanged s s' d row same h =
      rw
        (same scaling_governor, same scaling_setspeed, same scaling_min_freq, same scaling_max_freq)
        h

  -- No domain of the list shares the policy.
  abbrev pub Apart : ℕ → List Domain → Type 0
  Apart p [] = Unit {0}
  Apart p (d ∷ ds) = (p ≢ ps.policy d.first) × Apart p ds

  -- The domains are policies, each another one, each row names what its domain can be set to, and
  -- the bounds that the domains have let the rows be set.
  abbrev pub Ready : S → List Domain → List Row → Type 0
  Ready s [] [] = Unit {0}
  Ready s (d ∷ ds) (row ∷ rows) =
      IsPolicy files ps kernel d
      × Possible d row
      × Fits s d row
      × Apart (ps.policy d.first) ds
      × Ready s ds rows
  Ready s ds rows = ⊥

  abbrev pub AllRestored : S → List Domain → List Row → Type 0
  AllRestored s [] [] = Unit {0}
  AllRestored s (d ∷ ds) (row ∷ rows) = Restored s d row × AllRestored s ds rows
  AllRestored s ds rows = ⊥

  Ready-kept :
      (s s' : S) (p : ℕ) (ds : List Domain) (rows : List Row)
      → ((core : ℕ) (file : File)
          → ps.policy core ≢ p
          → files.read s' core file ≡ files.read s core file)
      → Apart p ds
      → Ready s ds rows
      → Ready s' ds rows
  Ready-kept s s' p [] [] kept apart ready = tt
  Ready-kept s s' p [] (row ∷ rows) kept apart ready = elim ready [ ]
  Ready-kept s s' p (d ∷ ds) [] kept apart ready = elim ready [ ]
  Ready-kept s s' p (d ∷ ds) (row ∷ rows) kept (ne, apart) (is, possible, fits, own, ready) = (
    is,
    possible,
    record {
      lower = fits.lower;
      upper = fits.upper;
      reads_lower = kept d.first scaling_min_freq (λ q. ne (sym q)) ∙ fits.reads_lower;
      reads_upper = kept d.first scaling_max_freq (λ q. ne (sym q)) ∙ fits.reads_upper;
      within = fits.within;
    },
    own,
    Ready-kept s s' p ds rows kept apart ready,
  )

  pub rollback-Kept :
      (ds : List Domain) (rows : List Row) (s : S)
      → Ready s ds rows
      → (s' : S) × (rollback files s ds rows ≡ ok s')
        × AllRestored s' ds rows
        × ((core : ℕ) (file : File)
            → Apart (ps.policy core) ds
            → files.read s' core file ≡ files.read s core file)
  unfolding rollback
  rollback-Kept [] [] s ready = (s, refl, tt, λ c f a. refl)
  rollback-Kept [] (row ∷ rows) s ready = elim ready [ ]
  rollback-Kept (d ∷ ds) [] s ready = elim ready [ ]
  rollback-Kept (d ∷ ds) (row ∷ rows) s (is, possible, fits, apart, ready) =
      let (s1, e1, restored, bounds, kept1) = restore-Restored s d row is possible fits in
      let (s2, e2, rest, kept2) =
        rollback-Kept ds rows s1 (Ready-kept s s1 (ps.policy d.first) ds rows kept1 apart ready) in
      (
        s2,
        rw e1 e2,
        (Restored-unchanged s1 s2 d row (λ f. kept2 d.first f apart) restored, rest),
        λ c f a. kept2 c f a.1 ∙ kept1 c f a.0,
      )
