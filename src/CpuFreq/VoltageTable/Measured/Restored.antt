-- ===== src/CpuFreq/VoltageTable/Measured/Restored.antt =====
-- What measuring a voltage table leaves in the cpufreq files.
use mammut.Common.{
  ℕ, zero, suc, ◌≡◌, refl, ◌∙◌, inl, inr, Bool, true, false, Bool-cases, some, List, [], ◌∷◌, ◌==◌,
  length, if◌then◌else◌, Error, Result, Result-cases, ok, throw, ◌>>=◌,
}
use mammut.Utils.Vectors.{contains}
use mammut.CpuFreq.Domain.{
  governor_userspace, File, scaling_governor, scaling_setspeed, scaling_min_freq, scaling_max_freq,
  Files, Domain, read_first, get_current_governor, set_frequency_userspace, set_governor_bounds,
  set_governor,
}
use mammut.CpuFreq.Rollback.{Row, expect, restore, get_row}
use mammut.CpuFreq.Rollback.Writes.{Policies, Kernel, IsPolicy, write-Wrote}
use mammut.CpuFreq.Rollback.Restores.{Possible}
use mammut.CpuFreq.Rollback.Settings.{InBounds, HasBounds, get_row-HasBounds, restore-get_row}
use mammut.CpuFreq.VoltageTable.{VoltageTable, insert_entry}
use mammut.CpuFreq.VoltageTable.Measured.{
  Measuring, num_samples, on_each, samples, frequencies, give_back, measure, cores_to_max,
  get_voltage_table,
}

module _ {S V : Type 0} (files : Files S) (measuring : Measuring S V) where
  -- The cpufreq files read the same.
  abbrev pub Untouched : S → S → Type 0
  Untouched s s' = (core : ℕ) (file : File) → files.read s' core file ≡ files.read s core file

  -- Keeping a core busy and letting it go return, and neither touches the cpufreq files; nor does
  -- sleeping.
  pub record Leaves : Type 0 where
    pub maximizes :
        (s : S) (core : ℕ)
        → (s' : S) × (measuring.maximize_utilization s core ≡ ok s') × Untouched s s'
    pub resets :
        (s : S) (core : ℕ)
        → (s' : S) × (measuring.reset_utilization s core ≡ ok s') × Untouched s s'
    pub sleeps : (s : S) → Untouched s (measuring.sleep s)

  on_each-Returns :
      (op : S → ℕ → Result S)
      → ((s : S) (core : ℕ) → (s' : S) × (op s core ≡ ok s') × Untouched s s')
      → (s : S) (cores : List ℕ)
      → (s' : S) × (on_each files measuring op s cores ≡ ok s') × Untouched s s'
  unfolding on_each
  on_each-Returns op law s [] = (s, refl, λ c f. refl)
  on_each-Returns op law s (core ∷ cores) =
      let (s1, e, same1) = law s core in
      let (s2, rest, same2) = on_each-Returns op law s1 cores in
      (s2, rw e rest, λ c f. same2 c f ∙ same1 c f)

  samples-Untouched :
      (leaves : Leaves) (s : S) (d : Domain) (n : ℕ) (sum : V)
      → Untouched s ((samples files measuring s d n sum).0)
  unfolding samples
  samples-Untouched leaves s d zero sum = λ c f. refl
  samples-Untouched leaves s d (suc n) sum =
      λ c f. samples-Untouched leaves (measuring.sleep s) d n _ c f ∙ leaves.sleeps s c f

  expected :
      (e : Error) (r : Result (S × Bool)) (s' : S)
      → (r >>= expect files e) ≡ ok s'
      → (r >>= λ q. ok q.0) ≡ ok s'
  unfolding expect
  expected e (throw x) s' h = cc
  expected e (ok (s, true)) s' h = h
  expected e (ok (s, false)) s' h = cc

  after_governor :
      (s s' : S) (b : Bool) (d : Domain) (row : Row)
      → (expect files Error.rollback_governor (s, b) >>= λ s1.
          (if row.governor == governor_userspace
            then (set_frequency_userspace files s1 d row.frequency
                >>= expect files Error.rollback_frequency)
            else (set_governor_bounds files s1 d row.lower_bound row.upper_bound
                >>= expect files Error.rollback_bounds)))
        ≡ ok s'
      → (if row.governor == governor_userspace
          then (set_frequency_userspace files s d row.frequency >>= λ r. ok r.0)
          else (set_governor_bounds files s d row.lower_bound row.upper_bound >>= λ r. ok r.0))
        ≡ ok s'
  unfolding expect
  after_governor s s' false d row h = cc
  after_governor s s' true d row h = elim (Bool-cases (row.governor == governor_userspace)) [
    | inl user ↦ rw user (expected _ _ s' (rw user at h))
    | inr other ↦ rw other (expected _ _ s' (rw other at h))
  ]

  give_back-restore :
      (s s' : S) (d : Domain) (row : Row)
      → restore files s d row ≡ ok s'
      → give_back files measuring s d row ≡ ok s'
  unfolding give_back restore
  give_back-restore s s' d row h = elim (Result-cases (set_governor files s d row.governor)) [
    | inl (x, e) ↦ let q = rw e at h in absurd cc
    | inr ((s1, b), e) ↦ rw e (after_governor s1 s' b d row (rw e at h))
  ]

  module _ (ps : Policies) (kernel : Kernel files ps) (leaves : Leaves) where
    -- The governor of the domain is userspace, and its bounds are the row's.
    User : S → Domain → Row → Type 0
    User s d row =
        (files.read s d.first scaling_governor ≡ some governor_userspace)
        × HasBounds files ps kernel s d row

    User-untouched :
        (s s' : S) (d : Domain) (row : Row) → Untouched s s' → User s d row → User s' d row
    unfolding User
    User-untouched s s' d row same (user, (low, high)) = (
      same d.first scaling_governor ∙ user,
      (same d.first scaling_min_freq ∙ low, same d.first scaling_max_freq ∙ high),
    )

    -- Whether the kernel accepts the speed or not, the governor and the bounds stay.
    set_frequency-User :
        (s : S) (d : Domain) (row : Row) (f : ℕ)
        → IsPolicy files ps kernel d
        → User s d row
        → (s' : S) × (b : Bool) × (set_frequency_userspace files s d f ≡ ok (s', b)) × User s' d row
    unfolding User set_frequency_userspace get_current_governor read_first
    set_frequency-User s d row f is (user, (low, high)) =
        elim (Bool-cases (contains d.available_frequencies f)) [
          | inl h ↦
              let (s', e, w) = write-Wrote files ps kernel s d scaling_setspeed f is in
              (
                s',
                true,
                simp (user, h, e),
                (
                  w.beside d.first scaling_governor (λ q. cc) (λ q. cc) ∙ user,
                  (
                    w.beside d.first scaling_min_freq (λ q. cc) (λ q. cc) ∙ low,
                    w.beside d.first scaling_max_freq (λ q. cc) (λ q. cc) ∙ high,
                  ),
                ),
              )
          | inr h ↦ (s, false, simp (user, h), (user, (low, high)))
        ]

    frequencies-lem :
        (s s1 s2 : S) (b : Bool) (d : Domain) (n f : ℕ) (fs : List ℕ) (table t : VoltageTable V)
        → set_frequency_userspace files s d f ≡ ok (s1, b)
        → frequencies files measuring
            ((samples files measuring s1 d num_samples measuring.no_voltage).0)
            d
            n
            fs
            (insert_entry
              (n, f)
              (measuring.over
                ((samples files measuring s1 d num_samples measuring.no_voltage).1)
                num_samples)
              table)
          ≡ ok (s2, t)
        → frequencies files measuring s d n (f ∷ fs) table ≡ ok (s2, t)
    unfolding frequencies
    frequencies-lem s s1 s2 b d n f fs table t e rest = rw e rest

    frequencies-Returns :
        (s : S) (d : Domain) (row : Row) (n : ℕ) (fs : List ℕ) (table : VoltageTable V)
        → IsPolicy files ps kernel d
        → User s d row
        → (s' : S) × (t : VoltageTable V) × (frequencies files measuring s d n fs table
            ≡ ok (s', t))
          × User s' d row
    unfolding frequencies
    frequencies-Returns s d row n [] table is user = (s, table, refl, user)
    frequencies-Returns s d row n (f ∷ fs) table is user =
        let (s1, b, e, user1) = set_frequency-User s d row f is user in
        let sampled = samples files measuring s1 d num_samples measuring.no_voltage in
        let (s2, t, rest, user2) =
          frequencies-Returns sampled.0 d row n fs
            (insert_entry (n, f) (measuring.over sampled.1 num_samples) table) is
            (User-untouched s1 sampled.0 d row
              (samples-Untouched leaves s1 d num_samples measuring.no_voltage) user1) in
        (s2, t, frequencies-lem s s1 s2 b d n f fs table t e rest, user2)

    measure-lem :
        (s s1 s2 s3 s4 : S) (d : Domain) (row : Row) (n : ℕ) (cores : List ℕ) (t : VoltageTable V)
        → on_each files measuring measuring.maximize_utilization s cores ≡ ok s1
        → frequencies files measuring s1 d n d.available_frequencies [] ≡ ok (s2, t)
        → on_each files measuring measuring.reset_utilization s2 cores ≡ ok s3
        → give_back files measuring s3 d row ≡ ok s4
        → measure files measuring (s, true) d row n cores ≡ ok (s4, t)
    unfolding measure
    measure-lem s s1 s2 s3 s4 d row n cores t a b c e = rw (a, b, c, e) refl

    measure-get_row :
        (before s : S) (d : Domain) (row : Row) (n : ℕ) (cores : List ℕ)
        → get_row files before d ≡ ok row
        → IsPolicy files ps kernel d
        → Possible files ps kernel d row
        → InBounds row
        → User s d row
        → (s' : S) × (t : VoltageTable V) × (measure files measuring (s, true) d row n cores
            ≡ ok (s', t))
          × (get_row files s' d ≡ ok row)
    unfolding User
    measure-get_row before s d row n cores taken is possible inside user =
        let (s1, a, same) =
          on_each-Returns measuring.maximize_utilization leaves.maximizes s cores in
        let (s2, t, b, user2) =
          frequencies-Returns s1 d row n d.available_frequencies [] is
            (User-untouched s s1 d row same user) in
        let (s3, c, same3) = on_each-Returns measuring.reset_utilization leaves.resets s2 cores in
        let (governor, bounds) = User-untouched s2 s3 d row same3 user2 in
        let (s4, e, set) =
          restore-get_row files ps kernel before s3 d row taken is possible inside bounds in
        (
          s4,
          t,
          measure-lem s s1 s2 s3 s4 d row n cores t a b c (give_back-restore s3 s4 d row e),
          set,
        )

    get_voltage_table-lem :
        (s s1 s2 : S) (d : Domain) (row : Row) (n : ℕ) (only : Bool) (t : VoltageTable V)
        → get_row files s d ≡ ok row
        → set_governor files s d governor_userspace ≡ ok (s1, true)
        → measure files measuring
            (s1, true)
            d
            row
            (length (cores_to_max files measuring d n only))
            (cores_to_max files measuring d n only)
          ≡ ok (s2, t)
        → get_voltage_table files measuring s d n only ≡ ok (s2, t)
    unfolding get_voltage_table
    get_voltage_table-lem s s1 s2 d row n only t e q m = rw (e, q) m

    -- `getVoltageTable` returns, and the domain's governor, frequency and bounds are what they were.
    pub get_voltage_table-get_row :
        (before : S) (d : Domain) (row : Row) (n : ℕ) (only : Bool)
        → get_row files before d ≡ ok row
        → IsPolicy files ps kernel d
        → Possible files ps kernel d row
        → InBounds row
        → contains d.available_governors governor_userspace ≡ true
        → (after : S) × (t : VoltageTable V) × (get_voltage_table files measuring before d n only
            ≡ ok (after, t))
          × (get_row files after d ≡ ok row)
    unfolding set_governor User
    get_voltage_table-get_row before d row n only taken is possible inside can =
        let (s1, e, w) =
          write-Wrote files ps kernel before d scaling_governor governor_userspace is in
        let (low, high) = get_row-HasBounds files ps kernel before d row taken in
        let cores = cores_to_max files measuring d n only in
        let (after, t, m, set) =
          measure-get_row before s1 d row (length cores) cores taken is possible inside (
            w.value (is.governors governor_userspace can) d.first refl,
            (
              w.beside d.first scaling_min_freq (λ q. cc) (λ q. cc) ∙ low,
              w.beside d.first scaling_max_freq (λ q. cc) (λ q. cc) ∙ high,
            ),
          ) in
        (
          after,
          t,
          get_voltage_table-lem before s1 after d row n only t taken (simp (can, e)) m,
          set,
        )
