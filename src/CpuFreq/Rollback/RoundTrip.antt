-- ===== src/CpuFreq/Rollback/RoundTrip.antt =====
-- A rollback point taken in one state and rolled back to from another.
use mammut.Common.{
  ℕ, ◌≡◌, ◌⊎◌, inl, inr, sym, ◌∙◌, true, false, List, [], ◌∷◌, ◌==◌, All, Result, ok, throw, ◌>>=◌,
  arith,
}
use mammut.CpuFreq.Domain.{
  Governor, governor_userspace, Files, Domain, get_current_governor,
  get_current_frequency_userspace, get_current_governor_bounds,
}
use mammut.CpuFreq.Rollback.{Row, get_row, get_rollback_point, rollback}
use mammut.CpuFreq.Rollback.Writes.{Policies, Kernel}
use mammut.CpuFreq.Rollback.Restores.{Restored, Ready, AllRestored, rollback-Kept}

module _ {S : Type 0} (files : Files S) (ps : Policies) (kernel : Kernel files ps) where
  -- In both states the domain has the same governor, and the same frequency where that is
  -- userspace, or else the same bounds.
  pub record Same (before after : S) (d : Domain) : Type 0 where
    pub governor : Governor
    pub was : get_current_governor files before d ≡ ok governor
    pub now : get_current_governor files after d ≡ ok governor
    pub setting :
        ((governor == governor_userspace ≡ true)
          × (get_current_frequency_userspace files after d
              ≡ get_current_frequency_userspace files before d))
        ⊎ ((governor == governor_userspace ≡ false)
            × (get_current_governor_bounds files after d
                ≡ get_current_governor_bounds files before d))

  pub row-fields :
      (gs : Result Governor) (fs : Result ℕ) (bs : Result (ℕ × ℕ)) (row : Row)
      → (gs >>= λ g. fs >>= λ f. bs >>= λ b.
          ok (record { governor = g; frequency = f; lower_bound = b.0; upper_bound = b.1 }))
        ≡ ok row
      → (gs ≡ ok row.governor)
        × (fs ≡ ok row.frequency)
        × (bs ≡ ok (row.lower_bound, row.upper_bound))
  row-fields (throw e) fs bs row h = cc
  row-fields (ok g) (throw e) bs row h = cc
  row-fields (ok g) (ok f) (throw e) row h = cc
  row-fields (ok g) (ok f) (ok (l, u)) row h = ground arith

  pub Restored-Same :
      (before after : S) (d : Domain) (row : Row)
      → get_row files before d ≡ ok row
      → Restored files ps kernel after d row
      → Same before after d
  unfolding get_row
  Restored-Same before after d row e (gov, setting) =
      let (eg, ef, eb) =
        row-fields (get_current_governor files before d)
          (get_current_frequency_userspace files before d)
          (get_current_governor_bounds files before d) row e in
      record {
        governor = row.governor;
        was = eg;
        now = gov;
        setting = elim setting [
          | inl (user, frequency) ↦ inl (user, frequency ∙ sym ef)
          | inr (user, bounds) ↦ inr (user, bounds ∙ sym eb)
        ];
      }

  cons-fields :
      (first : Result Row) (others : Result (List Row)) (row : Row) (rows : List Row)
      → (first >>= λ r. others >>= λ rs. ok (r ∷ rs)) ≡ ok (row ∷ rows)
      → (first ≡ ok row) × (others ≡ ok rows)
  cons-fields (throw e) others row rows h = cc
  cons-fields (ok r) (throw e) row rows h = cc
  cons-fields (ok r) (ok rs) row rows h = ground arith

  AllRestored-Same :
      (before after : S) (ds : List Domain) (rows : List Row)
      → get_rollback_point files before ds ≡ ok rows
      → AllRestored files ps kernel after ds rows
      → All (Same before after) ds
  unfolding get_rollback_point
  AllRestored-Same before after [] rows e h = tt
  AllRestored-Same before after (d ∷ ds) [] e h = elim h [ ]
  AllRestored-Same before after (d ∷ ds) (row ∷ rows) e (first, others) =
      let (one, more) =
        cons-fields (get_row files before d) (get_rollback_point files before ds) row rows e in
      (
        Restored-Same before after d row one first,
        AllRestored-Same before after ds rows more others,
      )

  -- For cpufreq files that open, that the cores of a policy share and that other policies do not
  -- change, where a write changes no other file than its own and scaling_setspeed, and a kernel that
  -- accepts a governor that it has, a frequency that it has as a bound where the bounds stay in order,
  -- and one as the speed under userspace within the bounds, and domains that are its policies, each another one: take a rollback point of the state
  -- `before`, each row of which names what its domain can be set to, and a state `s` in which each
  -- userspace row's frequency lies within the bounds of its domain, and each other row's lower bound
  -- is not above its domain's upper bound. Rolling back from `s` returns, and then each domain has the
  -- governor it had, and the frequency where that is userspace, or else the bounds.
  pub rollback-get_rollback_point :
      (before s : S) (ds : List Domain) (rows : List Row)
      → get_rollback_point files before ds ≡ ok rows
      → Ready files ps kernel s ds rows
      → (after : S) × (rollback files s ds rows ≡ ok after) × All (Same before after) ds
  rollback-get_rollback_point before s ds rows taken ready =
      let (after, returns, restored, kept) = rollback-Kept files ps kernel ds rows s ready in
      (after, returns, AllRestored-Same before after ds rows taken restored)
