-- ===== src/CpuFreq/Rollback.antt =====
-- `CpuFreq::getRollbackPoint` and `rollback` of src/cpufreq/cpufreq.cpp. The four vectors of a
-- RollbackPoint, each as long as the others, are a list of rows.
pub mod Writes
pub mod Restores
pub mod RoundTrip
pub mod Settings
pub mod Raises
mod Examples
use mammut.Common.{
  ℕ, zero, suc, Bool, true, false, not, ◌&&◌, ◌||◌, Option, some, none, List, [], ◌∷◌, ◌++◌, ◌==◌,
  if◌then◌else◌, Error, Result, ok, throw, ◌>>=◌,
}
use mammut.CpuFreq.Domain.{
  Governor, governor_userspace, File, Files, Domain, get_current_governor,
  get_current_frequency_userspace, set_frequency_userspace, get_current_governor_bounds,
  set_governor_bounds, set_governor,
}

pub record Row : Type 0 where
  pub governor : Governor
  pub frequency : ℕ
  pub lower_bound : ℕ
  pub upper_bound : ℕ

module _ {S : Type 0} (files : Files S) where
  pub get_row : S → Domain → Result Row
  get_row s d = get_current_governor files s d >>= λ g.
      get_current_frequency_userspace files s d >>= λ f.
      get_current_governor_bounds files s d >>= λ bounds.
      ok (record { governor = g; frequency = f; lower_bound = bounds.0; upper_bound = bounds.1 })

  -- `getRollbackPoint`
  pub get_rollback_point : S → List Domain → Result (List Row)
  get_rollback_point s [] = ok []
  get_rollback_point s (d ∷ ds) =
      get_row s d >>= λ row. get_rollback_point s ds >>= λ rows. ok (row ∷ rows)

  -- A call that must answer `true`.
  unfoldable pub expect : Error → S × Bool → Result S
  expect e (s, true) = ok s
  expect e (s, false) = throw e

  -- One round of the loop of `rollback`.
  unfoldable pub restore : S → Domain → Row → Result S
  restore s d row = set_governor files s d row.governor >>= expect Error.rollback_governor >>= λ s1.
      (if row.governor == governor_userspace
        then (set_frequency_userspace files s1 d row.frequency >>= expect Error.rollback_frequency)
        else (set_governor_bounds files s1 d row.lower_bound row.upper_bound
            >>= expect Error.rollback_bounds))

  -- `rollback`
  pub rollback : S → List Domain → List Row → Result S
  rollback s ds [] = ok s
  rollback s [] (row ∷ rows) = throw Error.out_of_range
  rollback s (d ∷ ds) (row ∷ rows) = restore s d row >>= λ s'. rollback s' ds rows
