-- ===== src/CpuFreq/Rollback/Settings.antt =====
-- A domain that is set to a row again, with its bounds left as they are.
use mammut.Common.{
  ℕ, ◌≡◌, refl, ◌≤◌, inl, inr, sym, ◌∙◌, true, false, Option, some, none, ◌==◌, Error, Result, ok,
  ◌>>=◌, or_throw, arith,
}
use mammut.CpuFreq.Domain.{
  governor_userspace, scaling_min_freq, scaling_max_freq, Files, Domain, read_first,
  get_current_governor, get_current_frequency_userspace, get_current_governor_bounds,
}
use mammut.CpuFreq.Rollback.{Row, get_row, restore}
use mammut.CpuFreq.Rollback.Writes.{Policies, Kernel, IsPolicy}
use mammut.CpuFreq.Rollback.Restores.{Possible, Fits, restore-Restored}
use mammut.CpuFreq.Rollback.RoundTrip.{row-fields}

-- Under userspace the row's frequency lies within its bounds.
abbrev pub InBounds : Row → Type 0
InBounds row =
    (row.governor == governor_userspace ≡ true)
    → (row.lower_bound ≤ row.frequency) × (row.frequency ≤ row.upper_bound)

abbrev both : Option ℕ → Option ℕ → Result (ℕ × ℕ)
both l u = or_throw Error.open_failed l >>= λ lower.
    or_throw Error.open_failed u >>= λ upper. ok (lower, upper)

bounds-reads : (l u : Option ℕ) (a b : ℕ) → both l u ≡ ok (a, b) → (l ≡ some a) × (u ≡ some b)
bounds-reads none u a b h = cc
bounds-reads (some l) none a b h = cc
bounds-reads (some l) (some u) a b h = ground arith

module _ {S : Type 0} (files : Files S) (ps : Policies) (kernel : Kernel files ps) where
  -- The bounds of the domain are the row's.
  abbrev pub HasBounds : S → Domain → Row → Type 0
  HasBounds s d row =
      (files.read s d.first scaling_min_freq ≡ some row.lower_bound)
      × (files.read s d.first scaling_max_freq ≡ some row.upper_bound)

  pub get_row-HasBounds :
      (s : S) (d : Domain) (row : Row) → get_row files s d ≡ ok row → HasBounds s d row
  unfolding get_row get_current_governor_bounds read_first
  get_row-HasBounds s d row e =
      let (eg, ef, eb) =
        row-fields files ps kernel (get_current_governor files s d)
          (get_current_frequency_userspace files s d) (get_current_governor_bounds files s d) row
          e in
      bounds-reads (files.read s d.first scaling_min_freq) (files.read s d.first scaling_max_freq)
        row.lower_bound row.upper_bound eb

  HasBounds-Fits :
      (s : S) (d : Domain) (row : Row)
      → Possible files ps kernel d row
      → InBounds row
      → HasBounds s d row
      → Fits files ps kernel s d row
  HasBounds-Fits s d row (can, inl (user, has)) inside (el, eu) = record {
    lower = row.lower_bound;
    upper = row.upper_bound;
    reads_lower = el;
    reads_upper = eu;
    within = inl (user, (inside user).0, (inside user).1);
  }
  HasBounds-Fits s d row (can, inr (other, lower, upper, order)) inside (el, eu) = record {
    lower = row.lower_bound;
    upper = row.upper_bound;
    reads_lower = el;
    reads_upper = eu;
    within = inr (other, ground (arith, order));
  }

  other_frequency :
      (s : S) (d : Domain) (g : ℕ)
      → get_current_governor files s d ≡ ok g
      → g == governor_userspace ≡ false
      → get_current_frequency_userspace files s d ≡ ok 0
  unfolding get_current_frequency_userspace
  other_frequency s d g e other = rw (e, other) refl

  bounds_of :
      (s : S) (d : Domain) (row : Row)
      → HasBounds s d row
      → get_current_governor_bounds files s d ≡ ok (row.lower_bound, row.upper_bound)
  unfolding get_current_governor_bounds read_first
  bounds_of s d row (el, eu) = rw (el, eu) refl

  fields-row :
      (s : S) (d : Domain) (row : Row)
      → get_current_governor files s d ≡ ok row.governor
      → get_current_frequency_userspace files s d ≡ ok row.frequency
      → get_current_governor_bounds files s d ≡ ok (row.lower_bound, row.upper_bound)
      → get_row files s d ≡ ok row
  unfolding get_row
  fields-row s d row eg ef eb = rw (eg, ef, eb) refl

  -- Where only the governor and the speed of a domain were changed since its row was taken, setting it
  -- to the row again returns, and the domain's row is the same.
  pub restore-get_row :
      (before s : S) (d : Domain) (row : Row)
      → get_row files before d ≡ ok row
      → IsPolicy files ps kernel d
      → Possible files ps kernel d row
      → InBounds row
      → HasBounds s d row
      → (s' : S) × (restore files s d row ≡ ok s') × (get_row files s' d ≡ ok row)
  unfolding get_row
  restore-get_row before s d row taken is possible inside bounds =
      let (eg, ef, eb) =
        row-fields files ps kernel (get_current_governor files before d)
          (get_current_frequency_userspace files before d)
          (get_current_governor_bounds files before d) row taken in
      let (s', e, (gov, setting), kept, elsewhere) =
        restore-Restored files ps kernel s d row is possible
          (HasBounds-Fits s d row possible inside bounds) in
      (
        s',
        e,
        elim setting [
          | inl (user, frequency) ↦
              let (low, high) = kept user in
              fields-row s' d row gov frequency
                (bounds_of s' d row (low ∙ bounds.0, high ∙ bounds.1))
          | inr (other, set) ↦
              fields-row s' d row gov
                (other_frequency s' d row.governor gov other
                  ∙ sym (other_frequency before d row.governor eg other)
                  ∙ ef)
                set
        ],
      )
