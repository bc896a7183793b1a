-- ===== src/Topology/IdleLevels/Elapsed.antt =====
-- What getTime and getCount give after a reset, where the kernel's counters have gone on.
use mammut.Common.{ℕ, ◌+◌, ◌-◌, ◌%◌, ◌^◌, ◌≤◌, ◌<◌, ◌≡◌, refl, ◌∙◌, ap, some, ok, Text, arith}
use mammut.Common.Int.{ℤ, to_uint}
use mammut.Topology.IdleLevels.{
  Attribute, LevelFiles, IdleLevel, minus_uint, read_first_line, read_uint, get_absolute_time,
  get_time, reset_time,
}

-- The file has the number as an `int` has it, of which the conversion to a `uint` keeps the number
-- modulo 2^32.
abbrev pub Shows :
    {S : Type 0} (files : LevelFiles S) (string_to_int : Text → ℤ)
    → S
    → IdleLevel
    → Attribute
    → ℕ
    → Type 0
Shows files string_to_int s l a n =
    (line : Text) × (files.first_line s l.virtual_core_id l.level_id a ≡ some line)
    × (to_uint (string_to_int line) ≡ n % 2 ^ 32)

minus_uint-lem : (a b : ℕ) → b ≤ a → minus_uint (a % 2 ^ 32) (b % 2 ^ 32) ≡ (a - b) % 2 ^ 32
unfolding minus_uint
minus_uint-lem a b h = omega (arith, h)

module _ {S : Type 0} (files : LevelFiles S) (string_to_int : Text → ℤ) where
  read_uint-Shows :
      (s : S) (l : IdleLevel) (a : Attribute) (n : ℕ)
      → Shows files string_to_int s l a n
      → read_uint files string_to_int s l a ≡ ok (n % 2 ^ 32)
  unfolding read_uint read_first_line
  read_uint-Shows s l a n (line, e, q) = rw (e, q) refl

  -- Where the file time has t0 at a reset and t1 later on, each as an `int` has it, the reset
  -- returns the same level and getTime on the object then gives t1 - t0, modulo 2^32 and exactly where less than
  -- 2^32 microseconds have passed.
  pub get_time-reset_time :
      (s s' : S) (l : IdleLevel) (t0 t1 : ℕ)
      → Shows files string_to_int s l Attribute.time_file t0
      → Shows files string_to_int s' l Attribute.time_file t1
      → t0 ≤ t1
      → (l' : IdleLevel) × (reset_time files string_to_int s l ≡ ok l')
        × (l'.level_id ≡ l.level_id)
        × (get_time files string_to_int s' l' ≡ ok ((t1 - t0) % 2 ^ 32))
        × (t1 < t0 + 2 ^ 32 → get_time files string_to_int s' l' ≡ ok (t1 - t0))
  unfolding reset_time get_time get_absolute_time
  get_time-reset_time s s' l t0 t1 before after h =
      let l' = record l { last_abs_time = t0 % 2 ^ 32 } in
      let now : get_time files string_to_int s' l' ≡ ok ((t1 - t0) % 2 ^ 32) =
        rw (read_uint-Shows s' l' Attribute.time_file t1 after) (ap ok (minus_uint-lem t1 t0 h)) in
      (
        l',
        rw (read_uint-Shows s l Attribute.time_file t0 before) refl,
        refl,
        now,
        λ lt. now ∙ ap ok (omega (arith, lt, h)),
      )
