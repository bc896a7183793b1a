-- ===== src/Topology/IdleLevels/Examples.antt =====
-- A level whose time passes 2^32 between a reset and a reading.
use mammut.Common.{ℕ, ◌+◌, ◌-◌, ◌%◌, ◌^◌, ◌<◌, ◌≡◌, refl, arith, some, [], ◌∷◌, ok, Text}
use mammut.Common.Int.{ℤ, pos}
use mammut.Topology.IdleLevels.{LevelFiles, IdleLevel, reset_time, get_time}
use mammut.Topology.IdleLevels.Elapsed.{get_time-reset_time}

-- A line with one byte, which is the number itself.
abbrev one_counter : LevelFiles ℕ
one_counter = record {
  first_line = λ s core level a. some (s ∷ []);
  write_file = λ s core level a t. ok s;
}

abbrev as_number : Text → ℤ
as_number [] = pos 0
as_number (n ∷ t) = pos n

abbrev state_one : IdleLevel
state_one = record { virtual_core_id = 0; level_id = 1; last_abs_time = 0; last_abs_count = 0 }

get_time-reset_time_run :
    (l' : IdleLevel) × (reset_time one_counter as_number 4294967290 state_one ≡ ok l')
    × (l'.level_id ≡ 1)
    × (get_time one_counter as_number 4294967300 l' ≡ ok ((4294967300 - 4294967290) % 2 ^ 32))
    × (4294967300 < 4294967290 + 2 ^ 32
        → get_time one_counter as_number 4294967300 l' ≡ ok (4294967300 - 4294967290))
get_time-reset_time_run =
    get_time-reset_time one_counter as_number 4294967290 4294967300 state_one 4294967290 4294967300
      (4294967290 ∷ [], refl, refl) (4294967300 ∷ [], refl, refl) (omega arith)
