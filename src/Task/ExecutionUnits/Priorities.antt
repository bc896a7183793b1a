-- ===== src/Task/ExecutionUnits/Priorities.antt =====
-- What `getPriority` gives after `setPriority`, and what the functions do once a task has ended.
use mammut.Common.{
  ℕ, ◌≤◌, ◌≡◌, max, min, refl, ap, arith, true, false, some, none, List, All, get_elem?, ltb, Error,
  ok, throw, Text,
}
use mammut.Common.Int.{ℤ, pos, negsuc, sub_ℕ, sub_ℤ, to_uint}
use mammut.Utils.Vectors.{contains}
use mammut.Utils.Strings.Split.{join, LastNonempty, split-join}
use mammut.Server.{is_runtime_error}
use mammut.Task.ExecutionUnits.{
  TaskPath, ExecutionUnit, System, proc_stat_nice, priority_max, is_active,
  execute_and_check_active, after_throw, get_stat_fields, stat_value, get_up_time, get_cpu_time,
  reset_core_usage, get_priority, get_virtual_core_id, get_set_priority_identifiers, set_priority,
}

-- The file stat of the task has these fields, none of which holds a space.
pub record StatLine {S : Type 0} (system : System S) (s : S) (path : TaskPath) (fields : List Text)
    : Type 0 where
  pub line : system.stat s path ≡ some (join 32 fields)
  pub free : All (λ t. contains t 32 ≡ false) fields
  pub last : LastNonempty fields

-- The kernel keeps a nice value between -20 and 19.
abbrev pub clamp : ℤ → ℤ
clamp (pos n) = pos (min n 19)
clamp (negsuc n) = negsuc (min n 19)

clamp-nice : (p : ℕ) → p ≤ 40 → to_uint (sub_ℤ (pos 20) (clamp (sub_ℕ 20 p))) ≡ max 1 p
clamp-nice p h = ground arith

module _ {S : Type 0} (system : System S) (string_to_int : Text → ℤ) (string_to_id : Text → ℕ) where
  stat_value-StatLine :
      (s : S) (u : ExecutionUnit) (fields : List Text) (field : ℕ) (t : Text)
      → StatLine system s u.path fields
      → get_elem? fields field ≡ some t
      → stat_value system string_to_int string_to_id s u field ≡ ok (string_to_int t)
  unfolding stat_value get_stat_fields
  stat_value-StatLine s u fields field t stat at =
      rw (stat.line, split-join 32 fields stat.free stat.last, at) refl

  -- What a successful `renice` of some tasks leaves in the file stat of one of them.
  abbrev pub Renices : ExecutionUnit → Type 0
  Renices u =
      (s s' : S) (nice : ℤ) (ids : List ℕ)
      → system.renice s nice ids ≡ ok (s', 0)
      → contains ids u.id ≡ true
      → (fields : List Text) × StatLine system s' u.path fields
        × ((t : Text) × (get_elem? fields proc_stat_nice ≡ some t) × (string_to_int t ≡ clamp nice))

  -- Where `renice` sets the nice value of the tasks it is given, up to the limits -20 and 19, where
  -- the task is among those that its handler names, where its file stat has no field with a space,
  -- and where the command succeeds, setPriority with a priority of at most 40 returns true and
  -- getPriority then gives the priority, but 1 for the priority 0.
  pub get_priority-set_priority :
      (u : ExecutionUnit) (s s' : S) (p : ℕ) (ids : List ℕ)
      → Renices u
      → get_set_priority_identifiers system string_to_int string_to_id s u u.path ≡ ok ids
      → contains ids u.id ≡ true
      → system.renice s (sub_ℕ 20 p) ids ≡ ok (s', 0)
      → p ≤ 40
      → (set_priority system string_to_int string_to_id s u p ≡ ok (s', true))
        × (get_priority system string_to_int string_to_id s' u ≡ ok (some (max 1 p)))
  unfolding set_priority get_priority execute_and_check_active
  get_priority-set_priority u s s' p ids renices named own done h =
      let (fields, stat, (t, at, value)) = renices s s' (sub_ℕ 20 p) ids done own in
      let small : ltb priority_max p ≡ false = ground (arith, h) in
      (
        rw (small, named, done) refl,
        rw (stat_value-StatLine s' u fields proc_stat_nice t stat at, value)
            (ap (λ n. ok (some n)) (clamp-nice p h)),
      )

  -- Where the file stat of a task cannot be opened, getPriority and getVirtualCoreId answer false
  -- once its directory is gone, and so does resetCoreUsage, which then keeps the cpu time of the
  -- object; while the directory is there, each of them throws.
  pub stat_gone :
      (s : S) (u : ExecutionUnit) (up : ℤ)
      → system.stat s u.path ≡ none
      → get_up_time system string_to_int string_to_id s ≡ ok up
      → (is_active system string_to_int string_to_id s u ≡ false
          → (get_priority system string_to_int string_to_id s u ≡ ok none)
            × (get_virtual_core_id system string_to_int string_to_id s u ≡ ok none)
            × (reset_core_usage system string_to_int string_to_id s u
                ≡ ok (record u { last_up_time = up }, false)))
        × (is_active system string_to_int string_to_id s u ≡ true
            → (get_priority system string_to_int string_to_id s u ≡ throw Error.open_failed)
              × (get_virtual_core_id system string_to_int string_to_id s u
                  ≡ throw Error.open_failed)
              × (reset_core_usage system string_to_int string_to_id s u ≡ throw Error.open_failed))
  unfolding get_priority get_virtual_core_id reset_core_usage execute_and_check_active after_throw
      stat_value get_stat_fields get_cpu_time is_runtime_error
  stat_gone s u up gone at = (
    λ h. (
      rw (gone, h) refl,
      rw (gone, h) refl,
      rw (reset_core_usage, at, get_cpu_time, stat_value, get_stat_fields, gone, h) refl,
    ),
    λ h. (
      rw (gone, h) refl,
      rw (gone, h) refl,
      rw (reset_core_usage, at, get_cpu_time, stat_value, get_stat_fields, gone, h) refl,
    ),
  )
