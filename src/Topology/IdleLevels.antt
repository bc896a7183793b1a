-- ===== src/Topology/IdleLevels.antt =====
-- The class VirtualCoreIdleLevelLinux of src/topology/topology-linux.cpp over the files of the
-- directory cpuidle. What a `uint` holds wraps at 2^32; `stringToInt`, which is the `atoi` of the C
-- library, is a parameter.
pub mod Elapsed
mod Examples
use mammut.Common.{
  ℕ, zero, suc, ◌+◌, ◌-◌, ◌%◌, ◌^◌, Bool, true, Option, some, none, if◌then◌else◌, Error, Result,
  ok, throw, ◌>>=◌, Text, codes, text_eq, or_throw,
}
use mammut.Common.Int.{ℤ, to_uint}

-- The files of the directory of a level.
pub data Attribute : Type 0 where
  name_file : Attribute
  desc_file : Attribute
  disable_file : Attribute
  latency_file : Attribute
  power_file : Attribute
  time_file : Attribute
  usage_file : Attribute

-- The files of the levels of the cores: the first line of a file, none where it cannot be opened,
-- and `writeFile`, which throws where the file cannot be opened.
pub record LevelFiles (S : Type 0) : Type 0 where
  pub first_line : S → ℕ → ℕ → Attribute → Option Text
  pub write_file : S → ℕ → ℕ → Attribute → Text → Result S

-- The object: the core and the level that it is of, and the values of the last resets.
pub record IdleLevel : Type 0 where
  pub virtual_core_id : ℕ
  pub level_id : ℕ
  pub last_abs_time : ℕ
  pub last_abs_count : ℕ

-- The difference of two values of type `uint`.
pub minus_uint : ℕ → ℕ → ℕ
minus_uint a b = (a + 2 ^ 32 - b) % 2 ^ 32

module _ {S : Type 0} (files : LevelFiles S) (string_to_int : Text → ℤ) where
  -- `readFirstLineFromFile`
  read_first_line : S → IdleLevel → Attribute → Result Text
  read_first_line s l a =
      or_throw Error.open_failed (files.first_line s l.virtual_core_id l.level_id a)

  read_uint : S → IdleLevel → Attribute → Result ℕ
  read_uint s l a = read_first_line s l a >>= λ line. ok (to_uint (string_to_int line))

  pub get_name : S → IdleLevel → Result Text
  get_name s l = read_first_line s l Attribute.name_file

  pub get_desc : S → IdleLevel → Result Text
  get_desc s l = read_first_line s l Attribute.desc_file

  -- `existsFile` of the file that disables the level.
  pub is_enableable : S → IdleLevel → Bool
  is_enableable s l =
      elim (files.first_line s l.virtual_core_id l.level_id Attribute.disable_file) [
        | none ↦ Bool.false
        | some line ↦ true
      ]

  pub is_enabled : S → IdleLevel → Result Bool
  is_enabled s l =
      if is_enableable s l
      then (read_first_line s l Attribute.disable_file >>= λ line. ok (text_eq line (codes "0")))
      else ok true

  pub enable : S → IdleLevel → Result S
  enable s l = files.write_file s l.virtual_core_id l.level_id Attribute.disable_file (codes "0")

  pub disable : S → IdleLevel → Result S
  disable s l = files.write_file s l.virtual_core_id l.level_id Attribute.disable_file (codes "1")

  pub get_exit_latency : S → IdleLevel → Result ℕ
  get_exit_latency s l = read_uint s l Attribute.latency_file

  pub get_consumed_power : S → IdleLevel → Result ℕ
  get_consumed_power s l = read_uint s l Attribute.power_file

  pub get_absolute_time : S → IdleLevel → Result ℕ
  get_absolute_time s l = read_uint s l Attribute.time_file

  pub get_time : S → IdleLevel → Result ℕ
  get_time s l = get_absolute_time s l >>= λ t. ok (minus_uint t l.last_abs_time)

  pub reset_time : S → IdleLevel → Result IdleLevel
  reset_time s l = get_absolute_time s l >>= λ t. ok (record l { last_abs_time = t })

  pub get_absolute_count : S → IdleLevel → Result ℕ
  get_absolute_count s l = read_uint s l Attribute.usage_file

  pub get_count : S → IdleLevel → Result ℕ
  get_count s l = get_absolute_count s l >>= λ n. ok (minus_uint n l.last_abs_count)

  pub reset_count : S → IdleLevel → Result IdleLevel
  reset_count s l = get_absolute_count s l >>= λ n. ok (record l { last_abs_count = n })

  -- The constructor, whose two values are written by the resets before they are read.
  pub create : S → ℕ → ℕ → Result IdleLevel
  create s virtual_core_id level_id =
      let unset : IdleLevel = record {
        virtual_core_id = virtual_core_id;
        level_id = level_id;
        last_abs_time = 0;
        last_abs_count = 0;
      } in
      reset_time s unset >>= λ l. reset_count s l
