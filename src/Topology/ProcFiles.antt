-- ===== src/Topology/ProcFiles.antt =====
-- What src/topology/topology-linux.cpp reads in /proc: the idle time of a virtual core
-- (`getProcStatTime`, `getIdleTime`, `resetIdleTime`), its flags and the data of a CPU. A file is
-- the list of its lines; `intToString`, the `atoi` of `stringToInt` and the arithmetic of doubles
-- are parameters.
pub mod Laws
mod Examples
use mammut.Common.{
  ℕ, Bool, true, false, not, ◌&&◌, ◌||◌, Option, some, none, List, [], ◌∷◌, ◌++◌, get_elem?, ◌==◌,
  if◌then◌else◌, Error, Result, ok, throw, ◌>>=◌, Text, codes, starts_with, find_text, or_throw,
}
use mammut.Common.Int.{ℤ}
use mammut.Utils.Strings.{split, ltrim}

-- `find(t) != npos`
unfoldable pub occurs : Text → Text → Bool
occurs line t = elim (find_text line t) [ none ↦ false | some i ↦ true ]

-- `find(t)` as a condition: npos is no zero.
find_condition : Text → Text → Bool
find_condition line t = elim (find_text line t) [ none ↦ true | some i ↦ not (i == 0) ]

-- The field of a line of /proc/stat; the index is not checked.
pub stat_field : (Text → ℤ) → ℕ → Text → Result ℤ
stat_field string_to_int type line =
    or_throw Error.uninitialised (get_elem? (split line 32) type) >>= λ t. ok (string_to_int t)

-- The loop of `getProcStatTime`: `found` and `field`.
stat_loop : (Text → ℤ) → ℕ → Text → List Text → Option ℤ → Result (Option ℤ)
stat_loop string_to_int type name [] field = ok field
stat_loop string_to_int type name (line ∷ lines) field =
    let next = stat_field string_to_int type line >>= λ n.
    stat_loop string_to_int type name lines (some n) in
    let same = stat_loop string_to_int type name lines field in
    if occurs line name then next else same

-- `PROC_STAT_IDLE`
abbrev pub proc_stat_idle : ℕ
proc_stat_idle = 4

-- Doubles: the microseconds of a field, -1, and a difference.
pub record Doubles : Type 1 where
  pub Double : Type 0
  pub microseconds : ℤ → Double
  pub minus_one : Double
  pub minus : Double → Double → Double

module _ (doubles : Doubles) (string_to_int : Text → ℤ) (int_to_string : ℕ → Text) where
  -- `getProcStatTime` on the lines of /proc/stat.
  pub get_proc_stat_time : List Text → ℕ → ℕ → Result doubles.Double
  get_proc_stat_time lines core type =
      stat_loop string_to_int type (codes "cpu" ++ int_to_string core) lines none >>= λ field.
      ok (elim field [ none ↦ doubles.minus_one | some n ↦ doubles.microseconds n ])

  -- `getAbsoluteIdleTime`
  pub get_absolute_idle_time : List Text → ℕ → Result doubles.Double
  get_absolute_idle_time lines core = get_proc_stat_time lines core proc_stat_idle

  -- `getIdleTime`, on the value of the last reset.
  pub get_idle_time : List Text → ℕ → doubles.Double → Result doubles.Double
  get_idle_time lines core last =
      get_absolute_idle_time lines core >>= λ t. ok (doubles.minus t last)

  -- `resetIdleTime`: the value that it keeps.
  pub reset_idle_time : List Text → ℕ → Result doubles.Double
  reset_idle_time lines core = get_absolute_idle_time lines core

-- The loop of `hasFlag`. The lines are those that `getline` gives, without their ends.
flag_loop : Text → Text → List Text → Bool → Bool
flag_loop id flag_name [] proc_found = false
flag_loop id flag_name (line ∷ lines) false =
    let found = starts_with line (codes "processor") && find_condition line (32 ∷ id) in
    flag_loop id flag_name lines found
flag_loop id flag_name (line ∷ lines) true =
    let more = flag_loop id flag_name lines true in
    let has =
      starts_with line (codes "flags")
      && (occurs line (32 ∷ flag_name ++ 32 ∷ []) || occurs line (32 ∷ flag_name ++ 10 ∷ [])) in
    if has then true else if starts_with line (codes "processor") then false else more

-- `VirtualCoreLinux::hasFlag` on /proc/cpuinfo, none where the file is not there.
pub has_flag : (ℕ → Text) → Option (List Text) → ℕ → Text → Bool
has_flag int_to_string none core flag_name = false
has_flag int_to_string (some lines) core flag_name =
    flag_loop (int_to_string core) flag_name lines false

-- The loop of `getCpuInfo`; the text after the colon is looked up with `at`.
info_loop : Text → List Text → Result Text
info_loop info_name [] = ok []
info_loop info_name (line ∷ lines) =
    let here = or_throw Error.out_of_range (get_elem? (split line 58) 1) >>= λ t. ok (ltrim t) in
    let later = info_loop info_name lines in if starts_with line info_name then here else later

-- `CpuLinux::getCpuInfo`
get_cpu_info : Option (List Text) → Text → Result Text
get_cpu_info none info_name = throw Error.open_failed
get_cpu_info (some lines) info_name = info_loop info_name lines

pub get_vendor_id : Option (List Text) → Result Text
get_vendor_id file = get_cpu_info file (codes "vendor_id")

pub get_family : Option (List Text) → Result Text
get_family file = get_cpu_info file (codes "cpu family")

pub get_model : Option (List Text) → Result Text
get_model file = get_cpu_info file (codes "model")
