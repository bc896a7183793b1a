-- ===== src/Topology/ProcFiles/Examples.antt =====
-- The two lines of /proc/stat that begin with `cpu1`, and the flags of two processors.
use mammut.Common.{
  ℕ, ◌+◌, ◌≡◌, refl, true, false, some, List, [], ◌∷◌, ok, Text, codes, starts_with, find_text,
}
use mammut.Common.Int.{ℤ, pos}
use mammut.Utils.Strings.{split, split_loop}
use mammut.Topology.ProcFiles.{
  Doubles, occurs, stat_field, get_proc_stat_time, proc_stat_idle, has_flag, flag_loop, stat_loop,
  find_condition,
}

abbrev doubles : Doubles
doubles = record { Double = ℤ; microseconds = λ n. n; minus_one = ℤ.negsuc 0; minus = λ a b. a }

-- Of a number its first digit.
abbrev first_digit : Text → ℤ
first_digit [] = pos 0
first_digit (c ∷ t) = pos c

abbrev digit : ℕ → Text
digit n = (48 + n) ∷ []

abbrev cpu1 : Text
cpu1 = codes "cpu1 0 0 0 7 0"

abbrev cpu10 : Text
cpu10 = codes "cpu10 0 0 0 9 0"

-- Core 1 is told the idle time of core 10.
other_core :
    get_proc_stat_time doubles first_digit digit (cpu1 ∷ cpu10 ∷ []) 1 proc_stat_idle ≡ ok (pos 57)
unfolding get_proc_stat_time stat_loop stat_field split split_loop occurs find_text starts_with
other_core = refl

abbrev cpuinfo : List Text
cpuinfo =
    codes "processor: 0"
    ∷ codes "flags: fpu tsc msr"
    ∷ codes "processor: 1"
    ∷ codes "flags: fpu tsc vmx msr"
    ∷ []

-- The core's own flag is not seen, and neither is the last one of a line.
flags :
    (has_flag digit (some cpuinfo) 1 (codes "vmx") ≡ false)
    × (has_flag digit (some cpuinfo) 0 (codes "tsc") ≡ true)
    × (has_flag digit (some cpuinfo) 0 (codes "msr") ≡ false)
unfolding has_flag flag_loop find_condition occurs find_text starts_with
flags = (refl, refl, refl)
