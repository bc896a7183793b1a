-- ===== src/Task/ExecutionUnits.antt =====
-- Processes and threads: ExecutionUnitLinux, ThreadHandlerLinux and ProcessHandlerLinux of
-- src/task/task-linux.cpp, and the identifiers that ProcessesManagerLinux lists. The kernel is the
-- parameter `system`; the `atoi` of `stringToInt` is one on the numbers that identify tasks and
-- another on all texts; the expression of type double in `getCoreUsage` is a parameter.
pub mod Priorities
pub mod Affinities
mod Examples
use mammut.Common.{
  ℕ, zero, suc, ◌+◌, ◌≡◌, Bool, true, false, not, ◌&&◌, ◌||◌, Option, some, none, List, [], ◌∷◌,
  ◌++◌, get_elem?, leb, ltb, ◌==◌, if◌then◌else◌, Error, Result, ok, throw, ◌>>=◌, or_throw, Text,
}
use mammut.Common.Int.{ℤ, pos, negsuc, pos_part, sub_ℕ, sub_ℤ, ◌+ℤ◌, to_uint}
use mammut.Utils.Strings.{split, is_number}
use mammut.Utils.Vectors.{contains}
use mammut.Server.{is_runtime_error}
use mammut.Topology.Coordinates.{VirtualCoreCoordinates}
use mammut.Topology.Tree.{PhysicalCore, Cpu, virtual_cores}

-- `getPath`, as the directory that it names.
pub data TaskPath : Type 0 where
  of_process : ℕ → TaskPath
  of_thread : ℕ → ℕ → TaskPath

pub record ExecutionUnit : Type 0 where
  pub id : ℕ
  pub path : TaskPath
  pub last_up_time : ℤ
  pub last_cpu_time : ℤ

-- A `cpu_set_t`.
abbrev pub CpuSet : Type 0
CpuSet = ℕ → Bool

-- The usage for the seconds and the ticks that have passed.
usage : {Double : Type 0} → (ℤ → ℕ → Double) → Double → ℤ → ℤ → Double
usage quotient zero_usage (pos up) cpu = if up == 0 then zero_usage else quotient cpu up
usage quotient zero_usage (negsuc up) cpu = zero_usage

-- The kernel: whether the directory is there, the first lines of its file stat and of /proc/uptime,
-- the names of the directories in /proc and in a directory task, the system calls, and the command
-- `renice` with its exit status.
pub record System (S : Type 0) : Type 0 where
  pub exists_dir : S → TaskPath → Bool
  pub stat : S → TaskPath → Option Text
  pub uptime : S → Option Text
  pub processes : S → Option (List Text)
  pub tasks : S → TaskPath → Option (List Text)
  pub renice : S → ℤ → List ℕ → Result (S × ℕ)
  pub get_affinity : S → ℕ → Option CpuSet
  pub set_affinity : S → ℕ → CpuSet → S × Bool
  pub online_processors : S → ℕ
  pub kill : S → ℕ → ℤ → S × Bool

-- The fields of stat that are read: `PROC_STAT_UTIME`, `PROC_STAT_STIME`, `PROC_STAT_NICE` and
-- `PROC_STAT_PROCESSOR`.
abbrev pub proc_stat_utime : ℕ
proc_stat_utime = 13

abbrev pub proc_stat_stime : ℕ
proc_stat_stime = 14

abbrev pub proc_stat_nice : ℕ
proc_stat_nice = 18

abbrev pub proc_stat_processor : ℕ
proc_stat_processor = 38

-- `MAMMUT_PROCESS_PRIORITY_MAX`
abbrev pub priority_max : ℕ
priority_max = 40

-- `CPU_SETSIZE`; `CPU_SET` leaves a larger number out.
abbrev pub cpu_setsize : ℕ
cpu_setsize = 1024

-- The loop of `CPU_SET` over some cores, from `CPU_ZERO`.
pub cpu_set : List ℕ → CpuSet
cpu_set ids core = contains ids core && ltb core cpu_setsize

-- The loop of `getVirtualCoreIds` from the core `i` on, for `n` rounds.
pub set_cores : CpuSet → ℕ → ℕ → List ℕ
set_cores set i zero = []
set_cores set i (suc n) = let rest = set_cores set (i + 1) n in if set i then i ∷ rest else rest

-- The loop of `getExecutionUnitsIdentifiers`.
pub identifiers : (Text → ℕ) → List Text → List ℕ
identifiers string_to_id [] = []
identifiers string_to_id (name ∷ names) =
    let rest = identifiers string_to_id names in
    if is_number name then string_to_id name ∷ rest else rest

module _ {S : Type 0} (system : System S) (string_to_int : Text → ℤ) (string_to_id : Text → ℕ) where
  pub is_active : S → ExecutionUnit → Bool
  is_active s u = system.exists_dir s u.path

  -- `EXECUTE_AND_CHECK_ACTIVE`: none where the function returns false.
  execute_and_check_active : {A : Type 0} → S → ExecutionUnit → Result A → Result (Option A)
  execute_and_check_active s u (ok a) = ok (some a)
  execute_and_check_active s u (throw e) =
      if is_runtime_error e && not (is_active s u) then ok none else throw e

  -- The same where the object has been changed.
  after_throw : S → ExecutionUnit → Error → ExecutionUnit → Result (ExecutionUnit × Bool)
  after_throw s u e changed =
      if is_runtime_error e && not (is_active s u) then ok (changed, false) else throw e

  pub get_stat_fields : S → ExecutionUnit → Result (List Text)
  get_stat_fields s u =
      or_throw Error.open_failed (system.stat s u.path) >>= λ line. ok (split line 32)

  -- `stringToInt(getStatFields().at(field))`
  pub stat_value : S → ExecutionUnit → ℕ → Result ℤ
  stat_value s u field = get_stat_fields s u >>= λ fields.
      or_throw Error.out_of_range (get_elem? fields field) >>= λ t. ok (string_to_int t)

  pub get_up_time : S → Result ℤ
  get_up_time s = or_throw Error.open_failed (system.uptime s) >>= λ line.
      or_throw Error.out_of_range (get_elem? (split line 32) 0) >>= λ t. ok (string_to_int t)

  pub get_cpu_time : S → ExecutionUnit → Result ℤ
  get_cpu_time s u = stat_value s u proc_stat_utime >>= λ utime.
      stat_value s u proc_stat_stime >>= λ stime. ok (utime +ℤ stime)

  times : S → ExecutionUnit → Result (ℤ × ℤ)
  times s u = get_up_time s >>= λ up. get_cpu_time s u >>= λ cpu. ok (up, cpu)

  -- `getCoreUsage`, for the expression that it computes of the two differences.
  pub get_core_usage :
      {Double : Type 0} → (ℤ → ℕ → Double) → Double → S → ExecutionUnit → Result (Option Double)
  get_core_usage quotient zero_usage s u = execute_and_check_active s u (times s u) >>= λ got.
      ok (elim got [
        | none ↦ none
        | some t ↦
            some (usage quotient zero_usage (sub_ℤ t.0 u.last_up_time) (sub_ℤ t.1 u.last_cpu_time))
      ])

  -- `resetCoreUsage`: the object keeps the first value where reading the second one throws.
  pub reset_core_usage : S → ExecutionUnit → Result (ExecutionUnit × Bool)
  reset_core_usage s u = elim (get_up_time s) [
    | throw e ↦ after_throw s u e u
    | ok up ↦ elim (get_cpu_time s u) [
      | throw e ↦ after_throw s u e (record u { last_up_time = up })
      | ok cpu ↦ ok (record u { last_up_time = up; last_cpu_time = cpu }, true)
    ]
  ]

  pub get_priority : S → ExecutionUnit → Result (Option ℕ)
  get_priority s u =
      execute_and_check_active s u
        (stat_value s u proc_stat_nice >>= λ nice. ok (to_uint (sub_ℤ (pos 20) nice)))

  pub get_virtual_core_id : S → ExecutionUnit → Result (Option ℕ)
  get_virtual_core_id s u =
      execute_and_check_active s u
        (stat_value s u proc_stat_processor >>= λ core. ok (to_uint core))

  -- `getVirtualCoreIds`
  pub get_virtual_core_ids : S → ExecutionUnit → Option (List ℕ)
  get_virtual_core_ids s u = elim (system.get_affinity s u.id) [
    | none ↦ none
    | some set ↦ some (set_cores set 0 (system.online_processors s))
  ]

  -- `getExecutionUnitsIdentifiers` on what `getFilesNamesInDir` gives.
  units_in : Option (List Text) → Result (List ℕ)
  units_in dir = or_throw Error.open_failed dir >>= λ names. ok (identifiers string_to_id names)

  pub get_active_processes_identifiers : S → Result (List ℕ)
  get_active_processes_identifiers s = units_in (system.processes s)

  -- `ProcessHandlerLinux::getActiveThreadsIdentifiers`
  pub get_active_threads_identifiers : S → ExecutionUnit → Result (List ℕ)
  get_active_threads_identifiers s u = elim (units_in (system.tasks s u.path)) [
    | ok tids ↦ ok tids
    | throw e ↦ if is_active s u then throw e else ok []
  ]

  -- `getSetPriorityIdentifiers` of a thread and of a process.
  pub get_set_priority_identifiers : S → ExecutionUnit → TaskPath → Result (List ℕ)
  get_set_priority_identifiers s u (TaskPath.of_thread pid tid) = ok (tid ∷ [])
  get_set_priority_identifiers s u (TaskPath.of_process pid) = get_active_threads_identifiers s u

  pub set_priority : S → ExecutionUnit → ℕ → Result (S × Bool)
  set_priority s u priority =
      let command = get_set_priority_identifiers s u u.path >>= λ ids.
      system.renice s (sub_ℕ 20 priority) ids >>= λ done. ok (done.0, done.1 == 0) in
      if ltb priority_max priority then ok (s, false) else command

  -- The loop of `sched_setaffinity` over the threads, whose results are dropped.
  set_affinities : S → CpuSet → List ℕ → S
  set_affinities s set [] = s
  set_affinities s set (tid ∷ tids) = set_affinities ((system.set_affinity s tid set).0) set tids

  move_threads : S × Bool → ExecutionUnit → CpuSet → TaskPath → Result (S × Bool)
  move_threads (s, false) u set path = ok (s, false)
  move_threads (s, true) u set (TaskPath.of_thread pid tid) = ok (s, true)
  move_threads (s, true) u set (TaskPath.of_process pid) =
      get_active_threads_identifiers s u >>= λ tids. ok (set_affinities s set tids, true)

  -- `move` of a thread and of a process to some virtual cores.
  pub move : S → ExecutionUnit → List ℕ → Result (S × Bool)
  move s u ids = move_threads (system.set_affinity s u.id (cpu_set ids)) u (cpu_set ids) u.path

  -- `move` to a CPU and to a physical core.
  pub move_cpu : S → ExecutionUnit → Cpu → Result (S × Bool)
  move_cpu s u cpu = move s u (core_ids (virtual_cores cpu.physical_cores))
    where
      core_ids : List VirtualCoreCoordinates → List ℕ
      core_ids [] = []
      core_ids (vcc ∷ vccs) = vcc.virtual_core_id ∷ core_ids vccs

  -- `sendSignal`
  pub send_signal : S → ExecutionUnit → ℤ → Result (S × Bool)
  send_signal s u signal = outcome (system.kill s u.id signal)
    where
      outcome : S × Bool → Result (S × Bool)
      outcome (s', true) = ok (s', true)
      outcome (s', false) = if is_active s' u then throw Error.write_failed else ok (s', false)
