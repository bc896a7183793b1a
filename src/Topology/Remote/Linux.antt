-- ===== src/Topology/Remote/Linux.antt =====
-- The objects of a server on Linux, as the functions that `processMessage` calls: VirtualCoreLinux
-- and CpuLinux of src/topology/topology-linux.cpp over the files of the machine. Reading the time
-- stamp counter is a parameter.
pub mod Served
mod Examples
use mammut.Common.{
  ℕ, Option, some, none, List, [], ◌∷◌, ◌++◌, map, drop, get_elem?, set, ◌==◌, if◌then◌else◌, Error,
  Result, ok, throw, ◌>>=◌, or_throw, Text, codes, starts_with,
}
use mammut.Common.Int.{ℤ, to_uint}
use mammut.Topology.HotPlug.{
  OnlineFiles, linux_is_hot_pluggable, linux_is_hot_plugged, linux_hot_plug, linux_hot_unplug,
}
use mammut.Topology.IdleLevels.{
  LevelFiles, IdleLevel, create, get_name, get_desc, is_enableable, is_enabled, enable, disable,
  get_exit_latency, get_consumed_power, get_absolute_time, get_time, reset_time, get_absolute_count,
  get_count, reset_count,
}
use mammut.Topology.ProcFiles.{
  Doubles, get_idle_time, reset_idle_time, has_flag, get_vendor_id, get_family, get_model,
}
use mammut.Topology.Units.{Spinners, maximize_utilization, reset_utilization}
use mammut.Topology.Remote.Process.{Host}

-- What is read and written of the machine, and the helpers of the C and C++ libraries; `cpuidle` is
-- the names of the directories of a core's levels, none where core 0 has no such directory.
pub record Platform (F : Type 0) : Type 1 where
  pub online_files : OnlineFiles F
  pub level_files : LevelFiles F
  pub spinners : Spinners F
  pub proc_stat : F → Result (List Text)
  pub cpuinfo : F → Option (List Text)
  pub ticks : F → ℕ → ℕ
  pub cpuidle : F → ℕ → List Text
  pub doubles : Doubles
  pub string_to_int : Text → ℤ
  pub int_to_string : ℕ → Text

-- The files, and what the objects of the virtual cores keep: their idle levels, and the idle time of
-- the last reset.
pub record Objects (F Time : Type 0) : Type 0 where
  pub files : F
  pub idle_levels : ℕ → List IdleLevel
  pub last_proc_idle_time : ℕ → Time

-- `getIdleLevels` and `getLevelId`
unfoldable pub level_ids : List IdleLevel → List ℕ
level_ids [] = []
level_ids (l ∷ ls) = l.level_id ∷ level_ids ls

module _ {F : Type 0} (p : Platform F) where
  -- The loop of the constructor of VirtualCoreLinux over the names of the directory cpuidle.
  pub create_idle_levels : F → ℕ → List Text → Result (List IdleLevel)
  create_idle_levels f core [] = ok []
  create_idle_levels f core (name ∷ names) =
      let others = create_idle_levels f core names in
      let made =
        create p.level_files p.string_to_int f core (to_uint (p.string_to_int (drop 5 name))) in
      if starts_with name (codes "state")
      then (made >>= λ l. others >>= λ ls. ok (l ∷ ls))
      else others

  -- What the constructor of VirtualCoreLinux keeps: the idle levels, and the idle time at its reset.
  pub create_virtual_core : F → ℕ → Result (List IdleLevel × p.doubles.Double)
  create_virtual_core f core = create_idle_levels f core (p.cpuidle f core) >>= λ levels.
      p.proc_stat f >>= λ lines.
      reset_idle_time p.doubles p.string_to_int p.int_to_string lines core >>= λ t. ok (levels, t)

  abbrev pub State : Type 0
  State = Objects F p.doubles.Double

  -- The object of a level is changed.
  put_level : State → ℕ → ℕ → IdleLevel → State
  put_level s core i l = record s {
    idle_levels = λ id. if core == id then set (s.idle_levels core) i l else s.idle_levels id;
  }

  pub put_files : State → F → State
  put_files s f = record s { files = f }

  at_level : {A : Type 0} → State → ℕ → ℕ → (IdleLevel → Result A) → Result A
  at_level s core i op = or_throw Error.out_of_range (get_elem? (s.idle_levels core) i) >>= op

  -- The virtual functions of the classes of Linux.
  pub linux_host : Host State p.doubles.Double
  linux_host = record {
    get_vendor_id = λ s id. get_vendor_id (p.cpuinfo s.files);
    get_family = λ s id. get_family (p.cpuinfo s.files);
    get_model = λ s id. get_model (p.cpuinfo s.files);
    get_absolute_ticks = λ s id. ok (p.ticks s.files id);
    has_flag = λ s id flag_name. ok (has_flag p.int_to_string (p.cpuinfo s.files) id flag_name);
    is_hot_pluggable = λ s id. ok (linux_is_hot_pluggable p.online_files s.files id);
    is_hot_plugged = λ s id. ok (linux_is_hot_plugged p.online_files s.files id);
    hot_plug = λ s id. linux_hot_plug p.online_files s.files id >>= λ f. ok (put_files s f);
    hot_unplug = λ s id. linux_hot_unplug p.online_files s.files id >>= λ f. ok (put_files s f);
    get_idle_time = λ s id. p.proc_stat s.files >>= λ lines.
        get_idle_time p.doubles p.string_to_int p.int_to_string lines id (s.last_proc_idle_time id);
    reset_idle_time = λ s id. p.proc_stat s.files >>= λ lines.
        reset_idle_time p.doubles p.string_to_int p.int_to_string lines id >>= λ t. ok (record s {
          last_proc_idle_time = λ other. if id == other then t else s.last_proc_idle_time other;
        });
    maximize_utilization =
        λ s id. maximize_utilization p.spinners s.files id >>= λ f. ok (put_files s f);
    reset_utilization = λ s id. reset_utilization p.spinners s.files id >>= λ f. ok (put_files s f);
    get_idle_levels = λ s id. level_ids (s.idle_levels id);
    level_get_name =
        λ s id i. at_level s id i (λ l. get_name p.level_files p.string_to_int s.files l);
    level_get_desc =
        λ s id i. at_level s id i (λ l. get_desc p.level_files p.string_to_int s.files l);
    level_is_enableable =
        λ s id i. at_level s id i (λ l. ok (is_enableable p.level_files p.string_to_int s.files l));
    level_is_enabled =
        λ s id i. at_level s id i (λ l. is_enabled p.level_files p.string_to_int s.files l);
    level_enable = λ s id i.
        at_level s id i (λ l. enable p.level_files p.string_to_int s.files l) >>= λ f.
        ok (put_files s f);
    level_disable = λ s id i.
        at_level s id i (λ l. disable p.level_files p.string_to_int s.files l) >>= λ f.
        ok (put_files s f);
    level_get_exit_latency =
        λ s id i. at_level s id i (λ l. get_exit_latency p.level_files p.string_to_int s.files l);
    level_get_consumed_power =
        λ s id i. at_level s id i (λ l. get_consumed_power p.level_files p.string_to_int s.files l);
    level_get_absolute_time =
        λ s id i. at_level s id i (λ l. get_absolute_time p.level_files p.string_to_int s.files l);
    level_get_time =
        λ s id i. at_level s id i (λ l. get_time p.level_files p.string_to_int s.files l);
    level_reset_time = λ s id i.
        at_level s id i (λ l. reset_time p.level_files p.string_to_int s.files l) >>= λ l.
        ok (put_level s id i l);
    level_get_absolute_count =
        λ s id i. at_level s id i (λ l. get_absolute_count p.level_files p.string_to_int s.files l);
    level_get_count =
        λ s id i. at_level s id i (λ l. get_count p.level_files p.string_to_int s.files l);
    level_reset_count = λ s id i.
        at_level s id i (λ l. reset_count p.level_files p.string_to_int s.files l) >>= λ l.
        ok (put_level s id i l);
  }
