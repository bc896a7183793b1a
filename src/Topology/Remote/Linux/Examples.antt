-- ===== src/Topology/Remote/Linux/Examples.antt =====
-- A server of one core with two idle levels, whose time is the state.
use mammut.Common.{
  ℕ, ◌+◌, ◌-◌, ◌%◌, ◌^◌, ◌≡◌, refl, arith, false, some, none, List, [], ◌∷◌, or_throw, Error, ok,
  throw, ◌>>=◌, Text, codes,
}
use mammut.Common.Int.{ℤ, pos, negsuc}
use mammut.Utils.Vectors.{Distinct, contains}
use mammut.Server.{told}
use mammut.Topology.Tree.{Cpu, get_virtual_core, find_virtual_in_cpu, find_virtual, or_else}
use mammut.Topology.IdleLevels.{IdleLevel}
use mammut.Topology.Messages.{Utilization, UnitType}
use mammut.Topology.Remote.{IdleLevelRemote, call_set_utilization}
use mammut.Topology.Remote.Process.{unit, utilize, call}
use mammut.Topology.Remote.Process.Runs.{
  LevelOp, CoreOp, local_level, remote_level, local_core, remote_core,
}
use mammut.Topology.Remote.Process.Refinement.{
  remote_level-local_level, remote_core-local_core, call_set_utilization-utilize,
}
use mammut.Topology.Remote.Process.Unknown.{unseen, remote_level-unseen}
use mammut.Topology.Remote.Linux.{Platform, State, level_ids, put_files, linux_host}
use mammut.Topology.Remote.Linux.Served.{remote_get_time-remote_reset_time}

abbrev as_number : Text → ℤ
as_number [] = pos 0
as_number (n ∷ t) = pos n

abbrev one_core : Platform ℕ
one_core = record {
  online_files = record { online = λ f v. some 1; write_online = λ f v n. ok f };
  level_files = record {
    first_line = λ f core level a. some (f ∷ []);
    write_file = λ f core level a t. throw Error.open_failed;
  };
  spinners = record {
    running = λ f v. false;
    set_stop = λ f v b. f;
    start = λ f v. ok f;
    join = λ f v. ok f;
    pin = λ f v. ok f;
  };
  proc_stat = λ f. ok [];
  cpuinfo = λ f. none;
  ticks = λ f v. f;
  cpuidle = λ f v. codes "state1" ∷ codes "state2" ∷ [];
  doubles = record { Double = ℤ; microseconds = λ n. n; minus_one = negsuc 0; minus = λ a b. a };
  string_to_int = as_number;
  int_to_string = λ n. (48 + n) ∷ [];
}

abbrev tree : List Cpu
tree =
    record {
      cpu_id = 0;
      physical_cores =
          record {
            cpu_id = 0;
            physical_core_id = 0;
            virtual_cores = record { cpu_id = 0; physical_core_id = 0; virtual_core_id = 0 } ∷ [];
          }
          ∷ [];
    }
    ∷ []

abbrev level : ℕ → IdleLevel
level id = record { virtual_core_id = 0; level_id = id; last_abs_time = 0; last_abs_count = 0 }

abbrev objects : State one_core
objects = record {
  files = 4294967290;
  idle_levels = λ core. level 1 ∷ level 2 ∷ [];
  last_proc_idle_time = λ core. pos 0;
}

abbrev stub : ℕ → IdleLevelRemote
stub id = record { virtual_core_id = 0; level_id = id }

remote_get_time-remote_reset_time_example :
    (s' : State one_core) × (remote_level
        (linux_host one_core)
        tree
        LevelOp.reset_time
        objects
        (stub 2)
      ≡ ok (s', tt))
    × (remote_level
          (linux_host one_core)
          tree
          LevelOp.get_time
          (put_files one_core s' 4294967300)
          (stub 2)
        ≡ ok (put_files one_core s' 4294967300, (4294967300 - 4294967290) % 2 ^ 32))
unfolding get_virtual_core find_virtual_in_cpu find_virtual or_else level_ids Distinct contains
remote_get_time-remote_reset_time_example =
    remote_get_time-remote_reset_time one_core tree objects (stub 2)
      (record { cpu_id = 0; physical_core_id = 0; virtual_core_id = 0 }) 1 (level 2) 4294967300
      4294967290 4294967300 refl (refl, (refl, tt)) refl refl (4294967290 ∷ [], refl, refl)
      (4294967300 ∷ [], refl, refl) (omega arith)

remote_level-local_level_example :
    remote_level (linux_host one_core) tree LevelOp.disable objects (stub 1)
    ≡ told (local_level (linux_host one_core) tree LevelOp.disable objects 0 0)
unfolding get_virtual_core find_virtual_in_cpu find_virtual or_else level_ids Distinct contains
    linux_host
remote_level-local_level_example =
    remote_level-local_level (linux_host one_core) tree LevelOp.disable objects (stub 1)
      (record { cpu_id = 0; physical_core_id = 0; virtual_core_id = 0 }) 0 refl (refl, (refl, tt))
      refl

remote_core-local_core_example :
    remote_core (linux_host one_core) tree CoreOp.get_idle_time objects 0
    ≡ told (local_core (linux_host one_core) tree CoreOp.get_idle_time objects 0)
unfolding get_virtual_core find_virtual_in_cpu find_virtual or_else
remote_core-local_core_example =
    remote_core-local_core (linux_host one_core) tree CoreOp.get_idle_time objects 0
      (record { cpu_id = 0; physical_core_id = 0; virtual_core_id = 0 }) refl

remote_level-unseen_example :
    remote_level (linux_host one_core) tree LevelOp.get_name objects (stub 3)
    ≡ unseen LevelOp.get_name objects
unfolding get_virtual_core find_virtual_in_cpu find_virtual or_else level_ids contains linux_host
remote_level-unseen_example =
    remote_level-unseen (linux_host one_core) tree LevelOp.get_name objects (stub 3)
      (record { cpu_id = 0; physical_core_id = 0; virtual_core_id = 0 }) 1 (2 ∷ []) refl refl refl

call_set_utilization-utilize_run :
    call_set_utilization
      (call (linux_host one_core) tree)
      objects
      Utilization.maximize
      UnitType.physical_core
      0
    ≡ told (
        or_throw Error.no_unit (unit tree UnitType.physical_core 0) >>= λ vccs.
        utilize (linux_host one_core) tree Utilization.maximize objects vccs)
call_set_utilization-utilize_run =
    call_set_utilization-utilize (linux_host one_core) tree Utilization.maximize objects
      UnitType.physical_core 0
