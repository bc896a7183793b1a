-- ===== src/Topology/Remote/Process/Refinement.antt =====
-- The remote virtual cores, idle levels, CPUs and units against those of the server.
use mammut.Common.{
  ℕ, ◌≡◌, refl, inl, inr, Option-cases, some, List, get_elem?, Error, Result, Result-cases, ok,
  throw, ◌>>=◌, or_throw,
}
use mammut.Utils.Vectors.{Distinct}
use mammut.Server.{told}
use mammut.Topology.Coordinates.{VirtualCoreCoordinates}
use mammut.Topology.Tree.{Cpu, get_cpu, get_virtual_core}
use mammut.Topology.Messages.{
  Utilization, UnitType, Response, as_bool, as_consumed_power, as_count, as_desc, as_exit_latency,
  as_family, as_idle_time, as_model, as_name, as_time, as_uint64, as_vendor_id, as_void,
}
use mammut.Topology.Remote.{
  IdleLevelRemote, call_set_utilization, remote_get_name, remote_get_desc, remote_is_enableable,
  remote_is_enabled, remote_enable, remote_disable, remote_get_exit_latency,
  remote_get_consumed_power, remote_get_absolute_time, remote_get_time, remote_reset_time,
  remote_get_absolute_count, remote_get_count, remote_reset_count, remote_get_absolute_ticks,
  remote_is_hot_pluggable, remote_is_hot_plugged, remote_hot_plug, remote_hot_unplug,
  remote_get_idle_time, remote_reset_idle_time, remote_get_vendor_id, remote_get_family,
  remote_get_model, remote_has_flag,
}
use mammut.Topology.Remote.Process.{
  Host, unit, utilize, void, read, process_cpu, process_virtual_core, process_level,
  process_level_void, process_message, call,
}
use mammut.Topology.Remote.Process.Levels.{process_idle_level-found}
use mammut.Topology.Remote.Process.Runs.{
  LevelOp, CoreOp, CpuOp, reads, writes, local_level, remote_level, local_core, remote_core,
  local_cpu, remote_cpu,
}

-- What the client decodes is what the local function gives, where it is so for each result.
relay :
    {A B W Time : Type 0} (r : Result A) (k : A → Result (W × Response Time)) (k' : A → Result B)
    (decode : W × Response Time → Result B)
    → ((a : A) → (told (k a) >>= decode) ≡ told (k' a))
    → (told (r >>= k) >>= decode) ≡ told (r >>= k')
unfolding told
relay (ok a) k k' decode h = h a
relay (throw e) k k' decode h = refl

module _ {S Time : Type 0} (host : Host S Time) (cpus : List Cpu) where
  relay_void :
      (r : Result S) → (told (void host cpus r) >>= as_void >>= λ s. ok (s, tt)) ≡ told (writes r)
  unfolding told as_void writes void
  relay_void (ok s) = refl
  relay_void (throw e) = refl

  -- Every function of a remote idle level does to the server's objects and answers what the function
  -- of the level with the identifier does, where the server's core is there and has one such level;
  -- an exception arrives as the server answers it.
  pub remote_level-local_level :
      (op : LevelOp) (s : S) (l : IdleLevelRemote) (vcc : VirtualCoreCoordinates) (i : ℕ)
      → get_virtual_core cpus l.virtual_core_id ≡ some vcc
      → Distinct (host.get_idle_levels s l.virtual_core_id)
      → get_elem? (host.get_idle_levels s l.virtual_core_id) i ≡ some l.level_id
      → remote_level host cpus op s l ≡ told (local_level host cpus op s l.virtual_core_id i)
  unfolding remote_level local_level call process_message process_level process_level_void
      process_virtual_core reads writes read void told remote_get_name remote_get_desc
      remote_is_enableable remote_is_enabled remote_enable remote_disable remote_get_exit_latency
      remote_get_consumed_power remote_get_absolute_time remote_get_time remote_reset_time
      remote_get_absolute_count remote_get_count remote_reset_count as_bool as_consumed_power
      as_count as_desc as_exit_latency as_name as_time as_void
  remote_level-local_level LevelOp.get_name s l vcc i e d h =
      rw (e, process_idle_level-found _ l.level_id _ i s _ d h)
        (relay (host.level_get_name s l.virtual_core_id i) _ _ as_name (λ a. refl))
  remote_level-local_level LevelOp.get_desc s l vcc i e d h =
      rw (e, process_idle_level-found _ l.level_id _ i s _ d h)
        (relay (host.level_get_desc s l.virtual_core_id i) _ _ as_desc (λ a. refl))
  remote_level-local_level LevelOp.is_enableable s l vcc i e d h =
      rw (e, process_idle_level-found _ l.level_id _ i s _ d h)
        (relay (host.level_is_enableable s l.virtual_core_id i) _ _ as_bool (λ a. refl))
  remote_level-local_level LevelOp.is_enabled s l vcc i e d h =
      rw (e, process_idle_level-found _ l.level_id _ i s _ d h)
        (relay (host.level_is_enabled s l.virtual_core_id i) _ _ as_bool (λ a. refl))
  remote_level-local_level LevelOp.enable s l vcc i e d h =
      rw (e, process_idle_level-found _ l.level_id _ i s _ d h)
        (relay_void (host.level_enable s l.virtual_core_id i))
  remote_level-local_level LevelOp.disable s l vcc i e d h =
      rw (e, process_idle_level-found _ l.level_id _ i s _ d h)
        (relay_void (host.level_disable s l.virtual_core_id i))
  remote_level-local_level LevelOp.get_exit_latency s l vcc i e d h =
      rw (e, process_idle_level-found _ l.level_id _ i s _ d h)
        (relay (host.level_get_exit_latency s l.virtual_core_id i) _ _ as_exit_latency (λ a. refl))
  remote_level-local_level LevelOp.get_consumed_power s l vcc i e d h =
      rw (e, process_idle_level-found _ l.level_id _ i s _ d h)
        (relay (host.level_get_consumed_power s l.virtual_core_id i) _ _ as_consumed_power
          (λ a. refl))
  remote_level-local_level LevelOp.get_absolute_time s l vcc i e d h =
      rw (e, process_idle_level-found _ l.level_id _ i s _ d h)
        (relay (host.level_get_absolute_time s l.virtual_core_id i) _ _ as_time (λ a. refl))
  remote_level-local_level LevelOp.get_time s l vcc i e d h =
      rw (e, process_idle_level-found _ l.level_id _ i s _ d h)
        (relay (host.level_get_time s l.virtual_core_id i) _ _ as_time (λ a. refl))
  remote_level-local_level LevelOp.reset_time s l vcc i e d h =
      rw (e, process_idle_level-found _ l.level_id _ i s _ d h)
        (relay_void (host.level_reset_time s l.virtual_core_id i))
  remote_level-local_level LevelOp.get_absolute_count s l vcc i e d h =
      rw (e, process_idle_level-found _ l.level_id _ i s _ d h)
        (relay (host.level_get_absolute_count s l.virtual_core_id i) _ _ as_count (λ a. refl))
  remote_level-local_level LevelOp.get_count s l vcc i e d h =
      rw (e, process_idle_level-found _ l.level_id _ i s _ d h)
        (relay (host.level_get_count s l.virtual_core_id i) _ _ as_count (λ a. refl))
  remote_level-local_level LevelOp.reset_count s l vcc i e d h =
      rw (e, process_idle_level-found _ l.level_id _ i s _ d h)
        (relay_void (host.level_reset_count s l.virtual_core_id i))

  -- hasFlag, getAbsoluteTicks, isHotPluggable, isHotPlugged, hotPlug, hotUnplug, getIdleTime and
  -- resetIdleTime of a remote virtual core whose identifier the server has do what those of the
  -- server's core do.
  pub remote_core-local_core :
      (op : CoreOp) (s : S) (id : ℕ) (vcc : VirtualCoreCoordinates)
      → get_virtual_core cpus id ≡ some vcc
      → remote_core host cpus op s id ≡ told (local_core host cpus op s id)
  unfolding remote_core local_core call process_message process_virtual_core reads writes read void
      told remote_has_flag remote_get_absolute_ticks remote_is_hot_pluggable remote_is_hot_plugged
      remote_hot_plug remote_hot_unplug remote_get_idle_time remote_reset_idle_time as_bool
      as_idle_time as_uint64 as_void
  remote_core-local_core (CoreOp.has_flag flag_name) s id vcc e =
      rw e (relay (host.has_flag s id flag_name) _ _ as_bool (λ a. refl))
  remote_core-local_core CoreOp.get_absolute_ticks s id vcc e =
      rw e (relay (host.get_absolute_ticks s id) _ _ as_uint64 (λ a. refl))
  remote_core-local_core CoreOp.is_hot_pluggable s id vcc e =
      rw e (relay (host.is_hot_pluggable s id) _ _ as_bool (λ a. refl))
  remote_core-local_core CoreOp.is_hot_plugged s id vcc e =
      rw e (relay (host.is_hot_plugged s id) _ _ as_bool (λ a. refl))
  remote_core-local_core CoreOp.hot_plug s id vcc e = rw e (relay_void (host.hot_plug s id))
  remote_core-local_core CoreOp.hot_unplug s id vcc e = rw e (relay_void (host.hot_unplug s id))
  remote_core-local_core CoreOp.get_idle_time s id vcc e =
      rw e (relay (host.get_idle_time s id) _ _ as_idle_time (λ a. refl))
  remote_core-local_core CoreOp.reset_idle_time s id vcc e =
      rw e (relay_void (host.reset_idle_time s id))

  -- Every function of a remote CPU gives what that of the server's CPU gives.
  pub remote_cpu-local_cpu :
      (op : CpuOp) (s : S) (id : ℕ) (c : Cpu)
      → get_cpu cpus id ≡ some c
      → remote_cpu host cpus op s id ≡ told (local_cpu host cpus op s id)
  unfolding remote_cpu local_cpu call process_message process_cpu reads read told
      remote_get_vendor_id remote_get_family remote_get_model as_family as_model as_vendor_id
  remote_cpu-local_cpu CpuOp.get_vendor_id s id c e =
      rw e (relay (host.get_vendor_id s id) _ _ as_vendor_id (λ a. refl))
  remote_cpu-local_cpu CpuOp.get_family s id c e =
      rw e (relay (host.get_family s id) _ _ as_family (λ a. refl))
  remote_cpu-local_cpu CpuOp.get_model s id c e =
      rw e (relay (host.get_model s id) _ _ as_model (λ a. refl))

  -- Setting the utilization of a unit remotely does so on all the virtual cores of that unit of the
  -- server; it is an answered exception where the server has no such unit.
  pub call_set_utilization-utilize :
      (type : Utilization) (s : S) (unit_type : UnitType) (id : ℕ)
      → call_set_utilization (call host cpus) s type unit_type id
        ≡ told (
            or_throw Error.no_unit (unit cpus unit_type id) >>= λ vccs.
            utilize host cpus type s vccs)
  unfolding call_set_utilization call process_message void told as_void
  call_set_utilization-utilize type s unit_type id = elim (Option-cases (unit cpus unit_type id)) [
    | inl e ↦ rw e refl
    | inr (vccs, e) ↦ elim (Result-cases (utilize host cpus type s vccs)) [
      | inl (x, q) ↦ rw (e, q) refl
      | inr (s', q) ↦ rw (e, q) refl
    ]
  ]
