-- ===== src/Topology/Remote.antt =====
-- The classes TopologyRemote, CpuRemote, PhysicalCoreRemote, VirtualCoreRemote and
-- VirtualCoreIdleLevelRemote of src/topology/topology-remote.cpp.
-- `Communicator::remoteCall` on a world `W` is the parameter `call`.
pub mod Process
pub mod Linux
use mammut.Common.{ℕ, Bool, List, [], ◌∷◌, Error, Result, ok, throw, ◌>>=◌, Text}
use mammut.Topology.Coordinates.{VirtualCoreCoordinates}
use mammut.Topology.Tree.{Cpu, build_cpu_vector, all_virtual_cores}
use mammut.Topology.Messages.{
  Utilization, UnitType, Request, Response, as_bool, as_consumed_power, as_coordinates, as_count,
  as_desc, as_exit_latency, as_family, as_idle_time, as_level_ids, as_model, as_name, as_time,
  as_uint64, as_vendor_id, as_void,
}

-- The objects of the client, by what they keep.
pub record VirtualCoreRemote : Type 0 where
  pub virtual_core_id : ℕ
  pub idle_levels : List ℕ

pub record IdleLevelRemote : Type 0 where
  pub virtual_core_id : ℕ
  pub level_id : ℕ

module _ {W Time : Type 0} (call : W → Request → Result (W × Response Time)) where
  -- `setUtilization`
  pub call_set_utilization : W → Utilization → UnitType → ℕ → Result W
  call_set_utilization w type unit_type id =
      call w (Request.set_utilization type unit_type id) >>= as_void

  pub topology_maximize_utilization : W → Result W
  topology_maximize_utilization w = call_set_utilization w Utilization.maximize UnitType.topology 0

  pub topology_reset_utilization : W → Result W
  topology_reset_utilization w = call_set_utilization w Utilization.reset UnitType.topology 0

  pub cpu_maximize_utilization : W → ℕ → Result W
  cpu_maximize_utilization w cpu_id =
      call_set_utilization w Utilization.maximize UnitType.cpu cpu_id

  pub cpu_reset_utilization : W → ℕ → Result W
  cpu_reset_utilization w cpu_id = call_set_utilization w Utilization.reset UnitType.cpu cpu_id

  pub physical_core_maximize_utilization : W → ℕ → Result W
  physical_core_maximize_utilization w id =
      call_set_utilization w Utilization.maximize UnitType.physical_core id

  pub physical_core_reset_utilization : W → ℕ → Result W
  physical_core_reset_utilization w id =
      call_set_utilization w Utilization.reset UnitType.physical_core id

  pub virtual_core_maximize_utilization : W → ℕ → Result W
  virtual_core_maximize_utilization w id =
      call_set_utilization w Utilization.maximize UnitType.virtual_core id

  pub virtual_core_reset_utilization : W → ℕ → Result W
  virtual_core_reset_utilization w id =
      call_set_utilization w Utilization.reset UnitType.virtual_core id

  -- CpuRemote: the CPU is its identifier.
  pub remote_get_vendor_id : W → ℕ → Result (W × Text)
  remote_get_vendor_id w cpu_id = call w (Request.get_cpu_vendor_id cpu_id) >>= as_vendor_id

  pub remote_get_family : W → ℕ → Result (W × Text)
  remote_get_family w cpu_id = call w (Request.get_cpu_family cpu_id) >>= as_family

  pub remote_get_model : W → ℕ → Result (W × Text)
  remote_get_model w cpu_id = call w (Request.get_cpu_model cpu_id) >>= as_model

  -- VirtualCoreIdleLevelRemote.
  pub remote_get_name : W → IdleLevelRemote → Result (W × Text)
  remote_get_name w l =
      call w (Request.idle_level_get_name l.virtual_core_id l.level_id) >>= as_name

  pub remote_get_desc : W → IdleLevelRemote → Result (W × Text)
  remote_get_desc w l =
      call w (Request.idle_level_get_desc l.virtual_core_id l.level_id) >>= as_desc

  pub remote_is_enableable : W → IdleLevelRemote → Result (W × Bool)
  remote_is_enableable w l =
      call w (Request.idle_level_is_enableable l.virtual_core_id l.level_id) >>= as_bool

  pub remote_is_enabled : W → IdleLevelRemote → Result (W × Bool)
  remote_is_enabled w l =
      call w (Request.idle_level_is_enabled l.virtual_core_id l.level_id) >>= as_bool

  pub remote_enable : W → IdleLevelRemote → Result W
  remote_enable w l = call w (Request.idle_level_enable l.virtual_core_id l.level_id) >>= as_void

  pub remote_disable : W → IdleLevelRemote → Result W
  remote_disable w l = call w (Request.idle_level_disable l.virtual_core_id l.level_id) >>= as_void

  pub remote_get_exit_latency : W → IdleLevelRemote → Result (W × ℕ)
  remote_get_exit_latency w l =
      call w (Request.idle_level_get_exit_latency l.virtual_core_id l.level_id) >>= as_exit_latency

  pub remote_get_consumed_power : W → IdleLevelRemote → Result (W × ℕ)
  remote_get_consumed_power w l =
      call w (Request.idle_level_get_consumed_power l.virtual_core_id l.level_id)
      >>= as_consumed_power

  pub remote_get_absolute_time : W → IdleLevelRemote → Result (W × ℕ)
  remote_get_absolute_time w l =
      call w (Request.idle_level_get_abs_time l.virtual_core_id l.level_id) >>= as_time

  pub remote_get_time : W → IdleLevelRemote → Result (W × ℕ)
  remote_get_time w l =
      call w (Request.idle_level_get_time l.virtual_core_id l.level_id) >>= as_time

  pub remote_reset_time : W → IdleLevelRemote → Result W
  remote_reset_time w l =
      call w (Request.idle_level_reset_time l.virtual_core_id l.level_id) >>= as_void

  pub remote_get_absolute_count : W → IdleLevelRemote → Result (W × ℕ)
  remote_get_absolute_count w l =
      call w (Request.idle_level_get_abs_count l.virtual_core_id l.level_id) >>= as_count

  pub remote_get_count : W → IdleLevelRemote → Result (W × ℕ)
  remote_get_count w l =
      call w (Request.idle_level_get_count l.virtual_core_id l.level_id) >>= as_count

  pub remote_reset_count : W → IdleLevelRemote → Result W
  remote_reset_count w l =
      call w (Request.idle_level_reset_count l.virtual_core_id l.level_id) >>= as_void

  -- The constructor of VirtualCoreIdleLevelRemote.
  pub create_level : W → ℕ → ℕ → Result (W × IdleLevelRemote)
  create_level w virtual_core_id level_id =
      let l : IdleLevelRemote = record { virtual_core_id = virtual_core_id; level_id = level_id } in
      remote_reset_time w l >>= λ w'. remote_reset_count w' l >>= λ w''. ok (w'', l)

  -- VirtualCoreRemote: the core is its identifier, and the identifiers of its levels.
  pub remote_reset_idle_time : W → ℕ → Result W
  remote_reset_idle_time w id = call w (Request.reset_idle_time id) >>= as_void

  pub create_levels : W → ℕ → List ℕ → Result W
  create_levels w virtual_core_id [] = ok w
  create_levels w virtual_core_id (level_id ∷ level_ids) =
      create_level w virtual_core_id level_id >>= λ made.
      create_levels made.0 virtual_core_id level_ids

  -- The constructor of VirtualCoreRemote.
  pub create_core : W → ℕ → Result (W × VirtualCoreRemote)
  create_core w id = call w (Request.idle_levels_get id) >>= as_level_ids >>= λ got.
      create_levels got.0 id got.1 >>= λ w'. remote_reset_idle_time w' id >>= λ w''.
      ok (w'', record { virtual_core_id = id; idle_levels = got.1 })

  pub remote_has_flag : W → ℕ → Text → Result (W × Bool)
  remote_has_flag w id flag_name = call w (Request.has_flag id flag_name) >>= as_bool

  pub remote_get_absolute_ticks : W → ℕ → Result (W × ℕ)
  remote_get_absolute_ticks w id = call w (Request.get_absolute_ticks id) >>= as_uint64

  pub remote_get_idle_time : W → ℕ → Result (W × Time)
  remote_get_idle_time w id = call w (Request.get_idle_time id) >>= as_idle_time

  pub remote_is_hot_pluggable : W → ℕ → Result (W × Bool)
  remote_is_hot_pluggable w id = call w (Request.is_hot_pluggable id) >>= as_bool

  pub remote_is_hot_plugged : W → ℕ → Result (W × Bool)
  remote_is_hot_plugged w id = call w (Request.is_hot_plugged id) >>= as_bool

  pub remote_hot_plug : W → ℕ → Result W
  remote_hot_plug w id = call w (Request.hot_plug id) >>= as_void

  pub remote_hot_unplug : W → ℕ → Result W
  remote_hot_unplug w id = call w (Request.hot_unplug id) >>= as_void

  pub create_cores : W → List VirtualCoreCoordinates → Result (W × List VirtualCoreRemote)
  create_cores w [] = ok (w, [])
  create_cores w (vcc ∷ vccs) = create_core w vcc.virtual_core_id >>= λ made.
      create_cores made.0 vccs >>= λ others. ok (others.0, made.1 ∷ others.1)

  -- The constructor of Topology for a remote one: of the objects that `buildCpuVector` makes only
  -- those of the virtual cores call the server, in the order in which they are made.
  pub create_topology : W → Result (W × (List Cpu × List VirtualCoreRemote))
  create_topology w = call w Request.get_topology >>= as_coordinates >>= λ got.
      let cpus = build_cpu_vector got.1 in
      create_cores got.0 (all_virtual_cores cpus) >>= λ made. ok (made.0, (cpus, made.1))

-- The functions of VirtualCoreRemote that are not there.
pub remote_has_clock_modulation : ℕ → Result Bool
remote_has_clock_modulation id = throw Error.unsupported_remote

pub remote_get_clock_modulation_values : ℕ → Result (List ℕ)
remote_get_clock_modulation_values id = throw Error.unsupported_remote

pub remote_set_clock_modulation : ℕ → ℕ → Result (Unit {0})
remote_set_clock_modulation id value = throw Error.unsupported_remote

pub remote_get_clock_modulation : ℕ → Result ℕ
remote_get_clock_modulation id = throw Error.unsupported_remote
