-- ===== src/Topology/Remote/Process.antt =====
-- `Topology::processMessage` of src/topology/topology.cpp, on requests that are parsed already, over
-- the virtual functions that it calls, and what a client gets for it through the server of
-- src/mammut-server.cpp.
pub mod Levels
pub mod Runs
pub mod Refinement
pub mod Unknown
pub mod Steps
pub mod Created
mod Examples
use mammut.Common.{
  ℕ, ◌+◌, Bool, Option, some, none, List, [], ◌∷◌, ◌==◌, if◌then◌else◌, Error, Result, ok, throw,
  ◌>>=◌, or_throw, Text, map,
}
use mammut.Server.{told}
use mammut.Topology.Coordinates.{VirtualCoreCoordinates}
use mammut.Topology.Tree.{
  PhysicalCore, Cpu, get_cpu, get_virtual_core, virtual_cores, all_virtual_cores,
}
use mammut.Topology.Units.{get_physical_core, each_core}
use mammut.Topology.Messages.{Utilization, UnitType, Request, Response}

-- The virtual functions of classes Cpu, VirtualCore and VirtualCoreIdleLevel on the state of all
-- the objects: a CPU and a virtual core by its identifier, an idle level by its place among those
-- of its core. What a function that reads throws leaves the state alone.
pub record Host (S Time : Type 0) : Type 0 where
  pub get_vendor_id : S → ℕ → Result Text
  pub get_family : S → ℕ → Result Text
  pub get_model : S → ℕ → Result Text
  pub get_absolute_ticks : S → ℕ → Result ℕ
  pub has_flag : S → ℕ → Text → Result Bool
  pub is_hot_pluggable : S → ℕ → Result Bool
  pub is_hot_plugged : S → ℕ → Result Bool
  pub hot_plug : S → ℕ → Result S
  pub hot_unplug : S → ℕ → Result S
  pub get_idle_time : S → ℕ → Result Time
  pub reset_idle_time : S → ℕ → Result S
  pub maximize_utilization : S → ℕ → Result S
  pub reset_utilization : S → ℕ → Result S
  pub get_idle_levels : S → ℕ → List ℕ
  pub level_get_name : S → ℕ → ℕ → Result Text
  pub level_get_desc : S → ℕ → ℕ → Result Text
  pub level_is_enableable : S → ℕ → ℕ → Result Bool
  pub level_is_enabled : S → ℕ → ℕ → Result Bool
  pub level_enable : S → ℕ → ℕ → Result S
  pub level_disable : S → ℕ → ℕ → Result S
  pub level_get_exit_latency : S → ℕ → ℕ → Result ℕ
  pub level_get_consumed_power : S → ℕ → ℕ → Result ℕ
  pub level_get_absolute_time : S → ℕ → ℕ → Result ℕ
  pub level_get_time : S → ℕ → ℕ → Result ℕ
  pub level_reset_time : S → ℕ → ℕ → Result S
  pub level_get_absolute_count : S → ℕ → ℕ → Result ℕ
  pub level_get_count : S → ℕ → ℕ → Result ℕ
  pub level_reset_count : S → ℕ → ℕ → Result S

-- The loop of `PROCESS_IDLE_LEVEL` from the place `i` on: the levels with the identifier are
-- processed, and the response is that of the last one.
pub level_loop :
    {S Time : Type 0}
    → (S → ℕ → Result (S × Response Time))
    → ℕ
    → List ℕ
    → ℕ
    → S
    → Response Time
    → Result (S × Response Time)
level_loop op level_id [] i s res = ok (s, res)
level_loop op level_id (l ∷ ls) i s res =
    let rest = level_loop op level_id ls (i + 1) in
    if l == level_id then (op s i >>= λ done. rest done.0 done.1) else rest s res

-- `PROCESS_IDLE_LEVEL`; `res` is the response before.
pub process_idle_level :
    {S Time : Type 0}
    → (S → ℕ → Result (S × Response Time))
    → ℕ
    → List ℕ
    → S
    → Response Time
    → Result (S × Response Time)
process_idle_level op level_id [] s res = throw Error.no_levels
process_idle_level op level_id (l ∷ ls) s res = level_loop op level_id (l ∷ ls) 0 s res

-- The operation of a unit on its virtual cores, and the unit of a request.
cores_of_core : Option PhysicalCore → Option (List VirtualCoreCoordinates)
cores_of_core none = none
cores_of_core (some core) = some core.virtual_cores

cores_of_cpu : Option Cpu → Option (List VirtualCoreCoordinates)
cores_of_cpu none = none
cores_of_cpu (some cpu) = some (virtual_cores cpu.physical_cores)

cores_of_virtual : Option VirtualCoreCoordinates → Option (List VirtualCoreCoordinates)
cores_of_virtual none = none
cores_of_virtual (some vcc) = some (vcc ∷ [])

pub unit : List Cpu → UnitType → ℕ → Option (List VirtualCoreCoordinates)
unit cpus UnitType.topology id = some (all_virtual_cores cpus)
unit cpus UnitType.cpu id = cores_of_cpu (get_cpu cpus id)
unit cpus UnitType.physical_core id = cores_of_core (get_physical_core cpus id)
unit cpus UnitType.virtual_core id = cores_of_virtual (get_virtual_core cpus id)

module _ {S Time : Type 0} (host : Host S Time) (cpus : List Cpu) where
  pub utilize : Utilization → S → List VirtualCoreCoordinates → Result S
  utilize Utilization.maximize s vccs = each_core host.maximize_utilization s vccs
  utilize Utilization.reset s vccs = each_core host.reset_utilization s vccs

  void : Result S → Result (S × Response Time)
  void r = r >>= λ s. ok (s, Response.result_void)

  read : {A : Type 0} → S → (A → Response Time) → Result A → Result (S × Response Time)
  read s res r = r >>= λ a. ok (s, res a)

  -- `PROCESS_CPU_REQUEST`
  process_cpu : ℕ → Result (S × Response Time) → Result (S × Response Time)
  process_cpu id processing = or_throw Error.no_unit (get_cpu cpus id) >>= λ c. processing

  -- `PROCESS_VIRTUAL_CORE_REQUEST`
  process_virtual_core : ℕ → Result (S × Response Time) → Result (S × Response Time)
  process_virtual_core id processing =
      or_throw Error.no_unit (get_virtual_core cpus id) >>= λ vc. processing

  -- `PROCESS_VIRTUAL_CORE_REQUEST_IDLE_LEVEL` for a response without fields, and for one whose field
  -- is not set yet.
  process_level_void : S → ℕ → ℕ → (S → ℕ → ℕ → Result S) → Result (S × Response Time)
  process_level_void s id level_id op = process_virtual_core id (
      process_idle_level (λ s' i. void (op s' id i)) level_id (host.get_idle_levels s id) s
        Response.result_void)

  process_level :
      {A : Type 0}
      → S
      → ℕ
      → ℕ
      → (A → Response Time)
      → (S → ℕ → ℕ → Result A)
      → Result (S × Response Time)
  process_level s id level_id res op = process_virtual_core id (
      process_idle_level (λ s' i. read s' res (op s' id i)) level_id (host.get_idle_levels s id) s
        Response.field_not_set)

  -- `processMessage`
  pub process_message : S → Request → Result (S × Response Time)
  process_message s Request.get_topology =
      ok (s, Response.get_topology_res (all_virtual_cores cpus))
  process_message s (Request.set_utilization type unit_type id) =
      or_throw Error.no_unit (unit cpus unit_type id) >>= λ vccs. void (utilize type s vccs)
  process_message s (Request.get_cpu_vendor_id id) =
      process_cpu id (read s Response.get_cpu_vendor_id_res (host.get_vendor_id s id))
  process_message s (Request.get_cpu_family id) =
      process_cpu id (read s Response.get_cpu_family_res (host.get_family s id))
  process_message s (Request.get_cpu_model id) =
      process_cpu id (read s Response.get_cpu_model_res (host.get_model s id))
  process_message s (Request.get_absolute_ticks id) =
      process_virtual_core id (read s Response.result_uint64 (host.get_absolute_ticks s id))
  process_message s (Request.has_flag id flag_name) =
      process_virtual_core id (read s Response.result_bool (host.has_flag s id flag_name))
  process_message s (Request.is_hot_pluggable id) =
      process_virtual_core id (read s Response.result_bool (host.is_hot_pluggable s id))
  process_message s (Request.is_hot_plugged id) =
      process_virtual_core id (read s Response.result_bool (host.is_hot_plugged s id))
  process_message s (Request.hot_plug id) = process_virtual_core id (void (host.hot_plug s id))
  process_message s (Request.hot_unplug id) = process_virtual_core id (void (host.hot_unplug s id))
  process_message s (Request.get_idle_time id) =
      process_virtual_core id (read s Response.get_idle_time_res (host.get_idle_time s id))
  process_message s (Request.reset_idle_time id) =
      process_virtual_core id (void (host.reset_idle_time s id))
  process_message s (Request.idle_levels_get id) =
      process_virtual_core id (ok (s, Response.idle_levels_get_res (host.get_idle_levels s id)))
  process_message s (Request.idle_level_get_name id level_id) =
      process_level s id level_id Response.idle_level_get_name_res host.level_get_name
  process_message s (Request.idle_level_get_desc id level_id) =
      process_level s id level_id Response.idle_level_get_desc_res host.level_get_desc
  process_message s (Request.idle_level_is_enableable id level_id) =
      process_level s id level_id Response.result_bool host.level_is_enableable
  process_message s (Request.idle_level_is_enabled id level_id) =
      process_level s id level_id Response.result_bool host.level_is_enabled
  process_message s (Request.idle_level_enable id level_id) =
      process_level_void s id level_id host.level_enable
  process_message s (Request.idle_level_disable id level_id) =
      process_level_void s id level_id host.level_disable
  process_message s (Request.idle_level_get_exit_latency id level_id) =
      process_level s id level_id Response.idle_level_get_exit_latency_res
        host.level_get_exit_latency
  process_message s (Request.idle_level_get_consumed_power id level_id) =
      process_level s id level_id Response.idle_level_get_consumed_power_res
        host.level_get_consumed_power
  process_message s (Request.idle_level_get_abs_time id level_id) =
      process_level s id level_id Response.idle_level_get_time_res host.level_get_absolute_time
  process_message s (Request.idle_level_get_time id level_id) =
      process_level s id level_id Response.idle_level_get_time_res host.level_get_time
  process_message s (Request.idle_level_reset_time id level_id) =
      process_level_void s id level_id host.level_reset_time
  process_message s (Request.idle_level_get_abs_count id level_id) =
      process_level s id level_id Response.idle_level_get_count_res host.level_get_absolute_count
  process_message s (Request.idle_level_get_count id level_id) =
      process_level s id level_id Response.idle_level_get_count_res host.level_get_count
  process_message s (Request.idle_level_reset_count id level_id) =
      process_level_void s id level_id host.level_reset_count

  -- `remoteCall` of a client of a server with the host and its tree.
  pub call : S → Request → Result (S × Response Time)
  call s request = told (process_message s request)
