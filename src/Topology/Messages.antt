-- ===== src/Topology/Messages.antt =====
-- The messages of src/topology/topology-remote.proto, and what a client makes of a response. A
-- double is of any type `Time`.
use mammut.Common.{ℕ, Bool, List, Error, Result, ok, throw, Text}
use mammut.Topology.Coordinates.{VirtualCoreCoordinates}

-- `SetUtilization_Type`
pub data Utilization : Type 0 where
  maximize : Utilization
  reset : Utilization

-- `SetUtilization_UnitType`
pub data UnitType : Type 0 where
  topology : UnitType
  cpu : UnitType
  physical_core : UnitType
  virtual_core : UnitType

-- The request messages.
pub data Request : Type 0 where
  get_topology : Request
  set_utilization : Utilization → UnitType → ℕ → Request
  get_cpu_vendor_id : ℕ → Request
  get_cpu_family : ℕ → Request
  get_cpu_model : ℕ → Request
  get_absolute_ticks : ℕ → Request
  has_flag : ℕ → Text → Request
  is_hot_pluggable : ℕ → Request
  is_hot_plugged : ℕ → Request
  hot_plug : ℕ → Request
  hot_unplug : ℕ → Request
  get_idle_time : ℕ → Request
  reset_idle_time : ℕ → Request
  idle_levels_get : ℕ → Request
  idle_level_get_name : ℕ → ℕ → Request
  idle_level_get_desc : ℕ → ℕ → Request
  idle_level_is_enableable : ℕ → ℕ → Request
  idle_level_is_enabled : ℕ → ℕ → Request
  idle_level_enable : ℕ → ℕ → Request
  idle_level_disable : ℕ → ℕ → Request
  idle_level_get_exit_latency : ℕ → ℕ → Request
  idle_level_get_consumed_power : ℕ → ℕ → Request
  idle_level_get_abs_time : ℕ → ℕ → Request
  idle_level_get_time : ℕ → ℕ → Request
  idle_level_reset_time : ℕ → ℕ → Request
  idle_level_get_abs_count : ℕ → ℕ → Request
  idle_level_get_count : ℕ → ℕ → Request
  idle_level_reset_count : ℕ → ℕ → Request

-- The response messages. A required field that was not set makes the response one that the client
-- cannot parse.
pub data Response (Time : Type 0) : Type 0 where
  get_topology_res : List VirtualCoreCoordinates → Response Time
  get_cpu_vendor_id_res : Text → Response Time
  get_cpu_family_res : Text → Response Time
  get_cpu_model_res : Text → Response Time
  get_idle_time_res : Time → Response Time
  idle_levels_get_res : List ℕ → Response Time
  idle_level_get_name_res : Text → Response Time
  idle_level_get_desc_res : Text → Response Time
  idle_level_get_exit_latency_res : ℕ → Response Time
  idle_level_get_consumed_power_res : ℕ → Response Time
  idle_level_get_time_res : ℕ → Response Time
  idle_level_get_count_res : ℕ → Response Time
  result_void : Response Time
  result_bool : Bool → Response Time
  result_uint64 : ℕ → Response Time
  field_not_set : Response Time

module _ {W Time : Type 0} where
  -- `remoteCall` throws where the response is of another type than the one expected, or cannot be
  -- parsed.
  unfoldable pub as_void : W × Response Time → Result W
  as_void (w, Response.result_void) = ok w
  as_void (w, _) = throw Error.message_mismatch

  unfoldable pub as_coordinates : W × Response Time → Result (W × List VirtualCoreCoordinates)
  as_coordinates (w, Response.get_topology_res x) = ok (w, x)
  as_coordinates (w, _) = throw Error.message_mismatch

  unfoldable pub as_vendor_id : W × Response Time → Result (W × Text)
  as_vendor_id (w, Response.get_cpu_vendor_id_res x) = ok (w, x)
  as_vendor_id (w, _) = throw Error.message_mismatch

  unfoldable pub as_family : W × Response Time → Result (W × Text)
  as_family (w, Response.get_cpu_family_res x) = ok (w, x)
  as_family (w, _) = throw Error.message_mismatch

  unfoldable pub as_model : W × Response Time → Result (W × Text)
  as_model (w, Response.get_cpu_model_res x) = ok (w, x)
  as_model (w, _) = throw Error.message_mismatch

  unfoldable pub as_idle_time : W × Response Time → Result (W × Time)
  as_idle_time (w, Response.get_idle_time_res x) = ok (w, x)
  as_idle_time (w, _) = throw Error.message_mismatch

  unfoldable pub as_level_ids : W × Response Time → Result (W × List ℕ)
  as_level_ids (w, Response.idle_levels_get_res x) = ok (w, x)
  as_level_ids (w, _) = throw Error.message_mismatch

  unfoldable pub as_name : W × Response Time → Result (W × Text)
  as_name (w, Response.idle_level_get_name_res x) = ok (w, x)
  as_name (w, _) = throw Error.message_mismatch

  unfoldable pub as_desc : W × Response Time → Result (W × Text)
  as_desc (w, Response.idle_level_get_desc_res x) = ok (w, x)
  as_desc (w, _) = throw Error.message_mismatch

  unfoldable pub as_exit_latency : W × Response Time → Result (W × ℕ)
  as_exit_latency (w, Response.idle_level_get_exit_latency_res x) = ok (w, x)
  as_exit_latency (w, _) = throw Error.message_mismatch

  unfoldable pub as_consumed_power : W × Response Time → Result (W × ℕ)
  as_consumed_power (w, Response.idle_level_get_consumed_power_res x) = ok (w, x)
  as_consumed_power (w, _) = throw Error.message_mismatch

  unfoldable pub as_time : W × Response Time → Result (W × ℕ)
  as_time (w, Response.idle_level_get_time_res x) = ok (w, x)
  as_time (w, _) = throw Error.message_mismatch

  unfoldable pub as_count : W × Response Time → Result (W × ℕ)
  as_count (w, Response.idle_level_get_count_res x) = ok (w, x)
  as_count (w, _) = throw Error.message_mismatch

  unfoldable pub as_bool : W × Response Time → Result (W × Bool)
  as_bool (w, Response.result_bool x) = ok (w, x)
  as_bool (w, _) = throw Error.message_mismatch

  unfoldable pub as_uint64 : W × Response Time → Result (W × ℕ)
  as_uint64 (w, Response.result_uint64 x) = ok (w, x)
  as_uint64 (w, _) = throw Error.message_mismatch
