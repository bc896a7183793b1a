-- ===== src/Topology/Remote/Process/Runs.antt =====
-- The functions of a level, a core and a CPU, as the server and as a client of it run them.
use mammut.Common.{ℕ, Bool, List, Result, ok, ◌>>=◌, Text}
use mammut.Topology.Tree.{Cpu}
use mammut.Topology.Remote.{
  IdleLevelRemote, remote_get_name, remote_get_desc, remote_is_enableable, remote_is_enabled,
  remote_enable, remote_disable, remote_get_exit_latency, remote_get_consumed_power,
  remote_get_absolute_time, remote_get_time, remote_reset_time, remote_get_absolute_count,
  remote_get_count, remote_reset_count, remote_get_absolute_ticks, remote_is_hot_pluggable,
  remote_is_hot_plugged, remote_hot_plug, remote_hot_unplug, remote_get_idle_time,
  remote_reset_idle_time, remote_get_vendor_id, remote_get_family, remote_get_model,
  remote_has_flag,
}
use mammut.Topology.Remote.Process.{Host, call}

-- The functions of class VirtualCoreIdleLevel.
pub data LevelOp : Type 0 where
  get_name : LevelOp
  get_desc : LevelOp
  is_enableable : LevelOp
  is_enabled : LevelOp
  enable : LevelOp
  disable : LevelOp
  get_exit_latency : LevelOp
  get_consumed_power : LevelOp
  get_absolute_time : LevelOp
  get_time : LevelOp
  reset_time : LevelOp
  get_absolute_count : LevelOp
  get_count : LevelOp
  reset_count : LevelOp

abbrev pub LevelAnswer : LevelOp → Type 0
LevelAnswer LevelOp.get_name = Text
LevelAnswer LevelOp.get_desc = Text
LevelAnswer LevelOp.is_enableable = Bool
LevelAnswer LevelOp.is_enabled = Bool
LevelAnswer LevelOp.enable = Unit
LevelAnswer LevelOp.disable = Unit
LevelAnswer LevelOp.get_exit_latency = ℕ
LevelAnswer LevelOp.get_consumed_power = ℕ
LevelAnswer LevelOp.get_absolute_time = ℕ
LevelAnswer LevelOp.get_time = ℕ
LevelAnswer LevelOp.reset_time = Unit
LevelAnswer LevelOp.get_absolute_count = ℕ
LevelAnswer LevelOp.get_count = ℕ
LevelAnswer LevelOp.reset_count = Unit

-- The functions of class VirtualCore that a remote one has.
pub data CoreOp : Type 0 where
  has_flag : Text → CoreOp
  get_absolute_ticks : CoreOp
  is_hot_pluggable : CoreOp
  is_hot_plugged : CoreOp
  hot_plug : CoreOp
  hot_unplug : CoreOp
  get_idle_time : CoreOp
  reset_idle_time : CoreOp

abbrev pub CoreAnswer : Type 0 → CoreOp → Type 0
CoreAnswer Time (CoreOp.has_flag _) = Bool
CoreAnswer Time CoreOp.get_absolute_ticks = ℕ
CoreAnswer Time CoreOp.is_hot_pluggable = Bool
CoreAnswer Time CoreOp.is_hot_plugged = Bool
CoreAnswer Time CoreOp.hot_plug = Unit
CoreAnswer Time CoreOp.hot_unplug = Unit
CoreAnswer Time CoreOp.get_idle_time = Time
CoreAnswer Time CoreOp.reset_idle_time = Unit

-- The functions of class Cpu.
pub data CpuOp : Type 0 where
  get_vendor_id : CpuOp
  get_family : CpuOp
  get_model : CpuOp

-- The state and a value that is read there, and the state after a function that returns nothing.
unfoldable pub reads : {S A : Type 0} → S → Result A → Result (S × A)
reads s r = r >>= λ a. ok (s, a)

unfoldable pub writes : {S : Type 0} → Result S → Result (S × Unit {0})
writes r = r >>= λ s. ok (s, tt)

module _ {S Time : Type 0} (host : Host S Time) (cpus : List Cpu) where
  -- The function on the level of the server's core at the place.
  unfoldable pub local_level : (op : LevelOp) → S → ℕ → ℕ → Result (S × LevelAnswer op)
  local_level LevelOp.get_name s id i = reads s (host.level_get_name s id i)
  local_level LevelOp.get_desc s id i = reads s (host.level_get_desc s id i)
  local_level LevelOp.is_enableable s id i = reads s (host.level_is_enableable s id i)
  local_level LevelOp.is_enabled s id i = reads s (host.level_is_enabled s id i)
  local_level LevelOp.enable s id i = writes (host.level_enable s id i)
  local_level LevelOp.disable s id i = writes (host.level_disable s id i)
  local_level LevelOp.get_exit_latency s id i = reads s (host.level_get_exit_latency s id i)
  local_level LevelOp.get_consumed_power s id i = reads s (host.level_get_consumed_power s id i)
  local_level LevelOp.get_absolute_time s id i = reads s (host.level_get_absolute_time s id i)
  local_level LevelOp.get_time s id i = reads s (host.level_get_time s id i)
  local_level LevelOp.reset_time s id i = writes (host.level_reset_time s id i)
  local_level LevelOp.get_absolute_count s id i = reads s (host.level_get_absolute_count s id i)
  local_level LevelOp.get_count s id i = reads s (host.level_get_count s id i)
  local_level LevelOp.reset_count s id i = writes (host.level_reset_count s id i)

  unfoldable pub remote_level : (op : LevelOp) → S → IdleLevelRemote → Result (S × LevelAnswer op)
  remote_level LevelOp.get_name s l = remote_get_name (call host cpus) s l
  remote_level LevelOp.get_desc s l = remote_get_desc (call host cpus) s l
  remote_level LevelOp.is_enableable s l = remote_is_enableable (call host cpus) s l
  remote_level LevelOp.is_enabled s l = remote_is_enabled (call host cpus) s l
  remote_level LevelOp.enable s l = remote_enable (call host cpus) s l >>= λ s'. ok (s', tt)
  remote_level LevelOp.disable s l = remote_disable (call host cpus) s l >>= λ s'. ok (s', tt)
  remote_level LevelOp.get_exit_latency s l = remote_get_exit_latency (call host cpus) s l
  remote_level LevelOp.get_consumed_power s l = remote_get_consumed_power (call host cpus) s l
  remote_level LevelOp.get_absolute_time s l = remote_get_absolute_time (call host cpus) s l
  remote_level LevelOp.get_time s l = remote_get_time (call host cpus) s l
  remote_level LevelOp.reset_time s l = remote_reset_time (call host cpus) s l >>= λ s'. ok (s', tt)
  remote_level LevelOp.get_absolute_count s l = remote_get_absolute_count (call host cpus) s l
  remote_level LevelOp.get_count s l = remote_get_count (call host cpus) s l
  remote_level LevelOp.reset_count s l =
      remote_reset_count (call host cpus) s l >>= λ s'. ok (s', tt)

  -- The function on the virtual core of the server.
  unfoldable pub local_core : (op : CoreOp) → S → ℕ → Result (S × CoreAnswer Time op)
  local_core (CoreOp.has_flag flag_name) s id = reads s (host.has_flag s id flag_name)
  local_core CoreOp.get_absolute_ticks s id = reads s (host.get_absolute_ticks s id)
  local_core CoreOp.is_hot_pluggable s id = reads s (host.is_hot_pluggable s id)
  local_core CoreOp.is_hot_plugged s id = reads s (host.is_hot_plugged s id)
  local_core CoreOp.hot_plug s id = writes (host.hot_plug s id)
  local_core CoreOp.hot_unplug s id = writes (host.hot_unplug s id)
  local_core CoreOp.get_idle_time s id = reads s (host.get_idle_time s id)
  local_core CoreOp.reset_idle_time s id = writes (host.reset_idle_time s id)

  unfoldable pub remote_core : (op : CoreOp) → S → ℕ → Result (S × CoreAnswer Time op)
  remote_core (CoreOp.has_flag flag_name) s id = remote_has_flag (call host cpus) s id flag_name
  remote_core CoreOp.get_absolute_ticks s id = remote_get_absolute_ticks (call host cpus) s id
  remote_core CoreOp.is_hot_pluggable s id = remote_is_hot_pluggable (call host cpus) s id
  remote_core CoreOp.is_hot_plugged s id = remote_is_hot_plugged (call host cpus) s id
  remote_core CoreOp.hot_plug s id = remote_hot_plug (call host cpus) s id >>= λ s'. ok (s', tt)
  remote_core CoreOp.hot_unplug s id = remote_hot_unplug (call host cpus) s id >>= λ s'. ok (s', tt)
  remote_core CoreOp.get_idle_time s id = remote_get_idle_time (call host cpus) s id
  remote_core CoreOp.reset_idle_time s id =
      remote_reset_idle_time (call host cpus) s id >>= λ s'. ok (s', tt)

  -- The function on the CPU of the server.
  unfoldable pub local_cpu : CpuOp → S → ℕ → Result (S × Text)
  local_cpu CpuOp.get_vendor_id s id = reads s (host.get_vendor_id s id)
  local_cpu CpuOp.get_family s id = reads s (host.get_family s id)
  local_cpu CpuOp.get_model s id = reads s (host.get_model s id)

  unfoldable pub remote_cpu : CpuOp → S → ℕ → Result (S × Text)
  remote_cpu CpuOp.get_vendor_id s id = remote_get_vendor_id (call host cpus) s id
  remote_cpu CpuOp.get_family s id = remote_get_family (call host cpus) s id
  remote_cpu CpuOp.get_model s id = remote_get_model (call host cpus) s id
