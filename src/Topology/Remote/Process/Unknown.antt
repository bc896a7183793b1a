-- ===== src/Topology/Remote/Process/Unknown.antt =====
-- Requests about an idle level or a core that the server does not have.
use mammut.Common.{ℕ, ◌≡◌, refl, false, some, List, ◌∷◌, Error, Result, ok, throw}
use mammut.Utils.Vectors.{contains}
use mammut.Server.{told}
use mammut.Topology.Coordinates.{VirtualCoreCoordinates}
use mammut.Topology.Tree.{Cpu, get_virtual_core}
use mammut.Topology.Messages.{
  Response, as_bool, as_consumed_power, as_count, as_desc, as_exit_latency, as_name, as_time,
  as_void,
}
use mammut.Topology.Remote.{
  IdleLevelRemote, remote_get_name, remote_get_desc, remote_is_enableable, remote_is_enabled,
  remote_enable, remote_disable, remote_get_exit_latency, remote_get_consumed_power,
  remote_get_absolute_time, remote_get_time, remote_reset_time, remote_get_absolute_count,
  remote_get_count, remote_reset_count,
}
use mammut.Topology.Remote.Process.{
  Host, process_virtual_core, process_level, process_level_void, process_idle_level,
  process_message, call,
}
use mammut.Topology.Remote.Process.Levels.{level_loop-absent}
use mammut.Topology.Remote.Process.Runs.{LevelOp, LevelAnswer, remote_level}

-- What a client sees of a level that is not there: a function that returns nothing does nothing, and
-- one that reads throws, since the response has no value.
unfoldable pub unseen : {S : Type 0} → (op : LevelOp) → S → Result (S × LevelAnswer op)
unseen LevelOp.get_name s = throw Error.message_mismatch
unseen LevelOp.get_desc s = throw Error.message_mismatch
unseen LevelOp.is_enableable s = throw Error.message_mismatch
unseen LevelOp.is_enabled s = throw Error.message_mismatch
unseen LevelOp.enable s = ok (s, tt)
unseen LevelOp.disable s = ok (s, tt)
unseen LevelOp.get_exit_latency s = throw Error.message_mismatch
unseen LevelOp.get_consumed_power s = throw Error.message_mismatch
unseen LevelOp.get_absolute_time s = throw Error.message_mismatch
unseen LevelOp.get_time s = throw Error.message_mismatch
unseen LevelOp.reset_time s = ok (s, tt)
unseen LevelOp.get_absolute_count s = throw Error.message_mismatch
unseen LevelOp.get_count s = throw Error.message_mismatch
unseen LevelOp.reset_count s = ok (s, tt)

module _ {S Time : Type 0} (host : Host S Time) (cpus : List Cpu) where
  process_idle_level-absent :
      (op : S → ℕ → Result (S × Response Time)) (id : ℕ) (first : ℕ) (others ls : List ℕ) (s : S)
      (res : Response Time)
      → ls ≡ first ∷ others
      → contains ls id ≡ false
      → process_idle_level op id ls s res ≡ ok (s, res)
  unfolding process_idle_level
  process_idle_level-absent op id first others ls s res e h =
      rw e (level_loop-absent op id (first ∷ others) 0 s res (rw e at h))

  -- Where the server's core has idle levels, but none with the identifier of the remote level, each
  -- function that returns nothing returns with nothing done, and each one that reads throws.
  pub remote_level-unseen :
      (op : LevelOp) (s : S) (l : IdleLevelRemote) (vcc : VirtualCoreCoordinates) (first : ℕ)
      (others : List ℕ)
      → get_virtual_core cpus l.virtual_core_id ≡ some vcc
      → host.get_idle_levels s l.virtual_core_id ≡ first ∷ others
      → contains (host.get_idle_levels s l.virtual_core_id) l.level_id ≡ false
      → remote_level host cpus op s l ≡ unseen op s
  unfolding remote_level unseen call process_message process_level process_level_void
      process_virtual_core told remote_get_name remote_get_desc remote_is_enableable
      remote_is_enabled remote_enable remote_disable remote_get_exit_latency
      remote_get_consumed_power remote_get_absolute_time remote_get_time remote_reset_time
      remote_get_absolute_count remote_get_count remote_reset_count as_bool as_consumed_power
      as_count as_desc as_exit_latency as_name as_time as_void
  remote_level-unseen LevelOp.get_name s l vcc first others e q h =
      rw (e, process_idle_level-absent _ l.level_id first others _ s _ q h) refl
  remote_level-unseen LevelOp.get_desc s l vcc first others e q h =
      rw (e, process_idle_level-absent _ l.level_id first others _ s _ q h) refl
  remote_level-unseen LevelOp.is_enableable s l vcc first others e q h =
      rw (e, process_idle_level-absent _ l.level_id first others _ s _ q h) refl
  remote_level-unseen LevelOp.is_enabled s l vcc first others e q h =
      rw (e, process_idle_level-absent _ l.level_id first others _ s _ q h) refl
  remote_level-unseen LevelOp.enable s l vcc first others e q h =
      rw (e, process_idle_level-absent _ l.level_id first others _ s _ q h) refl
  remote_level-unseen LevelOp.disable s l vcc first others e q h =
      rw (e, process_idle_level-absent _ l.level_id first others _ s _ q h) refl
  remote_level-unseen LevelOp.get_exit_latency s l vcc first others e q h =
      rw (e, process_idle_level-absent _ l.level_id first others _ s _ q h) refl
  remote_level-unseen LevelOp.get_consumed_power s l vcc first others e q h =
      rw (e, process_idle_level-absent _ l.level_id first others _ s _ q h) refl
  remote_level-unseen LevelOp.get_absolute_time s l vcc first others e q h =
      rw (e, process_idle_level-absent _ l.level_id first others _ s _ q h) refl
  remote_level-unseen LevelOp.get_time s l vcc first others e q h =
      rw (e, process_idle_level-absent _ l.level_id first others _ s _ q h) refl
  remote_level-unseen LevelOp.reset_time s l vcc first others e q h =
      rw (e, process_idle_level-absent _ l.level_id first others _ s _ q h) refl
  remote_level-unseen LevelOp.get_absolute_count s l vcc first others e q h =
      rw (e, process_idle_level-absent _ l.level_id first others _ s _ q h) refl
  remote_level-unseen LevelOp.get_count s l vcc first others e q h =
      rw (e, process_idle_level-absent _ l.level_id first others _ s _ q h) refl
  remote_level-unseen LevelOp.reset_count s l vcc first others e q h =
      rw (e, process_idle_level-absent _ l.level_id first others _ s _ q h) refl
