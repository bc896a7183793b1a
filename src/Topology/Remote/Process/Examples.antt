-- ===== src/Topology/Remote/Process/Examples.antt =====
-- A server whose state counts the resets.
use mammut.Common.{ℕ, ◌+◌, ◌≡◌, refl, true, false, List, [], ◌∷◌, map, ok}
use mammut.Utils.Vectors.{contains, Distinct}
use mammut.Topology.Coordinates.{VirtualCoreCoordinates}
use mammut.Topology.Tree.{build_cpu_vector, all_virtual_cores}
use mammut.Topology.Remote.{create_topology}
use mammut.Topology.Remote.Process.{Host, call}
use mammut.Topology.Remote.Process.Created.{
  Resets, remote_core_of, create_topology-build_cpu_vector,
}

abbrev counting : Host ℕ ℕ
counting = record {
  get_vendor_id = λ s id. ok [];
  get_family = λ s id. ok [];
  get_model = λ s id. ok [];
  get_absolute_ticks = λ s id. ok s;
  has_flag = λ s id flag_name. ok false;
  is_hot_pluggable = λ s id. ok false;
  is_hot_plugged = λ s id. ok true;
  hot_plug = λ s id. ok s;
  hot_unplug = λ s id. ok s;
  get_idle_time = λ s id. ok s;
  reset_idle_time = λ s id. ok (s + 1);
  maximize_utilization = λ s id. ok s;
  reset_utilization = λ s id. ok s;
  get_idle_levels = λ s id. 1 ∷ 2 ∷ [];
  level_get_name = λ s id i. ok [];
  level_get_desc = λ s id i. ok [];
  level_is_enableable = λ s id i. ok true;
  level_is_enabled = λ s id i. ok true;
  level_enable = λ s id i. ok s;
  level_disable = λ s id i. ok s;
  level_get_exit_latency = λ s id i. ok 0;
  level_get_consumed_power = λ s id i. ok 0;
  level_get_absolute_time = λ s id i. ok s;
  level_get_time = λ s id i. ok s;
  level_reset_time = λ s id i. ok (s + 1);
  level_get_absolute_count = λ s id i. ok s;
  level_get_count = λ s id i. ok s;
  level_reset_count = λ s id i. ok (s + 1);
}

abbrev two_levels : ℕ → List ℕ
two_levels id = 1 ∷ 2 ∷ []

resets : Resets counting two_levels
unfolding Distinct contains
resets = record {
  idle_time = λ s id has. (s + 1, refl, λ other. refl);
  time = λ s id i has h. (s + 1, refl, λ other. refl);
  count = λ s id i has h. (s + 1, refl, λ other. refl);
  distinct = λ id. (refl, (refl, tt));
}

abbrev two_cpus : List VirtualCoreCoordinates
two_cpus =
    record { cpu_id = 0; physical_core_id = 0; virtual_core_id = 0 }
    ∷ record { cpu_id = 1; physical_core_id = 1; virtual_core_id = 1 }
    ∷ record { cpu_id = 0; physical_core_id = 0; virtual_core_id = 2 }
    ∷ []

create_topology-build_cpu_vector_example :
    (s' : ℕ) × (create_topology (call counting (build_cpu_vector two_cpus)) 0
      ≡ ok (
        s',
        (
          build_cpu_vector two_cpus,
          map (remote_core_of counting two_levels) (all_virtual_cores (build_cpu_vector two_cpus)),
        ),
      ))
create_topology-build_cpu_vector_example =
    create_topology-build_cpu_vector counting two_levels resets two_cpus 0 (λ id. refl)
