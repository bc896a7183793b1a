-- ===== src/Energy/Counters/Remote/Examples.antt =====
-- A server with two CPUs and no other counter, and one with a counter at the plug only.
use mammut.Common.{ℕ, ◌+◌, ◌≡◌, refl, true, false, some, none, [], ◌∷◌, Error, ok, throw}
use mammut.Server.{told}
use mammut.Energy.Msr.{JoulesCpu}
use mammut.Energy.Counters.{
  Counter, CounterCpus, Energy, plus, no_joules, components_loop, get_joules_components_all,
}
use mammut.Energy.Counters.Remote.{create_cpus, create, remote_get_joules_components}
use mammut.Energy.Counters.Remote.Serves.{call, remote_get_joules_components-all, create-no_cpus}

-- The state is what every reading adds up to.
abbrev plug : Counter ℕ
plug = record { init = λ s. ok (s, true); reset = λ s. ok 0; get_joules = λ s. ok (s + 5, s + 5) }

abbrev joules_of : ℕ → JoulesCpu
joules_of n = record { cpu = n; cores = 1; graphic = 0; dram = 2 }

abbrev two_cpus : CounterCpus ℕ
two_cpus = record {
  cpus = 0 ∷ 1 ∷ [];
  init = λ s. ok (s, true);
  reset = λ s. ok 0;
  get_joules_components = λ s id. ok (s + 3, joules_of (s + 3));
  get_joules_cpu = λ s id. ok (s + 3, s + 3);
  get_joules_cores = λ s id. ok (s, 1);
  get_joules_graphic = λ s id. ok (s, 0);
  get_joules_dram = λ s id. ok (s, 2);
  has_joules_cores = true;
  has_joules_graphic = false;
  has_joules_dram = true;
}

abbrev with_cpus : Energy ℕ
with_cpus = record { counter_plug = none; counter_memory = none; counter_cpus = some two_cpus }

abbrev with_plug : Energy ℕ
with_plug = record { counter_plug = some plug; counter_memory = none; counter_cpus = none }

remote_get_joules_components-all_example :
    remote_get_joules_components (call with_cpus) 10 ≡ told (get_joules_components_all two_cpus 10)
remote_get_joules_components-all_example =
    remote_get_joules_components-all with_cpus two_cpus 10 refl

-- What the client gets.
summed :
    remote_get_joules_components (call with_cpus) 10
    ≡ ok (16, record { cpu = 29; cores = 2; graphic = 0; dram = 4 })
unfolding told get_joules_components_all components_loop plus no_joules
summed = remote_get_joules_components-all with_cpus two_cpus 10 refl

create-no_cpus_run :
    (create_cpus (call with_plug) 7 ≡ throw Error.uninitialised)
    × (x : Error) × (create (call with_plug) 7 ≡ throw x)
create-no_cpus_run = create-no_cpus with_plug 7 refl
