-- ===== src/Energy/Counters.antt =====
-- Classes CounterCpus and Energy of src/energy/energy.cpp over the virtual functions of the
-- counters, with `Energy::processMessage` on requests that are parsed already. A state `S` is that
-- of the machine and of the counters' objects.
pub mod Remote
pub mod Local
use mammut.Common.{
  ℕ, ◌+◌, Bool, true, false, Option, some, none, List, [], ◌∷◌, ◌++◌, Error, Result, ok, throw,
  ◌>>=◌,
}
use mammut.Energy.Msr.{JoulesCpu}

-- The virtual functions of a counter at the plug or of the memory.
pub record Counter (S : Type 0) : Type 0 where
  pub init : S → Result (S × Bool)
  pub reset : S → Result S
  pub get_joules : S → Result (S × ℕ)

-- The virtual functions of class CounterCpus, and the identifiers of its CPUs.
pub record CounterCpus (S : Type 0) : Type 0 where
  pub cpus : List ℕ
  pub init : S → Result (S × Bool)
  pub reset : S → Result S
  pub get_joules_components : S → ℕ → Result (S × JoulesCpu)
  pub get_joules_cpu : S → ℕ → Result (S × ℕ)
  pub get_joules_cores : S → ℕ → Result (S × ℕ)
  pub get_joules_graphic : S → ℕ → Result (S × ℕ)
  pub get_joules_dram : S → ℕ → Result (S × ℕ)
  pub has_joules_cores : Bool
  pub has_joules_graphic : Bool
  pub has_joules_dram : Bool

-- An Energy: the counters that it has.
pub record Energy (S : Type 0) : Type 0 where
  pub counter_plug : Option (Counter S)
  pub counter_memory : Option (Counter S)
  pub counter_cpus : Option (CounterCpus S)

-- `JoulesCpu::operator+=`
unfoldable pub plus : JoulesCpu → JoulesCpu → JoulesCpu
plus a b = record {
  cpu = a.cpu + b.cpu;
  cores = a.cores + b.cores;
  graphic = a.graphic + b.graphic;
  dram = a.dram + b.dram;
}

unfoldable pub no_joules : JoulesCpu
no_joules = record { cpu = 0; cores = 0; graphic = 0; dram = 0 }

module _ {S : Type 0} where
  -- The loop of the functions that sum a component, with the sum so far.
  sum_loop : (S → ℕ → Result (S × ℕ)) → S → ℕ → List ℕ → Result (S × ℕ)
  sum_loop get s r [] = ok (s, r)
  sum_loop get s r (id ∷ ids) = get s id >>= λ read. sum_loop get read.0 (r + read.1) ids

  -- `getJoulesCpuAll`, which is `getJoules`, and its siblings.
  pub get_joules_cpu_all : CounterCpus S → S → Result (S × ℕ)
  get_joules_cpu_all c s = sum_loop c.get_joules_cpu s 0 c.cpus

  pub get_joules_cores_all : CounterCpus S → S → Result (S × ℕ)
  get_joules_cores_all c s = sum_loop c.get_joules_cores s 0 c.cpus

  pub get_joules_graphic_all : CounterCpus S → S → Result (S × ℕ)
  get_joules_graphic_all c s = sum_loop c.get_joules_graphic s 0 c.cpus

  pub get_joules_dram_all : CounterCpus S → S → Result (S × ℕ)
  get_joules_dram_all c s = sum_loop c.get_joules_dram s 0 c.cpus

  unfoldable pub components_loop : CounterCpus S → S → JoulesCpu → List ℕ → Result (S × JoulesCpu)
  components_loop c s r [] = ok (s, r)
  components_loop c s r (id ∷ ids) =
      c.get_joules_components s id >>= λ read. components_loop c read.0 (plus r read.1) ids

  -- `getJoulesComponentsAll`
  unfoldable pub get_joules_components_all : CounterCpus S → S → Result (S × JoulesCpu)
  get_joules_components_all c s = components_loop c s no_joules c.cpus

pub data CounterType : Type 0 where
  counter_cpus : CounterType
  counter_memory : CounterType
  counter_plug : CounterType

present : {A : Type 0} → Option A → CounterType → List CounterType
present none t = []
present (some c) t = t ∷ []

-- `getCountersTypes`
pub get_counters_types : {S : Type 0} → Energy S → List CounterType
get_counters_types e =
    present e.counter_cpus CounterType.counter_cpus
    ++ (present e.counter_memory CounterType.counter_memory
        ++ present e.counter_plug CounterType.counter_plug)

-- The messages of src/energy/energy-remote.proto.
pub data ValueType : Type 0 where
  all : ValueType
  cpu : ValueType
  cores : ValueType
  graphic : ValueType
  dram : ValueType

pub data Command : Type 0 where
  init : Command
  reset : Command
  get : Command
  has : Command

pub record CounterReq : Type 0 where
  pub type : CounterType
  pub subtype : ValueType
  pub cmd : Command

-- A result of a `CounterResGetCpu`.
pub record CpuResult : Type 0 where
  pub cpuid : ℕ
  pub joules : JoulesCpu

-- In a `CounterResBool` the required field may have been left out.
pub data Response : Type 0 where
  res_bool : Option Bool → Response
  res_get_generic : ℕ → Response
  res_get_cpu : List CpuResult → Response

-- Use of a counter that may not be there: a null pointer.
unfoldable pub used : {A : Type 0} → Option A → Result A
used none = throw Error.uninitialised
used (some c) = ok c

module _ {S : Type 0} where
  -- The part of `COUNTER_COMMAND_INIT` for the counter of the request.
  answer_init : {C : Type 0} → (C → S → Result (S × Bool)) → Option C → S → Result (S × Response)
  answer_init run none s = ok (s, Response.res_bool (some false))
  answer_init run (some c) s = run c s >>= λ r. ok (r.0, Response.res_bool (some r.1))

  answer_reset : {C : Type 0} → (C → S → Result S) → Option C → S → Result (S × Response)
  answer_reset run c s =
      used c >>= λ counter. run counter s >>= λ s'. ok (s', Response.res_bool (some true))

  -- `COUNTER_COMMAND_HAS`
  has_value : CounterCpus S → ValueType → Option Bool
  has_value c ValueType.cores = some c.has_joules_cores
  has_value c ValueType.graphic = some c.has_joules_graphic
  has_value c ValueType.dram = some c.has_joules_dram
  has_value c _ = none

  -- The loop of `COUNTER_COMMAND_GET` for the CPUs.
  results_loop : CounterCpus S → S → List ℕ → Result (S × List CpuResult)
  results_loop c s [] = ok (s, [])
  results_loop c s (id ∷ ids) = c.get_joules_components s id >>= λ read.
      results_loop c read.0 ids >>= λ rest.
      ok (rest.0, record { cpuid = id; joules = read.1 } ∷ rest.1)

  answer_get : Option (Counter S) → S → Result (S × Response)
  answer_get c s =
      used c >>= λ counter. counter.get_joules s >>= λ r. ok (r.0, Response.res_get_generic r.1)

  -- The requests about the CPUs.
  process_cpus : Energy S → S → ValueType → Command → Result (S × Response)
  process_cpus e s subtype Command.init = answer_init (λ c. c.init) e.counter_cpus s
  process_cpus e s subtype Command.reset = answer_reset (λ c. c.reset) e.counter_cpus s
  process_cpus e s subtype Command.has =
      used e.counter_cpus >>= λ c. ok (s, Response.res_bool (has_value c subtype))
  process_cpus e s subtype Command.get = used e.counter_cpus >>= λ c.
      results_loop c s c.cpus >>= λ r. ok (r.0, Response.res_get_cpu r.1)

  -- The requests about another counter; none where `processMessage` returns false.
  process_other : Option (Counter S) → S → Command → Option (Result (S × Response))
  process_other c s Command.init = some (answer_init (λ x. x.init) c s)
  process_other c s Command.reset = some (answer_reset (λ x. x.reset) c s)
  process_other c s Command.get = some (answer_get c s)
  process_other c s Command.has = none

  process_type : Energy S → S → CounterType → ValueType → Command → Option (Result (S × Response))
  process_type e s CounterType.counter_cpus subtype cmd = some (process_cpus e s subtype cmd)
  process_type e s CounterType.counter_memory subtype cmd = process_other e.counter_memory s cmd
  process_type e s CounterType.counter_plug subtype cmd = process_other e.counter_plug s cmd

  -- `Energy::processMessage`
  pub process_message : Energy S → S → CounterReq → Option (Result (S × Response))
  process_message e s r = process_type e s r.type r.subtype r.cmd
