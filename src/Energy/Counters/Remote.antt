-- ===== src/Energy/Counters/Remote.antt =====
-- The remote counters of src/energy/energy-remote.cpp and the remote constructor of class Energy of
-- src/energy/energy.cpp. `Communicator::remoteCall` on a world `W` is the parameter `call`.
pub mod Serves
mod Examples
use mammut.Common.{
  ℕ, Bool, true, false, Option, some, none, List, [], ◌∷◌, ◌==◌, if◌then◌else◌, Error, Result, ok,
  throw, ◌>>=◌, or_throw,
}
use mammut.Energy.Msr.{JoulesCpu}
use mammut.Energy.Counters.{
  plus, no_joules, CounterType, ValueType, Command, CounterReq, CpuResult, Response,
}

-- The answers that a remote counter expects; a boolean that was left out cannot be parsed.
as_bool : {W : Type 0} → W × Response → Result (W × Bool)
as_bool (w, Response.res_bool (some b)) = ok (w, b)
as_bool (w, Response.res_bool none) = throw Error.unparsable
as_bool (w, _) = throw Error.message_mismatch

as_joules : {W : Type 0} → W × Response → Result (W × ℕ)
as_joules (w, Response.res_get_generic j) = ok (w, j)
as_joules (w, _) = throw Error.message_mismatch

as_results : {W : Type 0} → W × Response → Result (W × List CpuResult)
as_results (w, Response.res_get_cpu rs) = ok (w, rs)
as_results (w, _) = throw Error.message_mismatch

-- The loop of `getJoulesComponents()`.
sum_results : JoulesCpu → List CpuResult → JoulesCpu
sum_results jc [] = jc
sum_results jc (r ∷ rs) = sum_results (plus jc r.joules) rs

-- The loop of `getJoulesComponents(cpuId)`.
find_result : ℕ → JoulesCpu → List CpuResult → JoulesCpu
find_result id jc [] = jc
find_result id jc (r ∷ rs) = find_result id (if r.cpuid == id then r.joules else jc) rs

request : CounterType → Command → CounterReq
request type cmd = record { type = type; subtype = ValueType.all; cmd = cmd }

-- A CounterCpusRemote: what it was told when it was made.
pub record CpusRemote : Type 0 where
  pub has_cores : Bool
  pub has_graphic : Bool
  pub has_dram : Bool

-- A remote Energy: the counters that it made.
pub record EnergyRemote : Type 0 where
  pub plug : Bool
  pub memory : Bool
  pub cpus : Option CpusRemote

module _ {W : Type 0} (call : W → CounterReq → Result (W × Response)) where
  -- `init`, `reset` and `getJoules` of CounterPlugRemote and CounterMemoryRemote, and the first two
  -- of CounterCpusRemote, each with its type.
  pub remote_init : CounterType → W → Result (W × Bool)
  remote_init type w = call w (request type Command.init) >>= as_bool

  pub remote_reset : CounterType → W → Result W
  remote_reset type w = call w (request type Command.reset) >>= as_bool >>= λ r. ok r.0

  pub remote_get_joules : CounterType → W → Result (W × ℕ)
  remote_get_joules type w = call w (request type Command.get) >>= as_joules

  has_request : W → ValueType → Result (W × Bool)
  has_request w value =
      call w (record { type = CounterType.counter_cpus; subtype = value; cmd = Command.has })
      >>= as_bool

  -- The constructor of CounterCpusRemote.
  pub create_cpus : W → Result (W × CpusRemote)
  create_cpus w = has_request w ValueType.cores >>= λ a. has_request a.0 ValueType.graphic >>= λ b.
      has_request b.0 ValueType.dram >>= λ c.
      ok (c.0, record { has_cores = a.1; has_graphic = b.1; has_dram = c.1 })

  -- `getJoulesComponents()`
  pub remote_get_joules_components : W → Result (W × JoulesCpu)
  remote_get_joules_components w =
      call w (request CounterType.counter_cpus Command.get) >>= as_results >>= λ r.
      ok (r.0, sum_results no_joules r.1)

  -- `getJoulesComponents(cpuId)`
  pub remote_get_joules_components_of : W → ℕ → Result (W × JoulesCpu)
  remote_get_joules_components_of w id =
      call w (request CounterType.counter_cpus Command.get) >>= as_results >>= λ r.
      ok (r.0, find_result id no_joules r.1)

  created_plug : W → Result (W × Bool)
  created_plug w = remote_init CounterType.counter_plug w >>= λ r.
      (if r.1
        then (remote_reset CounterType.counter_plug r.0 >>= λ w'. ok (w', true))
        else ok (r.0, false))

  created_cpus : W → Result (W × Option CpusRemote)
  created_cpus w = create_cpus w >>= λ c.
      remote_init CounterType.counter_cpus c.0 >>= λ r. ok (r.0, if r.1 then some c.1 else none)

  -- `Energy(communicator)`
  pub create : W → Result (W × EnergyRemote)
  create w = created_plug w >>= λ p. remote_init CounterType.counter_memory p.0 >>= λ m.
      created_cpus m.0 >>= λ c. ok (c.0, record { plug = p.1; memory = m.1; cpus = c.1 })
