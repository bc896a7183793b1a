-- ===== src/CpuFreq/Remote/Process.antt =====
-- `CpuFreq::processMessage` of src/cpufreq/cpufreq.cpp, on requests that are parsed already, and
-- what a client gets for it through the server of src/mammut-server.cpp.
pub mod Refinement
mod Examples
use mammut.Common.{
  ℕ, Bool, true, false, Option, some, none, List, [], ◌∷◌, get_elem?, set, Error, Result, ok, throw,
  ◌>>=◌, or_throw,
}
use mammut.CpuFreq.Domain.{
  Files, Domain, remove_turbo_frequencies, reinsert_turbo_frequencies, get_current_governor,
  get_current_frequency_userspace, set_frequency_userspace, get_current_governor_bounds,
  set_governor_bounds, set_governor,
}
use mammut.CpuFreq.Machine.{
  Platform, Machine, get_current_frequency, get_hardware_frequency_bounds, get_transition_latency,
  get_current_voltage, is_boosting_supported, is_boosting_enabled, enable_boosting,
  disable_boosting, remove_turbo_frequencies_all, reinsert_turbo_frequencies_all,
}
use mammut.Server.{told}
use mammut.CpuFreq.Remote.{Request, Response}

-- `domains.at(id)`
at : {S : Type 0} → Machine S → ℕ → Result Domain
at m id = or_throw Error.out_of_range (get_elem? m.domains id)

-- A domain's object after a call that changes it.
put_domain : {S : Type 0} → Machine S → ℕ → Domain → Machine S
put_domain m id d = record m { domains = set m.domains id d }

put_store : {S : Type 0} → Machine S → S → Machine S
put_store m s = record m { store = s }

-- `mutable_domains` of a response to which no domain was added.
domains_response : List Domain → Result Response
domains_response [] = ok (Response.get_domains_res [])
domains_response (d ∷ ds) = throw Error.uninitialised

module _ {S : Type 0} (files : Files S) (platform : Platform S) where
  answered : Machine S → S × Bool → Result (Machine S × Response)
  answered m (s, b) = ok (put_store m s, Response.result b)

  -- The messages about the whole module.
  process_module : Machine S → Request → Option (Result (Machine S × Response))
  process_module m Request.remove_turbo_frequencies = some (
      remove_turbo_frequencies_all m.domains >>= λ ds.
      ok (record m { domains = ds }, Response.result_void))
  process_module m Request.reinsert_turbo_frequencies =
      some
        (ok (record m { domains = reinsert_turbo_frequencies_all m.domains }, Response.result_void))
  process_module m Request.is_boosting_supported =
      some (ok (m, Response.result (is_boosting_supported platform m.store)))
  process_module m Request.is_boosting_enabled =
      some (ok (m, Response.result (is_boosting_enabled platform m.store)))
  process_module m Request.enable_boosting =
      some (enable_boosting platform m.store >>= λ s. ok (put_store m s, Response.result_void))
  process_module m Request.disable_boosting =
      some (disable_boosting platform m.store >>= λ s. ok (put_store m s, Response.result_void))
  process_module m Request.get_domains = some (domains_response m.domains >>= λ r. ok (m, r))
  process_module m _ = none

  -- The messages that read a domain.
  process_reads : Machine S → Request → Option (Result (Machine S × Response))
  process_reads m (Request.get_available_frequencies id) =
      some (at m id >>= λ d. ok (m, Response.get_available_frequencies_res d.available_frequencies))
  process_reads m (Request.get_available_governors id) =
      some (at m id >>= λ d. ok (m, Response.get_available_governors_res d.available_governors))
  process_reads m (Request.get_current_frequency id true) = some (
      at m id >>= λ d. get_current_frequency_userspace files m.store d >>= λ x.
      ok (m, Response.get_current_frequency_res x))
  process_reads m (Request.get_current_frequency id false) = some (
      at m id >>= λ d. get_current_frequency platform m.store d >>= λ x.
      ok (m, Response.get_current_frequency_res x))
  process_reads m (Request.get_current_governor id) = some (
      at m id >>= λ d.
      get_current_governor files m.store d >>= λ g. ok (m, Response.get_current_governor_res g))
  process_reads m (Request.get_hardware_frequency_bounds id) = some (
      at m id >>= λ d. get_hardware_frequency_bounds platform m.store d >>= λ bounds.
      ok (m, Response.get_hardware_frequency_bounds_res bounds.0 bounds.1))
  process_reads m (Request.get_governor_bounds id) = some (
      at m id >>= λ d. get_current_governor_bounds files m.store d >>= λ bounds.
      ok (m, Response.get_governor_bounds_res bounds.0 bounds.1 true))
  process_reads m (Request.get_transition_latency id) =
      some
        (at m id >>= λ d. ok (m, Response.result_int (get_transition_latency platform m.store d)))
  process_reads m (Request.get_current_voltage id) =
      some
        (at m id >>= λ d. ok (m, Response.result_double (get_current_voltage platform m.store d)))
  process_reads m _ = none

  -- The messages that change a domain.
  process_writes : Machine S → Request → Option (Result (Machine S × Response))
  process_writes m (Request.remove_turbo_frequencies_domain id) = some (
      at m id >>= λ d.
      remove_turbo_frequencies d >>= λ d'. ok (put_domain m id d', Response.result_void))
  process_writes m (Request.reinsert_turbo_frequencies_domain id) =
      some
        (at m id >>= λ d. ok (put_domain m id (reinsert_turbo_frequencies d), Response.result_void))
  process_writes m (Request.change_frequency id frequency) =
      some (at m id >>= λ d. set_frequency_userspace files m.store d frequency >>= answered m)
  process_writes m (Request.change_frequency_bounds id lower upper) =
      some (at m id >>= λ d. set_governor_bounds files m.store d lower upper >>= answered m)
  process_writes m (Request.change_governor id g) =
      some (at m id >>= λ d. set_governor files m.store d g >>= answered m)
  process_writes m _ = none

  or_else :
      Option (Result (Machine S × Response))
      → Option (Result (Machine S × Response))
      → Option (Result (Machine S × Response))
  or_else (some r) other = some r
  or_else none other = other

  -- `processMessage`; none where it returns false.
  pub process_message : Machine S → Request → Option (Result (Machine S × Response))
  process_message m request =
      or_else (process_module m request)
        (or_else (process_reads m request) (process_writes m request))

module _ {S : Type 0} (files : Files S) (platform : Platform S) where
  -- `remoteCall` of a client of a server on the machine.
  pub call : Machine S → Request → Result (Machine S × Response)
  call m request = elim (process_message files platform m request) [
    | none ↦ throw Error.remote_exception
    | some r ↦ told r
  ]
