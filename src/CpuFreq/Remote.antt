-- ===== src/CpuFreq/Remote.antt =====
-- The classes DomainRemote and CpuFreqRemote of src/cpufreq/cpufreq-remote.cpp over the messages of
-- src/cpufreq/cpufreq-remote.proto. `Communicator::remoteCall` on a world `W` is the parameter
-- `call`.
pub mod Process
pub mod Domains
use mammut.Common.{ℕ, Bool, true, false, List, Error, Result, ok, throw, ◌>>=◌}
use mammut.Common.Int.{ℤ}
use mammut.CpuFreq.Domain.{Governor}
use mammut.CpuFreq.Machine.{Voltage}

-- The request messages.
pub data Request : Type 0 where
  get_domains : Request
  is_boosting_supported : Request
  remove_turbo_frequencies : Request
  remove_turbo_frequencies_domain : ℕ → Request
  reinsert_turbo_frequencies : Request
  reinsert_turbo_frequencies_domain : ℕ → Request
  is_boosting_enabled : Request
  enable_boosting : Request
  disable_boosting : Request
  get_available_frequencies : ℕ → Request
  get_available_governors : ℕ → Request
  get_current_frequency : ℕ → Bool → Request
  get_current_governor : ℕ → Request
  change_frequency : ℕ → ℕ → Request
  get_hardware_frequency_bounds : ℕ → Request
  get_governor_bounds : ℕ → Request
  change_frequency_bounds : ℕ → ℕ → ℕ → Request
  change_governor : ℕ → Governor → Request
  get_transition_latency : ℕ → Request
  get_current_voltage : ℕ → Request

-- The response messages.
pub data Response : Type 0 where
  get_domains_res : List (ℕ × List ℕ) → Response
  get_available_frequencies_res : List ℕ → Response
  get_available_governors_res : List Governor → Response
  get_current_frequency_res : ℕ → Response
  get_current_governor_res : Governor → Response
  get_hardware_frequency_bounds_res : ℕ → ℕ → Response
  get_governor_bounds_res : ℕ → ℕ → Bool → Response
  result_void : Response
  result : Bool → Response
  result_int : ℤ → Response
  result_double : Voltage → Response

-- A DomainRemote: its identifier, and the frequencies it was given when it was made.
pub record DomainRemote : Type 0 where
  pub identifier : ℕ
  pub available_frequencies : List ℕ

-- `remoteCall` throws where the response is of another type than the one expected.
unfoldable pub as_void : {W : Type 0} → W × Response → Result W
as_void (w, Response.result_void) = ok w
as_void (w, _) = throw Error.message_mismatch

unfoldable pub as_result : {W : Type 0} → W × Response → Result (W × Bool)
as_result (w, Response.result b) = ok (w, b)
as_result (w, _) = throw Error.message_mismatch

as_frequencies : {W : Type 0} → W × Response → Result (W × List ℕ)
as_frequencies (w, Response.get_available_frequencies_res fs) = ok (w, fs)
as_frequencies (w, _) = throw Error.message_mismatch

as_governors : {W : Type 0} → W × Response → Result (W × List Governor)
as_governors (w, Response.get_available_governors_res gs) = ok (w, gs)
as_governors (w, _) = throw Error.message_mismatch

as_frequency : {W : Type 0} → W × Response → Result (W × ℕ)
as_frequency (w, Response.get_current_frequency_res x) = ok (w, x)
as_frequency (w, _) = throw Error.message_mismatch

as_governor : {W : Type 0} → W × Response → Result (W × Governor)
as_governor (w, Response.get_current_governor_res g) = ok (w, g)
as_governor (w, _) = throw Error.message_mismatch

as_hardware_bounds : {W : Type 0} → W × Response → Result (W × (ℕ × ℕ))
as_hardware_bounds (w, Response.get_hardware_frequency_bounds_res lower upper) =
    ok (w, (lower, upper))
as_hardware_bounds (w, _) = throw Error.message_mismatch

as_governor_bounds : {W : Type 0} → W × Response → Result (W × (Bool × ℕ × ℕ))
as_governor_bounds (w, Response.get_governor_bounds_res lower upper b) = ok (w, (b, lower, upper))
as_governor_bounds (w, _) = throw Error.message_mismatch

as_int : {W : Type 0} → W × Response → Result (W × ℤ)
as_int (w, Response.result_int n) = ok (w, n)
as_int (w, _) = throw Error.message_mismatch

as_double : {W : Type 0} → W × Response → Result (W × Voltage)
as_double (w, Response.result_double v) = ok (w, v)
as_double (w, _) = throw Error.message_mismatch

module _ {W : Type 0} (call : W → Request → Result (W × Response)) where
  -- The constructor of DomainRemote.
  pub create : W → ℕ → Result (W × DomainRemote)
  create w id = call w (Request.get_available_frequencies id) >>= as_frequencies >>= λ got.
      ok (got.0, record { identifier = id; available_frequencies = got.1 })

  pub remote_remove_turbo_frequencies : W → DomainRemote → Result W
  remote_remove_turbo_frequencies w d =
      call w (Request.remove_turbo_frequencies_domain d.identifier) >>= as_void

  pub remote_reinsert_turbo_frequencies : W → DomainRemote → Result W
  remote_reinsert_turbo_frequencies w d =
      call w (Request.remove_turbo_frequencies_domain d.identifier) >>= as_void

  pub remote_get_available_governors : W → DomainRemote → Result (W × List Governor)
  remote_get_available_governors w d =
      call w (Request.get_available_governors d.identifier) >>= as_governors

  -- `getCurrentFrequency(userspace)`
  remote_frequency : W → DomainRemote → Bool → Result (W × ℕ)
  remote_frequency w d userspace =
      call w (Request.get_current_frequency d.identifier userspace) >>= as_frequency

  pub remote_get_current_frequency : W → DomainRemote → Result (W × ℕ)
  remote_get_current_frequency w d = remote_frequency w d false

  pub remote_get_current_frequency_userspace : W → DomainRemote → Result (W × ℕ)
  remote_get_current_frequency_userspace w d = remote_frequency w d true

  pub remote_get_current_governor : W → DomainRemote → Result (W × Governor)
  remote_get_current_governor w d =
      call w (Request.get_current_governor d.identifier) >>= as_governor

  pub remote_set_frequency_userspace : W → DomainRemote → ℕ → Result (W × Bool)
  remote_set_frequency_userspace w d frequency =
      call w (Request.change_frequency d.identifier frequency) >>= as_result

  pub remote_get_hardware_frequency_bounds : W → DomainRemote → Result (W × (ℕ × ℕ))
  remote_get_hardware_frequency_bounds w d =
      call w (Request.get_hardware_frequency_bounds d.identifier) >>= as_hardware_bounds

  pub remote_get_current_governor_bounds : W → DomainRemote → Result (W × (Bool × ℕ × ℕ))
  remote_get_current_governor_bounds w d =
      call w (Request.get_governor_bounds d.identifier) >>= as_governor_bounds

  pub remote_set_governor_bounds : W → DomainRemote → ℕ → ℕ → Result (W × Bool)
  remote_set_governor_bounds w d lower upper =
      call w (Request.change_frequency_bounds d.identifier lower upper) >>= as_result

  pub remote_set_governor : W → DomainRemote → Governor → Result (W × Bool)
  remote_set_governor w d g = call w (Request.change_governor d.identifier g) >>= as_result

  pub remote_get_transition_latency : W → DomainRemote → Result (W × ℤ)
  remote_get_transition_latency w d =
      call w (Request.get_transition_latency d.identifier) >>= as_int

  pub remote_get_current_voltage : W → DomainRemote → Result (W × Voltage)
  remote_get_current_voltage w d = call w (Request.get_current_voltage d.identifier) >>= as_double

  pub remote_is_boosting_supported : W → Result (W × Bool)
  remote_is_boosting_supported w = call w Request.is_boosting_supported >>= as_result

  pub remote_is_boosting_enabled : W → Result (W × Bool)
  remote_is_boosting_enabled w = call w Request.is_boosting_enabled >>= as_result

  pub remote_enable_boosting : W → Result W
  remote_enable_boosting w = call w Request.enable_boosting >>= as_void

  pub remote_disable_boosting : W → Result W
  remote_disable_boosting w = call w Request.disable_boosting >>= as_void

-- `getVoltageTable` with and without a number of virtual cores: a remote domain measures nothing.
remote_get_voltage_table_all : DomainRemote → Bool → Result (List ((ℕ × ℕ) × Voltage))
remote_get_voltage_table_all d only_physical_cores = throw Error.unsupported_remote

remote_get_voltage_table : DomainRemote → ℕ → Bool → Result (List ((ℕ × ℕ) × Voltage))
remote_get_voltage_table d num_virtual_cores only_physical_cores = throw Error.unsupported_remote
