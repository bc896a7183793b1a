-- ===== src/CpuFreq/Remote/Process/Refinement.antt =====
-- A remote domain against the domain of the server: DomainRemote over `processMessage`.
use mammut.Common.{
  ℕ, ◌≡◌, refl, inl, inr, Bool, true, some, none, List, get_elem?, set, Error, Result, Result-cases,
  ok, throw, ◌>>=◌,
}
use mammut.Common.Int.{ℤ}
use mammut.CpuFreq.Domain.{
  Governor, Files, Domain, remove_turbo_frequencies, get_current_governor,
  get_current_frequency_userspace, set_frequency_userspace, get_current_governor_bounds,
  set_governor_bounds, set_governor,
}
use mammut.CpuFreq.Machine.{
  Voltage, Platform, Machine, get_current_frequency, get_hardware_frequency_bounds,
  get_transition_latency, get_current_voltage,
}
use mammut.CpuFreq.Remote.{
  Response, DomainRemote, as_void, as_result, as_frequency, as_frequencies, as_governors,
  as_governor, as_hardware_bounds, as_governor_bounds, as_int, as_double,
  remote_remove_turbo_frequencies, remote_reinsert_turbo_frequencies,
  remote_get_available_governors, remote_frequency, remote_get_current_frequency,
  remote_get_current_frequency_userspace, remote_get_current_governor,
  remote_set_frequency_userspace, remote_get_hardware_frequency_bounds,
  remote_get_current_governor_bounds, remote_set_governor_bounds, remote_set_governor,
  remote_get_transition_latency, remote_get_current_voltage,
}
use mammut.Server.{client_error, told}
use mammut.CpuFreq.Remote.Process.{
  at, put_domain, put_store, answered, process_module, process_reads, process_writes, or_else,
  process_message, call,
}

-- The operations of class Domain that both classes have, with what each of them returns.
pub data Op : Type 0 where
  remove_turbo : Op
  governors : Op
  frequency : Op
  frequency_userspace : Op
  governor : Op
  set_frequency : ℕ → Op
  hardware_bounds : Op
  governor_bounds : Op
  set_bounds : ℕ → ℕ → Op
  set_to_governor : Governor → Op
  latency : Op
  voltage : Op

abbrev pub Answer : Op → Type 0
Answer Op.remove_turbo = Unit
Answer Op.governors = List Governor
Answer Op.frequency = ℕ
Answer Op.frequency_userspace = ℕ
Answer Op.governor = Governor
Answer (Op.set_frequency _) = Bool
Answer Op.hardware_bounds = ℕ × ℕ
Answer Op.governor_bounds = Bool × ℕ × ℕ
Answer (Op.set_bounds _ _) = Bool
Answer (Op.set_to_governor _) = Bool
Answer Op.latency = ℤ
Answer Op.voltage = Voltage

unfoldable pub stored : {S : Type 0} → Machine S → S × Bool → Result (Machine S × Bool)
stored m (s, b) = ok (record m { store = s }, b)

-- What the client decodes is what the local operation goes on to, where it is so for each result.
relay :
    {A B W : Type 0} (r : Result A) (k : A → Result (W × Response)) (k' : A → Result B)
    (decode : W × Response → Result B)
    → ((a : A) → (told (k a) >>= decode) ≡ told (k' a))
    → (told (r >>= k) >>= decode) ≡ told (r >>= k')
unfolding told
relay (ok a) k k' decode h = h a
relay (throw e) k k' decode h = refl

module _ {S : Type 0} (files : Files S) (platform : Platform S) where
  -- The operation on the domain of the server, at the place `id` of its domains.
  unfoldable pub local_run : (op : Op) → Machine S → ℕ → Domain → Result (Machine S × Answer op)
  local_run Op.remove_turbo m id d =
      remove_turbo_frequencies d >>= λ d'. ok (record m { domains = set m.domains id d' }, tt)
  local_run Op.governors m id d = ok (m, d.available_governors)
  local_run Op.frequency m id d = get_current_frequency platform m.store d >>= λ x. ok (m, x)
  local_run Op.frequency_userspace m id d =
      get_current_frequency_userspace files m.store d >>= λ x. ok (m, x)
  local_run Op.governor m id d = get_current_governor files m.store d >>= λ g. ok (m, g)
  local_run (Op.set_frequency x) m id d = set_frequency_userspace files m.store d x >>= stored m
  local_run Op.hardware_bounds m id d =
      get_hardware_frequency_bounds platform m.store d >>= λ bounds. ok (m, bounds)
  local_run Op.governor_bounds m id d =
      get_current_governor_bounds files m.store d >>= λ bounds. ok (m, (true, bounds.0, bounds.1))
  local_run (Op.set_bounds lower upper) m id d =
      set_governor_bounds files m.store d lower upper >>= stored m
  local_run (Op.set_to_governor g) m id d = set_governor files m.store d g >>= stored m
  local_run Op.latency m id d = ok (m, get_transition_latency platform m.store d)
  local_run Op.voltage m id d = ok (m, get_current_voltage platform m.store d)

  -- The operation on a remote domain.
  pub remote_run : (op : Op) → Machine S → DomainRemote → Result (Machine S × Answer op)
  remote_run Op.remove_turbo m r =
      remote_remove_turbo_frequencies (call files platform) m r >>= λ m'. ok (m', tt)
  remote_run Op.governors m r = remote_get_available_governors (call files platform) m r
  remote_run Op.frequency m r = remote_get_current_frequency (call files platform) m r
  remote_run Op.frequency_userspace m r =
      remote_get_current_frequency_userspace (call files platform) m r
  remote_run Op.governor m r = remote_get_current_governor (call files platform) m r
  remote_run (Op.set_frequency x) m r = remote_set_frequency_userspace (call files platform) m r x
  remote_run Op.hardware_bounds m r = remote_get_hardware_frequency_bounds (call files platform) m r
  remote_run Op.governor_bounds m r = remote_get_current_governor_bounds (call files platform) m r
  remote_run (Op.set_bounds lower upper) m r =
      remote_set_governor_bounds (call files platform) m r lower upper
  remote_run (Op.set_to_governor g) m r = remote_set_governor (call files platform) m r g
  remote_run Op.latency m r = remote_get_transition_latency (call files platform) m r
  remote_run Op.voltage m r = remote_get_current_voltage (call files platform) m r

  -- The removal of turbo frequencies, the list of governors, the frequency of both kinds, the
  -- governor, setting a frequency, the bounds of the hardware and of the governor, setting bounds,
  -- setting a governor, the latency and the voltage of a remote domain each do to the server's
  -- machine and answer what the operation on the domain at that place does; an exception arrives as an answered exception, and as a closed connection where the
  -- local operation throws `std::out_of_range`.
  pub remote_run-local_run :
      (op : Op) (m : Machine S) (r : DomainRemote) (d : Domain)
      → get_elem? m.domains r.identifier ≡ some d
      → remote_run op m r ≡ told (local_run op m r.identifier d)
  unfolding remote_run local_run call process_message process_module process_reads process_writes
      or_else at answered put_domain put_store stored told as_void as_result as_frequencies
      as_governors as_frequency as_governor as_hardware_bounds as_governor_bounds as_int as_double
      remote_remove_turbo_frequencies remote_get_available_governors remote_frequency
      remote_get_current_frequency remote_get_current_frequency_userspace
      remote_get_current_governor remote_set_frequency_userspace
      remote_get_hardware_frequency_bounds remote_get_current_governor_bounds
      remote_set_governor_bounds remote_set_governor remote_get_transition_latency
      remote_get_current_voltage
  remote_run-local_run Op.remove_turbo m r d e = elim (Result-cases (remove_turbo_frequencies d)) [
    | inl (x, p) ↦ rw (e, p) refl
    | inr (d', p) ↦ rw (e, p) refl
  ]
  remote_run-local_run Op.governors m r d e = rw e refl
  remote_run-local_run Op.frequency m r d e =
      rw e (relay (get_current_frequency platform m.store d) _ _ as_frequency (λ x. refl))
  remote_run-local_run Op.frequency_userspace m r d e =
      rw e (relay (get_current_frequency_userspace files m.store d) _ _ as_frequency (λ x. refl))
  remote_run-local_run Op.governor m r d e =
      rw e (relay (get_current_governor files m.store d) _ _ as_governor (λ g. refl))
  remote_run-local_run (Op.set_frequency x) m r d e =
      rw e (relay (set_frequency_userspace files m.store d x) _ _ as_result (λ p. refl))
  remote_run-local_run Op.hardware_bounds m r d e = rw e (
      relay (get_hardware_frequency_bounds platform m.store d) _ _ as_hardware_bounds
        (λ bounds. refl))
  remote_run-local_run Op.governor_bounds m r d e =
      rw e (
        relay (get_current_governor_bounds files m.store d) _ _ as_governor_bounds (λ bounds. refl))
  remote_run-local_run (Op.set_bounds lower upper) m r d e =
      rw e (relay (set_governor_bounds files m.store d lower upper) _ _ as_result (λ p. refl))
  remote_run-local_run (Op.set_to_governor g) m r d e =
      rw e (relay (set_governor files m.store d g) _ _ as_result (λ p. refl))
  remote_run-local_run Op.latency m r d e = rw e refl
  remote_run-local_run Op.voltage m r d e = rw e refl

  -- A remote domain's reinsertion of the turbo frequencies sends the request of their removal: on
  -- the server's machine it does what a local removal does, on any result.
  pub remote_reinsert-remove :
      (m : Machine S) (r : DomainRemote) (d : Domain)
      → get_elem? m.domains r.identifier ≡ some d
      → remote_reinsert_turbo_frequencies (call files platform) m r
        ≡ told (
            remove_turbo_frequencies d >>= λ d'.
            ok (record m { domains = set m.domains r.identifier d' }))
  unfolding call process_message process_module process_reads process_writes or_else at put_domain
      told as_void remote_reinsert_turbo_frequencies
  remote_reinsert-remove m r d e = elim (Result-cases (remove_turbo_frequencies d)) [
    | inl (x, p) ↦ rw (e, p) refl
    | inr (d', p) ↦ rw (e, p) refl
  ]

  -- A request of whatever kind about a domain that the server does not have closes the connection:
  -- `at` throws an `std::out_of_range`, which the server does not answer.
  pub remote_run-out_of_range :
      (op : Op) (m : Machine S) (r : DomainRemote)
      → get_elem? m.domains r.identifier ≡ none
      → remote_run op m r ≡ throw Error.connection_closed
  unfolding remote_run call process_message process_module process_reads process_writes or_else at
      told client_error remote_remove_turbo_frequencies remote_get_available_governors
      remote_frequency remote_get_current_frequency remote_get_current_frequency_userspace
      remote_get_current_governor remote_set_frequency_userspace
      remote_get_hardware_frequency_bounds remote_get_current_governor_bounds
      remote_set_governor_bounds remote_set_governor remote_get_transition_latency
      remote_get_current_voltage
  remote_run-out_of_range Op.remove_turbo m r e = rw e refl
  remote_run-out_of_range Op.governors m r e = rw e refl
  remote_run-out_of_range Op.frequency m r e = rw e refl
  remote_run-out_of_range Op.frequency_userspace m r e = rw e refl
  remote_run-out_of_range Op.governor m r e = rw e refl
  remote_run-out_of_range (Op.set_frequency x) m r e = rw e refl
  remote_run-out_of_range Op.hardware_bounds m r e = rw e refl
  remote_run-out_of_range Op.governor_bounds m r e = rw e refl
  remote_run-out_of_range (Op.set_bounds lower upper) m r e = rw e refl
  remote_run-out_of_range (Op.set_to_governor g) m r e = rw e refl
  remote_run-out_of_range Op.latency m r e = rw e refl
  remote_run-out_of_range Op.voltage m r e = rw e refl
