-- ===== src/CpuFreq/Remote/Process/Examples.antt =====
-- A server with one domain, whose one file is the governor.
use mammut.Common.{ℕ, ◌≡◌, refl, true, some, none, [], ◌∷◌, set, ok, ◌>>=◌}
use mammut.CpuFreq.Domain.{
  Files, Domain, remove_turbo_frequencies, set_governor, write_to_domain_files, write_loop, paths,
}
use mammut.Utils.Vectors.{contains}
use mammut.CpuFreq.Machine.{Platform, Machine}
use mammut.CpuFreq.Remote.{DomainRemote, remote_reinsert_turbo_frequencies}
use mammut.Server.{told}
use mammut.CpuFreq.Remote.Process.{call}
use mammut.CpuFreq.Remote.Process.Refinement.{
  Op, stored, local_run, remote_run, remote_run-local_run, remote_reinsert-remove,
}

abbrev one_file : Files ℕ
one_file = record { read = λ s core file. some s; write = λ s core file v. some v }

abbrev bare : Platform ℕ
bare = record {
  attribute = λ s core a. none;
  read_boost = λ s. none;
  write_boost = λ s v. none;
  perf_status = λ s core. some 9830;
  sensor = λ s. none;
}

abbrev only : Domain
only = record {
  first = 0;
  others = [];
  available_frequencies = 1200000 ∷ 2401000 ∷ [];
  turbo_frequencies = [];
  available_governors = 1 ∷ 3 ∷ [];
}

abbrev server : Machine ℕ
server = record { store = 1; domains = only ∷ [] }

abbrev stub : ℕ → DomainRemote
stub id = record { identifier = id; available_frequencies = 1200000 ∷ 2401000 ∷ [] }

remote_run-local_run_example :
    remote_run one_file bare (Op.set_to_governor 3) server (stub 0)
    ≡ told (local_run one_file bare (Op.set_to_governor 3) server 0 only)
remote_run-local_run_example =
    remote_run-local_run one_file bare (Op.set_to_governor 3) server (stub 0) only refl

remote_reinsert-remove_example :
    remote_reinsert_turbo_frequencies (call one_file bare) server (stub 0)
    ≡ told (
        remove_turbo_frequencies only >>= λ d'.
        ok (record server { domains = set server.domains 0 d' }))
remote_reinsert-remove_example = remote_reinsert-remove one_file bare server (stub 0) only refl

-- What the two runs give on this server.
governor_set :
    remote_run one_file bare (Op.set_to_governor 3) server (stub 0)
    ≡ ok (record server { store = 3 }, true)
unfolding local_run stored told set_governor write_to_domain_files write_loop paths contains
governor_set = remote_run-local_run one_file bare (Op.set_to_governor 3) server (stub 0) only refl
