-- ===== src/CpuFreq/Domain/Examples.antt =====
-- A domain with one turbo frequency.
use mammut.Common.{◌≡◌, refl, [], ◌∷◌, ok}
use mammut.CpuFreq.Domain.{
  Domain, digits, is_turbo, remove_turbo_frequencies, reinsert_turbo_frequencies,
}
use mammut.CpuFreq.Domain.Turbo.{reinsert-remove_turbo_frequencies}

abbrev turbo_domain : Domain
turbo_domain = record {
  first = 0;
  others = [];
  available_frequencies = 1200000 ∷ 2400000 ∷ 2401000 ∷ [];
  turbo_frequencies = [];
  available_governors = 3 ∷ [];
}

reinsert-remove_turbo_frequencies_example :
    (d' : Domain) × (remove_turbo_frequencies turbo_domain ≡ ok d')
    × (d'.available_frequencies ≡ 1200000 ∷ 2400000 ∷ [])
    × (d'.turbo_frequencies ≡ 2401000 ∷ [])
    × (remove_turbo_frequencies d' ≡ ok d')
    × (reinsert_turbo_frequencies d' ≡ turbo_domain)
unfolding is_turbo digits
reinsert-remove_turbo_frequencies_example =
    reinsert-remove_turbo_frequencies turbo_domain (1200000 ∷ 2400000 ∷ []) (2401000 ∷ []) refl refl
      (refl, (refl, tt)) (refl, tt)
