-- ===== src/CpuFreq/Machine/Lookups/Examples.antt =====
-- Three cores in two domains.
use mammut.Common.{ℕ, ◌≡◌, refl, true, List, [], ◌∷◌, All}
use mammut.Utils.Vectors.{contains}
use mammut.CpuFreq.Domain.{Domain, contains_core, get_virtual_cores_identifiers}
use mammut.CpuFreq.Machine.{get_domain, domains_loop, get_domains}
use mammut.CpuFreq.Machine.Lookups.{Collected, FirstWith, get_domains_lem}

abbrev of_cores : ℕ → List ℕ → Domain
of_cores core cores = record {
  first = core;
  others = cores;
  available_frequencies = [];
  turbo_frequencies = [];
  available_governors = [];
}

abbrev two_domains : List Domain
two_domains = of_cores 0 (1 ∷ []) ∷ of_cores 2 [] ∷ []

get_domains_lem_run :
    Collected two_domains (2 ∷ 0 ∷ 1 ∷ []) (1 ∷ 0 ∷ [])
    × All
        (λ core. (i : ℕ) × (contains (1 ∷ 0 ∷ []) i ≡ true) × FirstWith two_domains core i)
        (2 ∷ 0 ∷ 1 ∷ [])
unfolding get_domains domains_loop get_domain contains_core get_virtual_cores_identifiers contains
get_domains_lem_run = get_domains_lem two_domains (2 ∷ 0 ∷ 1 ∷ []) (1 ∷ 0 ∷ []) refl
