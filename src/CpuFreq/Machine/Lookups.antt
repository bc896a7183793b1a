-- ===== src/CpuFreq/Machine/Lookups.antt =====
-- The domains of some virtual cores.
mod Examples
use mammut.Common.{
  ℕ, zero, suc, ◌+◌, ◌≤◌, ◌<◌, ◌≡◌, refl, sym, ap, subst, inl, inr, Bool, true, false, ◌||◌, ◌∙◌,
  Option, some, none, List, [], ◌∷◌, ◌++◌, get_elem?, length, ◌==◌, ==_false, Bool-cases, All,
  if◌then◌else◌, Error, Result, Result-cases, ok-injective, ok, throw, ◌>>=◌, ◌⊎◌, arith,
}
use mathlib.Core.Option.{some-injective}
use mammut.Utils.Vectors.{contains, Distinct}
use mammut.Utils.Vectors.Additions.{add, Distinct-add, contains-add}
use mammut.CpuFreq.Domain.{Domain, contains_core}
use mammut.CpuFreq.Machine.{get_domain, domains_loop, get_domains}

-- The first domain that has the core, at the place `i` and at no earlier one.
pub record FirstWith (ds : List Domain) (core i : ℕ) : Type 0 where
  pub domain : Domain
  pub here : get_elem? ds i ≡ some domain
  pub has : contains_core domain core ≡ true
  pub earlier :
      (j : ℕ) → j < i → (d : Domain) → get_elem? ds j ≡ some d → contains_core d core ≡ false

no_earlier :
    (d : Domain) (ds : List Domain) (core : ℕ) (k : ℕ)
    → contains_core d core ≡ false
    → ((j : ℕ) → j < k → (d' : Domain) → get_elem? ds j ≡ some d' → contains_core d' core ≡ false)
    → (j : ℕ) → j < suc k
    → (d' : Domain) → get_elem? (d ∷ ds) j ≡ some d'
    → contains_core d' core ≡ false
no_earlier d ds core k h later zero lt d' e =
    ap (λ x. contains_core x core) (sym (some-injective _ _ e)) ∙ h
no_earlier d ds core k h later (suc j) lt d' e = later j (omega arith) d' e

get_domain-from :
    (ds : List Domain) (i core place : ℕ)
    → get_domain ds i core ≡ ok place
    → (k : ℕ) × (place ≡ i + k) × FirstWith ds core k
unfolding get_domain
get_domain-from [] i core place e = cc
get_domain-from (d ∷ ds) i core place e = elim (Bool-cases (contains_core d core)) [
  | inl h ↦ (
    zero,
    omega (arith, ok-injective (rw h at e)),
    record { domain = d; here = refl; has = h; earlier = λ j lt. absurd (omega arith) },
  )
  | inr h ↦
      let (k, p, first) = get_domain-from ds (suc i) core place (rw h at e) in
      (
        suc k,
        omega (arith, p),
        record {
          domain = first.domain;
          here = first.here;
          has = first.has;
          earlier = no_earlier d ds core k h first.earlier;
        },
      )
]

-- The places found so far are distinct, and each is that of the first domain with one of the cores.
pub record Collected (ds : List Domain) (cores r : List ℕ) : Type 0 where
  pub distinct : Distinct r
  pub from_cores :
      (i : ℕ)
      → contains r i ≡ true
      → (core : ℕ) × (contains cores core ≡ true) × FirstWith ds core i

Collected-add :
    (ds : List Domain) (cores r : List ℕ) (core i : ℕ)
    → Collected ds cores r
    → contains cores core ≡ true
    → FirstWith ds core i
    → Collected ds cores (add r i)
Collected-add ds cores r core i c has first = record {
  distinct = Distinct-add r i c.distinct;
  from_cores = λ v h. elim (Bool-cases (contains r v)) [
    | inl q ↦ c.from_cores v q
    | inr q ↦ (core, has, subst (FirstWith ds core) (ground (arith, contains-add r i v)) first)
  ];
}

domains_loop-lem :
    (ds : List Domain) (all r cores r' : List ℕ)
    → domains_loop ds r cores ≡ ok r'
    → ((core : ℕ) → contains cores core ≡ true → contains all core ≡ true)
    → Collected ds all r
    → Collected ds all r'
      × ((v : ℕ) → contains r v ≡ true → contains r' v ≡ true)
      × All (λ core. (i : ℕ) × (contains r' i ≡ true) × FirstWith ds core i) cores
unfolding domains_loop contains
domains_loop-lem ds all r [] r' e sub c =
    let q = ok-injective e in (subst (Collected ds all) q c, λ v h. rw q at h, tt)
domains_loop-lem ds all r (core ∷ cores) r' e sub c = elim (Result-cases (get_domain ds 0 core)) [
  | inl (x, h) ↦ let q = rw h at e in absurd cc
  | inr (i, h) ↦
      let (k, p, first) = get_domain-from ds 0 core i h in
      let here : FirstWith ds core i = subst (FirstWith ds core) (omega (arith, p)) first in
      let head : contains all core ≡ true = sub core (ground arith) in
      let (c', keeps, others) =
        domains_loop-lem ds all (add r i) cores r' (rw h at e) (λ v q. sub v (ground arith))
          (Collected-add ds all r core i c head here) in
      (
        c',
        λ v q. keeps v (ground (arith, contains-add r i v)),
        ((i, keeps i (ground (arith, contains-add r i i)), here), others),
      )
]

-- Where `getDomains` for some virtual cores returns, its domains are distinct, each of them is the
-- first domain that has one of the cores, and the first domain of each of the cores is among them.
pub get_domains_lem :
    (ds : List Domain) (cores r : List ℕ)
    → get_domains ds cores ≡ ok r
    → Collected ds cores r
      × All (λ core. (i : ℕ) × (contains r i ≡ true) × FirstWith ds core i) cores
unfolding get_domains contains Distinct
get_domains_lem ds cores r e =
    let (c, keeps, found) = domains_loop-lem ds cores [] cores r e (λ core h. h) none_yet in
    (c, found)
  where
    none_yet : Collected ds cores []
    none_yet = record { distinct = tt; from_cores = λ i h. cc }
