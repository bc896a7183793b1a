-- ===== src/Topology/Remote/Process/Levels.antt =====
-- The loop over the idle levels of a core: with distinct identifiers it does one operation.
use mammut.Common.{
  ℕ, zero, suc, ◌+◌, ◌≡◌, refl, subst, inl, inr, true, false, some, List, [], ◌∷◌, get_elem?, ◌==◌,
  ==_self, ==_false, Bool, Result, Result-cases, ok, ◌>>=◌, arith,
}
use mathlib.Core.Option.{some-injective}
use mammut.Utils.Vectors.{contains, Distinct}
use mammut.Topology.Messages.{Response}
use mammut.Topology.Remote.Process.{level_loop, process_idle_level}

contains-get_elem? : (ls : List ℕ) (k id : ℕ) → get_elem? ls k ≡ some id → contains ls id ≡ true
unfolding contains
contains-get_elem? [] k id e = cc
contains-get_elem? (l ∷ ls) zero id e = let q : l ≡ id = some-injective _ _ e in ground (arith, q)
contains-get_elem? (l ∷ ls) (suc k) id e = ground (arith, contains-get_elem? ls k id e)

apart : (l : ℕ) (test : ℕ → Bool) {id : ℕ} → test l ≡ false → test id ≡ true → (l == id) ≡ false
apart l test {id} fresh there = ==_false l id (λ e. absurd cc)

module _ {S Time : Type 0} (op : S → ℕ → Result (S × Response Time)) (id : ℕ) where
  pub level_loop-absent :
      (ls : List ℕ) (i : ℕ) (s : S) (res : Response Time)
      → contains ls id ≡ false
      → level_loop op id ls i s res ≡ ok (s, res)
  unfolding level_loop contains
  level_loop-absent [] i s res h = refl
  level_loop-absent (l ∷ ls) i s res h =
      let other : (l == id) ≡ false = ground (arith, h) in
      rw other (level_loop-absent ls (i + 1) s res (ground (arith, h)))

  after :
      (ls : List ℕ) (place : ℕ) (s : S)
      → contains ls id ≡ false
      → (op s place >>= λ done. level_loop op id ls (place + 1) done.0 done.1) ≡ op s place
  after ls place s absent = elim (Result-cases (op s place)) [
    | inl (x, e) ↦ rw e refl
    | inr (done, e) ↦ rw e (level_loop-absent ls (place + 1) done.0 done.1 absent)
  ]

  level_loop-found :
      (ls : List ℕ) (k i place : ℕ) (s : S) (res : Response Time)
      → Distinct ls
      → get_elem? ls k ≡ some id
      → place ≡ i + k
      → level_loop op id ls i s res ≡ op s place
  unfolding level_loop contains Distinct
  level_loop-found [] k i place s res d e p = cc
  level_loop-found (l ∷ ls) zero i place s res (fresh, d) e p =
      let q : l ≡ id = some-injective _ _ e in
      let here : i ≡ place = omega (arith, p) in
      let absent : contains ls id ≡ false = subst (λ x. contains ls x ≡ false) q fresh in
      rw (q, ==_self id, here) (after ls place s absent)
  level_loop-found (l ∷ ls) (suc k) i place s res (fresh, d) e p =
      let there = contains-get_elem? ls k id e in
      let other : (l == id) ≡ false = apart l (contains ls) fresh there in
      rw other (level_loop-found ls k (i + 1) place s res d e (omega (arith, p)))

  -- Where the levels have distinct identifiers, a level of them is processed once.
  pub process_idle_level-found :
      (ls : List ℕ) (k : ℕ) (s : S) (res : Response Time)
      → Distinct ls
      → get_elem? ls k ≡ some id
      → process_idle_level op id ls s res ≡ op s k
  unfolding process_idle_level
  process_idle_level-found [] k s res d e = cc
  process_idle_level-found (l ∷ ls) k s res d e =
      level_loop-found (l ∷ ls) k 0 k s res d e (omega arith)
