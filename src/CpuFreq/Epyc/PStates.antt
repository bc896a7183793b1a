-- ===== src/CpuFreq/Epyc/PStates.antt =====
-- Setting a frequency of an Epyc and reading it back.
use mammut.Common.{
  ℕ, zero, suc, ◌+◌, ◌-◌, ◌^◌, ◌≤◌, ◌<◌, ◌≡◌, refl, sym, ap, ap₂, ◌∙◌, inl, inr, true, Bool-cases,
  some, none, List, [], ◌∷◌, ◌++◌, length, get_elem?, ◌==◌, ==_iff, ok, arith,
}
use mathlib.Core.List.{append-nil, append_assoc}
use native.Mathlib.Decide.{ℕ_discrete}
use mammut.Utils.Msr.{Device, write_bits}
use mammut.Utils.Msr.Fields.{
  IsWritable, write_bits-returns, read_bits-write_bits, read_bits-write_bits_other,
}
use mammut.CpuFreq.Domain.{Domain}
use mammut.CpuFreq.Epyc.{
  pstate_def, pstate_control, frequency_of, push_back, position, pstate_frequency, pstates_loop,
  create_epyc, accepted, get_current_epyc_pstate, epyc_get_current_frequency_userspace, select,
  epyc_set_frequency_userspace,
}

-- The frequencies of the P-states below `n`, the highest P-state first.
descending : (ℕ → ℕ) → ℕ → List ℕ
descending frequency zero = []
descending frequency (suc n) = frequency n ∷ descending frequency n

length-descending : (frequency : ℕ → ℕ) (n : ℕ) → length (descending frequency n) ≡ n
unfolding descending
length-descending frequency zero = refl
length-descending frequency (suc n) = ap suc (length-descending frequency n)

get_elem?-descending :
    (frequency : ℕ → ℕ) (n j : ℕ)
    → j < n
    → get_elem? (descending frequency n) j ≡ some (frequency (n - 1 - j))
unfolding descending
get_elem?-descending frequency zero j h = elim h [ ]
get_elem?-descending frequency (suc n) zero h = ap (λ (i : ℕ). some (frequency i)) (omega arith)
get_elem?-descending frequency (suc n) (suc j) h =
    get_elem?-descending frequency n j (omega arith)
    ∙ ap (λ (i : ℕ). some (frequency i)) (omega arith)

-- A frequency of the list has a first position, at which it stands.
position-some :
    (x : ℕ) (xs : List ℕ) (i j : ℕ)
    → get_elem? xs j ≡ some x
    → (k : ℕ) × (position x xs i ≡ some (i + k)) × (k ≤ j) × (get_elem? xs k ≡ some x)
unfolding position
position-some x [] i j e = cc
position-some x (y ∷ ys) i zero e = (zero, ground arith, omega arith, e)
position-some x (y ∷ ys) i (suc j) e = elim (Bool-cases (x == y)) [
  | inl same ↦ (zero, rw same (ground arith), omega arith, ap some (sym ((==_iff x y).0 same)))
  | inr other ↦
      let (k, p, l, g) = position-some x ys (suc i) j e in
      (suc k, rw other (p ∙ ap some (omega arith)), omega (arith, l), g)
]

module _ (device : Device) where
  open device use {State}

  -- The loop below `n` reads the frequencies of the P-states there, where each has one.
  pstates_loop-descending :
      (s : State) (frequency : ℕ → ℕ) (n : ℕ) (acc : List ℕ)
      → ((i : ℕ) → i < n → pstate_frequency device s i ≡ some (frequency i))
      → pstates_loop device s n acc ≡ acc ++ descending frequency n
  unfolding pstates_loop push_back descending
  pstates_loop-descending s frequency zero acc defined = sym (append-nil acc)
  pstates_loop-descending s frequency (suc n) acc defined = rw (defined n (omega arith)) (
      pstates_loop-descending s frequency n (acc ++ frequency n ∷ [])
        (λ i h. defined i (omega arith))
      ∙ append_assoc acc (frequency n ∷ []) (descending frequency n))

  -- P-states without a frequency are left out.
  pstates_loop-none :
      (s : State) (m n : ℕ) (acc : List ℕ)
      → n ≤ m
      → ((i : ℕ) → n ≤ i → i < m → pstate_frequency device s i ≡ none)
      → pstates_loop device s m acc ≡ pstates_loop device s n acc
  unfolding pstates_loop push_back
  pstates_loop-none s zero n acc h undefined =
      ap (λ (k : ℕ). pstates_loop device s k acc) {x = 0} {y = n} (omega arith)
  pstates_loop-none s (suc m) n acc h undefined = elim (ℕ_discrete (suc m) n) [
    | yes e ↦ ap (λ (k : ℕ). pstates_loop device s k acc) e
    | no ne ↦
        rw (undefined m (omega arith) (omega arith))
          (pstates_loop-none s m n acc (omega arith) (λ i a b. undefined i a (omega arith)))
  ]

  -- The P-states below `n`, and no others, have frequencies.
  pub record Defined (s : State) (frequency : ℕ → ℕ) (n : ℕ) : Type 0 where
    pub below : (i : ℕ) → i < n → pstate_frequency device s i ≡ some (frequency i)
    pub above : (i : ℕ) → n ≤ i → i < 9 → pstate_frequency device s i ≡ none

  available-descending :
      (s : State) (frequency : ℕ → ℕ) (n first : ℕ) (others : List ℕ)
      → n ≤ 8
      → Defined s frequency n
      → (create_epyc device s first others).available_frequencies ≡ descending frequency n
  unfolding create_epyc
  available-descending s frequency n first others h defined =
      pstates_loop-none s 9 n [] (omega arith) defined.above
      ∙ pstates_loop-descending s frequency n [] defined.below

  set_position :
      (junk : ℕ) (s t : State) (d : Domain) (x k : ℕ)
      → position x d.available_frequencies 0 ≡ some k
      → write_bits device junk s pstate_control 2 0 (length d.available_frequencies - 1 - k)
        ≡ some t
      → epyc_set_frequency_userspace device junk s d x ≡ (t, true)
  unfolding epyc_set_frequency_userspace select accepted
  set_position junk s t d x k p w = rw (p, select, w) refl

  current_frequency :
      (t : State) (d : Domain) (x p : ℕ)
      → get_current_epyc_pstate device t ≡ p
      → p < length d.available_frequencies
      → get_elem? d.available_frequencies (length d.available_frequencies - 1 - p) ≡ some x
      → epyc_get_current_frequency_userspace device t d ≡ ok x
  unfolding epyc_get_current_frequency_userspace
  current_frequency t d x p e h g = rw e (ground (arith, g))

  -- After the control register is written, the P-state is the one that was written.
  selected :
      (junk : ℕ) (s t : State) (p : ℕ)
      → junk < 2 ^ 64
      → p < 8
      → write_bits device junk s pstate_control 2 0 p ≡ some t
      → get_current_epyc_pstate device t ≡ p
  unfolding get_current_epyc_pstate
  selected junk s t p hj hp w =
      rw
        (
          read_bits-write_bits device junk s t pstate_control 2 0 p hj (omega arith) (omega arith)
              w,
          get_current_epyc_pstate,
        )
        (omega arith)

  -- And every P-state has the frequency that it had.
  pstate_frequency-written :
      (junk : ℕ) (s t : State) (p i : ℕ)
      → junk < 2 ^ 64
      → write_bits device junk s pstate_control 2 0 p ≡ some t
      → pstate_frequency device t i ≡ pstate_frequency device s i
  unfolding pstate_frequency
  pstate_frequency-written junk s t p i hj w =
      let other =
        read_bits-write_bits_other device junk s t pstate_control 2 0 p hj (omega arith)
          (omega arith) w in
      ap₂ frequency_of (other (pstate_def + i) 7 0 (omega arith))
        (other (pstate_def + i) 13 8 (omega arith))

  -- What is set where the frequency's first position is `i`.
  set_at :
      (junk : ℕ) (s : State) (d : Domain) (frequency : ℕ → ℕ) (n i x : ℕ)
      → junk < 2 ^ 64
      → n ≤ 8
      → Defined s frequency n
      → IsWritable device pstate_control
      → d.available_frequencies ≡ descending frequency n
      → i < n
      → position x (descending frequency n) 0 ≡ some i
      → get_elem? (descending frequency n) i ≡ some x
      → (t : State) × (epyc_set_frequency_userspace device junk s d x ≡ (t, true))
        × (pstate_frequency device t (get_current_epyc_pstate device t) ≡ some x)
        × (epyc_get_current_frequency_userspace device t d ≡ ok x)
  set_at junk s d frequency n i x hj hn defined writable listed hi p g =
      let size : length d.available_frequencies ≡ n =
        ap length listed ∙ length-descending frequency n in
      let (t, w) = write_bits-returns device junk s pstate_control 2 0 (n - 1 - i) writable hj in
      let now : get_current_epyc_pstate device t ≡ n - 1 - i =
        selected junk s t (n - 1 - i) hj (omega arith) w in
      (
        t,
        set_position junk s t d x i (rw listed p) (rw size w),
        rw now (
            pstate_frequency-written junk s t (n - 1 - i) (n - 1 - i) hj w
            ∙ defined.below (n - 1 - i) (omega arith)
            ∙ sym (get_elem?-descending frequency n i hi)
            ∙ g),
        current_frequency t d x (n - 1 - i) now (omega (arith, size)) (
            rw (size, listed)
              (ap (λ (j : ℕ). get_elem? (descending frequency n) j) (omega arith) ∙ g)),
      )

  -- On an Epyc whose first `n` P-states, at most 8, have frequencies and the others none, and whose
  -- control register takes every write: in the domain that the constructor makes, setting the
  -- frequency of a P-state `k` returns true. It selects a P-state whose register has that frequency,
  -- and the current frequency is that frequency then.
  pub get_frequency-set_frequency :
      (junk : ℕ) (s : State) (frequency : ℕ → ℕ) (n k first : ℕ) (others : List ℕ)
      → junk < 2 ^ 64
      → n ≤ 8
      → Defined s frequency n
      → IsWritable device pstate_control
      → k < n
      → (t : State) × (epyc_set_frequency_userspace device junk s
            (create_epyc device s first others)
            (frequency k)
          ≡ (t, true))
        × (pstate_frequency device t (get_current_epyc_pstate device t) ≡ some (frequency k))
        × (epyc_get_current_frequency_userspace device t (create_epyc device s first others)
            ≡ ok (frequency k))
  get_frequency-set_frequency junk s frequency n k first others hj hn defined writable hk =
      let (i, p, le, g) = position-some (frequency k) (descending frequency n) 0 (n - 1 - k) (
        get_elem?-descending frequency n (n - 1 - k) (omega arith)
        ∙ ap (λ (j : ℕ). some (frequency j)) (omega arith)) in
      set_at junk s (create_epyc device s first others) frequency n i (frequency k) hj hn defined
        writable (available-descending s frequency n first others hn defined) (omega (arith, le))
        (p ∙ ap some (omega arith)) g
