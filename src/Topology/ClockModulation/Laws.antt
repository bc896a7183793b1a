-- ===== src/Topology/ClockModulation/Laws.antt =====
-- A duty cycle that is set is the one that is read.
use Prim.Native.Nat.{bit_and}
use native.Mathlib.Nat.{mod-eq_of_lt, mul-div_cancel_left, mul_comm}
use mammut.Common.{
  ℕ, zero, suc, ◌+◌, ◌-◌, ◌*◌, ◌/◌, ◌^◌, ◌≤◌, ◌<◌, ◌≡◌, refl, ap, sym, ◌∙◌, ◌⊎◌, inl, inr, true,
  false, [], ◌∷◌, ◌++◌, ◌==◌, arith, ok, Bool-cases, ==_false,
}
use mammut.Utils.Msr.{Device}
use mammut.Utils.Msr.Fields.{
  IsWritable, write_bits-returns, stored, read_bits-write_bits, read_bits-write_bits_apart,
  read_bits-write_bits_zero,
}
use mammut.Utils.Vectors.{contains}
use mammut.Topology.ClockModulation.{
  Table, push_values, msr_clock_modulation, init_table, write_ignoring, set_clock_modulation,
  get_clock_modulation,
}

push_values-contains :
    (left i step value : ℕ)
    → contains (push_values left i step ++ 10000 ∷ []) value ≡ true
    → (value ≡ 10000) ⊎ ((k : ℕ) × (i < k) × (k ≤ i + left) × (value ≡ step * k))
unfolding contains push_values
push_values-contains zero i step value h = inl (ground arith)
push_values-contains (suc left) i step value h = elim (Bool-cases (step * (i + 1) == value)) [
  | inl e ↦ inr (i + 1, omega arith, omega arith, ground arith)
  | inr ne ↦ elim (push_values-contains left (i + 1) step value (rw ne at h)) [
    | inl top ↦ inl top
    | inr (k, lo, hi, e) ↦ inr (k, omega arith, omega arith, e)
  ]
]

module _ (d : Device) (junk : ℕ) (small : junk < 2 ^ 64)
    (writable : IsWritable d msr_clock_modulation) where
  open d use {State}

  -- A step of the duty cycle, written with the enabling bit, reads as the same number of steps.
  partial :
      (table : Table) (s : State) (k : ℕ)
      → table.low_bit ≤ 3
      → k < 2 ^ (3 + 1 - table.low_bit)
      → get_clock_modulation d junk table
          (write_ignoring d junk table (write_ignoring d junk table s 4 4 1) 3 table.low_bit k)
        ≡ k * table.step
  unfolding get_clock_modulation write_ignoring
  partial table s k low fits =
      let (t, e) = write_bits-returns d junk s msr_clock_modulation 4 4 1 writable small in
      let (u, f) =
        write_bits-returns d junk t msr_clock_modulation 3 table.low_bit k writable small in
      let enabled =
        read_bits-write_bits d junk s t msr_clock_modulation 4 4 1 small (omega arith) (omega arith)
          e in
      let kept =
        read_bits-write_bits_apart d junk t u msr_clock_modulation 3 table.low_bit k small low
          (omega arith) f _ msr_clock_modulation 4 4
          (stored d junk s t msr_clock_modulation 4 4 1 small (omega arith) (omega arith) e)
          (omega arith) (omega arith) (inr (inr (omega arith))) in
      let field =
        read_bits-write_bits d junk t u msr_clock_modulation 3 table.low_bit k small low
          (omega arith) f in
      rw (e, f, kept, enabled, field) (ap (λ (n : ℕ). n * table.step) (mod-eq_of_lt fits))

  full :
      (table : Table) (s : State)
      → table.low_bit ≤ 4
      → get_clock_modulation d junk table (write_ignoring d junk table s 4 table.low_bit 0) ≡ 10000
  unfolding get_clock_modulation write_ignoring
  full table s low =
      let (t, e) =
        write_bits-returns d junk s msr_clock_modulation 4 table.low_bit 0 writable small in
      rw
        (
          e,
          read_bits-write_bits_zero d junk s t msr_clock_modulation 4 table.low_bit 0 small low
              (omega arith) e 4 4 refl low (omega arith) (omega arith),
        )
        refl

  -- For a table of `n` steps and the full cycle, of which the field below bit 4 holds every step.
  set-get :
      (table : Table) (n : ℕ) (s : State) (value : ℕ)
      → table.low_bit ≤ 3
      → 0 < table.step
      → n < 2 ^ (3 + 1 - table.low_bit)
      → table.step * n < 10000
      → table.values ≡ push_values n 0 table.step ++ 10000 ∷ []
      → contains table.values value ≡ true
      → (t : State) × (set_clock_modulation d junk table s value ≡ ok t)
        × (get_clock_modulation d junk table t ≡ value)
  unfolding set_clock_modulation
  set-get table n s value low pos fits below shape h =
      elim (push_values-contains n 0 table.step value (rw shape at h)) [
        | inl top ↦ (
          write_ignoring d junk table s 4 table.low_bit 0,
          rw (h, top) refl,
          full table s (omega arith) ∙ sym top,
        )
        | inr (k, lo, hi, e) ↦
            let partial_cycle : (value == 10000) ≡ false = ==_false value 10000 (grind arith) in
            let steps : value / table.step ≡ k = rw e (mul-div_cancel_left k pos) in
            (
              write_ignoring d junk table (write_ignoring d junk table s 4 4 1) 3 table.low_bit
                  (value / table.step),
              rw (h, partial_cycle) refl,
              rw steps (partial table s k low (omega arith)) ∙ mul_comm k table.step ∙ sym e,
            )
      ]

  -- Every value of the table can be set while the register accepts writes, and is then the value
  -- that is read.
  pub get_clock_modulation-set_clock_modulation :
      (eax : ℕ) (s : State) (value : ℕ)
      → contains (init_table eax).values value ≡ true
      → (t : State) × (set_clock_modulation d junk (init_table eax) s value ≡ ok t)
        × (get_clock_modulation d junk (init_table eax) t ≡ value)
  unfolding init_table
  get_clock_modulation-set_clock_modulation eax s value h =
      elim (Bool-cases (bit_and eax (2 ^ 5) == 0)) [
        | inl plain ↦ rw plain (
            set-get _ 7 s value (omega arith) (omega arith) (omega arith) (omega arith) refl
              (rw plain at h))
        | inr extended ↦ rw extended (
            set-get _ 15 s value (omega arith) (omega arith) (omega arith) (omega arith) refl
              (rw extended at h))
      ]
