-- ===== src/Energy/Msr/History.antt =====
-- One call of `getJoulesComponents`: what each of its four parts does to the slot of the CPU.
pub mod Polls
use Prim.Native.Nat.{bit_and}
use mammut.Common.{
  ℕ, zero, suc, ◌+◌, ◌-◌, ◌%◌, ◌^◌, ◌≤◌, ◌<◌, ◌≡◌, ◌≢◌, refl, get_elem?-set_ne, ap, sym, subst, ◌∙◌,
  Bool, true, false, Option, some, none, List, [], ◌∷◌, length, get_elem?, set, get_elem?-set_self,
  get_elem?-some, length-set, ltb, ◌==◌, if◌then◌else◌, Error, Result, ok, throw, ◌>>=◌, arith,
}
use mammut.Common.Bits.{bit_and-ones}
use mammut.Energy.Msr.{
  CpuFamily, intel, amd, Registers, Track, Slot, Counter, JoulesCpu, is_opened, read_energy_counter,
  update_counter, delta_diff, with_slot, is_energy_counter, nonzero_low, get_joules_cpu,
  get_joules_cores, get_joules_graphic, get_joules_dram, get_joules_components,
  msr_pkg_energy_status_intel, msr_pp0_energy_status_intel, msr_pp1_energy_status_intel,
  msr_dram_energy_status_intel,
}
use mammut.Energy.Msr.Wrap.{delta_diff-growth}

-- The register shows the low 32 bits of a count that does not wrap, and is not 0.
pub record Shows (hw : Registers) (id which total : ℕ) : Type 0 where
  pub word : ℕ
  pub read : hw id which ≡ some word
  pub nonzero : word ≢ 0
  pub low : word % 2 ^ 32 ≡ total % 2 ^ 32

pub read_energy_counter-Shows :
    (opened : List ℕ) (hw : Registers) (id which total : ℕ)
    → is_opened opened id ≡ true
    → is_energy_counter which ≡ true
    → Shows hw id which total
    → read_energy_counter opened hw id which ≡ ok (total % 2 ^ 32)
unfolding read_energy_counter
read_energy_counter-Shows opened hw id which total o e s =
    rw (e, o, s.read) (ground (arith, s.nonzero, s.low, bit_and-ones 32 s.word))

abbrev pub grown : Track → ℕ → ℕ → Track
grown t before after = record { joules = t.joules + (after - before); last = after % 2 ^ 32 }

update_counter-grown :
    (opened : List ℕ) (hw : Registers) (id which before after : ℕ) (t : Track)
    → is_opened opened id ≡ true
    → is_energy_counter which ≡ true
    → t.last ≡ before % 2 ^ 32
    → before ≤ after
    → after < before + 2 ^ 32
    → Shows hw id which after
    → update_counter opened hw id which t ≡ ok (grown t before after)
unfolding update_counter
update_counter-grown opened hw id which before after t o e l le lt s = rw (
  read_energy_counter-Shows opened hw id which after o e s,
  l,
  delta_diff-growth before after le lt,
)

-- A call that returns `value`, leaves `after` in the slot of the CPU, and changes no other slot.
pub record Stage (c : Counter) (id : ℕ) (xs : List Slot) (after : Slot) (value : ℕ)
    (r : Result (Counter × ℕ)) : Type 0 where
  pub slots : List Slot
  pub returns : r ≡ ok (record c { slots = slots }, value)
  pub here : get_elem? slots id ≡ some after
  pub others : (j : ℕ) → id ≢ j → get_elem? slots j ≡ get_elem? xs j

-- A component that is present reads `t` as synchronised with the count `before`, and the register
-- shows `after`, a growth of less than 2 ^ 32.
pub record Advances (hw : Registers) (id which : ℕ) (t : Track) (before after : ℕ) : Type 0 where
  pub synced : t.last ≡ before % 2 ^ 32
  pub rising : before ≤ after
  pub in_time : after < before + 2 ^ 32
  pub shown : Shows hw id which after

abbrev pub WhenPresent : Bool → Type 0 → Type 0
WhenPresent true P = P
WhenPresent false P = Unit {0}

abbrev pub next : Bool → Track → ℕ → ℕ → Track
next true t before after = grown t before after
next false t before after = t

abbrev pub value_of : Bool → Track → ℕ
value_of true t = t.joules
value_of false t = 0

module _ (c : Counter) (hw : Registers) (id : ℕ) (is_intel : c.family ≡ intel)
    (open_msr : is_opened c.opened id ≡ true) where
  set-Stage :
      (xs : List Slot) (s s' : Slot) (value : ℕ)
      → get_elem? xs id ≡ some s
      → Stage c id xs s' value (ok (record c { slots = set xs id s' }, value))
  set-Stage xs s s' value e = record {
    slots = set xs id s';
    returns = refl;
    here = get_elem?-set_self xs id s' (get_elem?-some xs id s e);
    others = λ j ne. get_elem?-set_ne xs id j s' ne;
  }

  stay :
      (xs : List Slot) (s : Slot) (value : ℕ)
      → get_elem? xs id ≡ some s
      → Stage c id xs s value (ok (record c { slots = xs }, value))
  stay xs s value e = record { slots = xs; returns = refl; here = e; others = λ j ne. refl }

  -- A result that is known gives the stage.
  via :
      {xs : List Slot} {s' : Slot} {value : ℕ} {r r' : Result (Counter × ℕ)}
      → r ≡ r'
      → Stage c id xs s' value r'
      → Stage c id xs s' value r
  via {xs} {s'} {value} e st = subst (Stage c id xs s' value) (sym e) st

  module _ (xs : List Slot) (s : Slot) (at : get_elem? xs id ≡ some s) (before after : ℕ) where
    pub cpu-Stage :
        Advances hw id msr_pkg_energy_status_intel s.cpu before after
        → Stage c id xs
            (record s { cpu = grown s.cpu before after })
            (grown s.cpu before after).joules
            (get_joules_cpu (record c { slots = xs }) hw id)
    unfolding get_joules_cpu is_energy_counter
    cpu-Stage a =
        let e =
          update_counter-grown c.opened hw id msr_pkg_energy_status_intel before after s.cpu
            open_msr refl a.synced a.rising a.in_time a.shown in
        via (ground (arith, at, e)) (set-Stage xs s _ _ at)

    pub cores-Stage :
        (has : Bool)
        → c.has_cores ≡ has
        → WhenPresent has (Advances hw id msr_pp0_energy_status_intel s.cores before after)
        → Stage c id xs
            (record s { cores = next has s.cores before after })
            (value_of has (next has s.cores before after))
            (get_joules_cores (record c { slots = xs }) hw id)
    unfolding get_joules_cores is_energy_counter
    cores-Stage true present a =
        let e =
          update_counter-grown c.opened hw id msr_pp0_energy_status_intel before after s.cores
            open_msr refl a.synced a.rising a.in_time a.shown in
        via (ground (arith, at, e)) (set-Stage xs s _ _ at)
    cores-Stage false absent a = via (ground arith) (stay xs s 0 at)

    pub graphic-Stage :
        (has : Bool)
        → c.has_graphic ≡ has
        → WhenPresent has (Advances hw id msr_pp1_energy_status_intel s.graphic before after)
        → Stage c id xs
            (record s { graphic = next has s.graphic before after })
            (value_of has (next has s.graphic before after))
            (get_joules_graphic (record c { slots = xs }) hw id)
    unfolding get_joules_graphic is_energy_counter
    graphic-Stage true present a =
        let e =
          update_counter-grown c.opened hw id msr_pp1_energy_status_intel before after s.graphic
            open_msr refl a.synced a.rising a.in_time a.shown in
        via (ground (arith, at, e)) (set-Stage xs s _ _ at)
    graphic-Stage false absent a = via (ground arith) (stay xs s 0 at)

    pub dram-Stage :
        (has : Bool)
        → c.has_dram ≡ has
        → WhenPresent has (Advances hw id msr_dram_energy_status_intel s.dram before after)
        → Stage c id xs
            (record s { dram = next has s.dram before after })
            (value_of has (next has s.dram before after))
            (get_joules_dram (record c { slots = xs }) hw id)
    unfolding get_joules_dram is_energy_counter
    dram-Stage true present a =
        let e =
          update_counter-grown c.opened hw id msr_dram_energy_status_intel before after s.dram
            open_msr refl a.synced a.rising a.in_time a.shown in
        via (ground (arith, at, e)) (set-Stage xs s _ _ at)
    dram-Stage false absent a = via (ground arith) (stay xs s 0 at)
