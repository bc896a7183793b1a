-- ===== src/Energy/Msr/History/Polls.antt =====
-- Over any history of calls the counters give the energy that was consumed, however often the
-- registers wrapped.
use mammut.Common.{
  ℕ, ◌+◌, ◌%◌, ◌^◌, ◌≤◌, ◌<◌, ◌≡◌, ◌≢◌, refl, ◌∙◌, Bool, true, false, List, [], ◌∷◌, get_elem?,
  some, Result, ok, ◌>>=◌, arith,
}
use mammut.Energy.Msr.{
  intel, Registers, Track, Slot, Counter, JoulesCpu, is_opened, get_joules_components,
  msr_pkg_energy_status_intel, msr_pp0_energy_status_intel, msr_pp1_energy_status_intel,
  msr_dram_energy_status_intel,
}
use mammut.Energy.Msr.History.{
  Shows, Advances, WhenPresent, next, value_of, grown, cpu-Stage, cores-Stage, graphic-Stage,
  dram-Stage,
}

-- The components that the processor has.
pub record Flags : Type 0 where
  pub has_cores : Bool
  pub has_graphic : Bool
  pub has_dram : Bool

abbrev pub flags : Counter → Flags
flags c = record { has_cores = c.has_cores; has_graphic = c.has_graphic; has_dram = c.has_dram }

-- A track that holds the energy since the count was `base`, in step with the count `total`.
pub record InStep (t : Track) (base total : ℕ) : Type 0 where
  pub energy : t.joules + base ≡ total
  pub synced : t.last ≡ total % 2 ^ 32

-- The registers show the count `after`, less than 2 ^ 32 above `before`.
pub record Grows (hw : Registers) (id which before after : ℕ) : Type 0 where
  pub rising : before ≤ after
  pub in_time : after < before + 2 ^ 32
  pub shown : Shows hw id which after

-- So for each component that the processor has; `total` holds counts that do not wrap.
pub record SlotInStep (c : Flags) (s : Slot) (base total : JoulesCpu) : Type 0 where
  pub cpu : InStep s.cpu base.cpu total.cpu
  pub cores : WhenPresent c.has_cores (InStep s.cores base.cores total.cores)
  pub graphic : WhenPresent c.has_graphic (InStep s.graphic base.graphic total.graphic)
  pub dram : WhenPresent c.has_dram (InStep s.dram base.dram total.dram)

pub record AllGrow (c : Flags) (hw : Registers) (id : ℕ) (before after : JoulesCpu) : Type 0 where
  pub cpu : Grows hw id msr_pkg_energy_status_intel before.cpu after.cpu
  pub cores :
      WhenPresent c.has_cores (Grows hw id msr_pp0_energy_status_intel before.cores after.cores)
  pub graphic :
      WhenPresent c.has_graphic
        (Grows hw id msr_pp1_energy_status_intel before.graphic after.graphic)
  pub dram :
      WhenPresent c.has_dram (Grows hw id msr_dram_energy_status_intel before.dram after.dram)

advances :
    (hw : Registers) (id which : ℕ) (t : Track) (base before after : ℕ)
    → InStep t base before
    → Grows hw id which before after
    → Advances hw id which t before after
advances hw id which t base before after i g = record {
  synced = i.synced;
  rising = g.rising;
  in_time = g.in_time;
  shown = g.shown;
}

Advances-when :
    (has : Bool) (hw : Registers) (id which : ℕ) (t : Track) (base before after : ℕ)
    → WhenPresent has (InStep t base before)
    → WhenPresent has (Grows hw id which before after)
    → WhenPresent has (Advances hw id which t before after)
Advances-when true hw id which t base before after i g =
    advances hw id which t base before after i g
Advances-when false hw id which t base before after i g = tt

still :
    (hw : Registers) (id which : ℕ) (t : Track) (base before after : ℕ)
    → InStep t base before
    → Grows hw id which before after
    → InStep (grown t before after) base after
still hw id which t base before after i g = record {
  energy = omega (arith, i.energy, g.rising);
  synced = refl;
}

still_when :
    (has : Bool) (hw : Registers) (id which : ℕ) (t : Track) (base before after : ℕ)
    → WhenPresent has (InStep t base before)
    → WhenPresent has (Grows hw id which before after)
    → WhenPresent has (InStep (next has t before after) base after)
still_when true hw id which t base before after i g = still hw id which t base before after i g
still_when false hw id which t base before after i g = tt

-- What a client is told of a component: the energy since `base`, or 0 if it is absent.
abbrev Told : Bool → ℕ → ℕ → ℕ → Type 0
Told true v base total = v + base ≡ total
Told false v base total = v ≡ 0

Told-next :
    (has : Bool) (hw : Registers) (id which : ℕ) (t : Track) (base before after : ℕ)
    → WhenPresent has (InStep t base before)
    → WhenPresent has (Grows hw id which before after)
    → Told has (value_of has (next has t before after)) base after
Told-next true hw id which t base before after i g =
    (still hw id which t base before after i g).energy
Told-next false hw id which t base before after i g = refl

-- A call of `getJoulesComponents` on a CPU that returned `values`.
pub record Polled (c : Counter) (id : ℕ) (base total : JoulesCpu) (r : Result (Counter × JoulesCpu))
    : Type 0 where
  pub slots : List Slot
  pub values : JoulesCpu
  pub returns : r ≡ ok (record c { slots = slots }, values)
  pub slot : Slot
  pub here : get_elem? slots id ≡ some slot
  pub in_step : SlotInStep (flags c) slot base total
  pub told_cpu : values.cpu + base.cpu ≡ total.cpu
  pub told_cores : Told c.has_cores values.cores base.cores total.cores
  pub told_graphic : Told c.has_graphic values.graphic base.graphic total.graphic
  pub told_dram : Told c.has_dram values.dram base.dram total.dram
  pub others : (j : ℕ) → id ≢ j → get_elem? slots j ≡ get_elem? c.slots j

poll :
    (c : Counter) (hw : Registers) (id : ℕ) (s : Slot) (base before after : JoulesCpu)
    → c.family ≡ intel
    → is_opened c.opened id ≡ true
    → get_elem? c.slots id ≡ some s
    → SlotInStep (flags c) s base before
    → AllGrow (flags c) hw id before after
    → Polled c id base after (get_joules_components c hw id)
unfolding get_joules_components
poll c hw id s base before after is_intel opened at i g =
    let a =
      cpu-Stage c hw id is_intel opened c.slots s at before.cpu after.cpu
        (advances hw id _ s.cpu base.cpu before.cpu after.cpu i.cpu g.cpu) in
    let b =
      cores-Stage c hw id is_intel opened a.slots _ a.here before.cores after.cores c.has_cores refl
        (Advances-when c.has_cores hw id _ s.cores base.cores before.cores after.cores i.cores
          g.cores) in
    let p =
      graphic-Stage c hw id is_intel opened b.slots _ b.here before.graphic after.graphic
        c.has_graphic refl
        (Advances-when c.has_graphic hw id _ s.graphic base.graphic before.graphic after.graphic
          i.graphic g.graphic) in
    let q =
      dram-Stage c hw id is_intel opened p.slots _ p.here before.dram after.dram c.has_dram refl
        (Advances-when c.has_dram hw id _ s.dram base.dram before.dram after.dram i.dram g.dram) in
    record {
      slots = q.slots;
      values = record {
        cpu = (grown s.cpu before.cpu after.cpu).joules;
        cores = value_of c.has_cores (next c.has_cores s.cores before.cores after.cores);
        graphic =
            value_of c.has_graphic (next c.has_graphic s.graphic before.graphic after.graphic);
        dram = value_of c.has_dram (next c.has_dram s.dram before.dram after.dram);
      };
      returns = rw (a.returns, b.returns, p.returns, q.returns) refl;
      slot = _;
      here = q.here;
      in_step = record {
        cpu = still hw id _ s.cpu base.cpu before.cpu after.cpu i.cpu g.cpu;
        cores =
            still_when c.has_cores hw id _ s.cores base.cores before.cores after.cores i.cores
              g.cores;
        graphic =
            still_when c.has_graphic hw id _ s.graphic base.graphic before.graphic after.graphic
              i.graphic g.graphic;
        dram = still_when c.has_dram hw id _ s.dram base.dram before.dram after.dram i.dram g.dram;
      };
      told_cpu = (still hw id _ s.cpu base.cpu before.cpu after.cpu i.cpu g.cpu).energy;
      told_cores =
          Told-next c.has_cores hw id _ s.cores base.cores before.cores after.cores i.cores g.cores;
      told_graphic =
          Told-next c.has_graphic hw id _ s.graphic base.graphic before.graphic after.graphic
            i.graphic g.graphic;
      told_dram =
          Told-next c.has_dram hw id _ s.dram base.dram before.dram after.dram i.dram g.dram;
      others = λ j ne. q.others j ne ∙ p.others j ne ∙ b.others j ne ∙ a.others j ne;
    }

-- Calls of `getJoulesComponents` on one CPU, at the given states of the registers.
pub polls : ℕ → List Registers → Counter → Result Counter
polls id [] c = ok c
polls id (hw ∷ hws) c = get_joules_components c hw id >>= λ r. polls id hws r.0

-- The counts at the calls, each within 2 ^ 32 of the one before it.
abbrev pub History : Flags → ℕ → JoulesCpu → List (Registers × JoulesCpu) → Type 0
History c id before [] = Unit {0}
History c id before ((hw, after) ∷ rest) = AllGrow c hw id before after × History c id after rest

abbrev pub final : JoulesCpu → List (Registers × JoulesCpu) → JoulesCpu
final before [] = before
final before ((hw, after) ∷ rest) = final after rest

abbrev pub states : List (Registers × JoulesCpu) → List Registers
states [] = []
states ((hw, total) ∷ rest) = hw ∷ states rest

polls-all :
    (hist : List (Registers × JoulesCpu)) (c : Counter) (id : ℕ) (s : Slot)
    (base before : JoulesCpu)
    → c.family ≡ intel
    → is_opened c.opened id ≡ true
    → get_elem? c.slots id ≡ some s
    → SlotInStep (flags c) s base before
    → History (flags c) id before hist
    → (slots : List Slot) × (s' : Slot) × (polls id (states hist) c
        ≡ ok (record c { slots = slots }))
      × (get_elem? slots id ≡ some s')
      × SlotInStep (flags c) s' base (final before hist)
      × ((j : ℕ) → id ≢ j → get_elem? slots j ≡ get_elem? c.slots j)
unfolding polls
polls-all [] c id s base before is_intel opened at i h = (c.slots, s, refl, at, i, λ j ne. refl)
polls-all ((hw, after) ∷ rest) c id s base before is_intel opened at i h =
    let p = poll c hw id s base before after is_intel opened at i h.0 in
    let (slots, s', returns, here, in_step, others) =
      polls-all rest (record c { slots = p.slots }) id p.slot base after is_intel opened p.here
        p.in_step h.1 in
    (slots, s', rw p.returns returns, here, in_step, λ j ne. others j ne ∙ p.others j ne)

-- On an Intel processor, for a CPU whose registers are open and whose slot is in step with counts
-- that do not wrap: if between any two consecutive calls of `getJoulesComponents` every count grows
-- by less than 2 ^ 32, and each register shows the low bits of its count and is not 0, then the
-- calls all return, and each component that is present ends with exactly the energy since `base`.
-- The slot of another CPU stays as it was.
pub polls-SlotInStep :
    (hist : List (Registers × JoulesCpu)) (c : Counter) (id other : ℕ) (s : Slot)
    (base before : JoulesCpu)
    → c.family ≡ intel
    → is_opened c.opened id ≡ true
    → get_elem? c.slots id ≡ some s
    → SlotInStep (flags c) s base before
    → History (flags c) id before hist
    → id ≢ other
    → (slots : List Slot) × (s' : Slot) × (polls id (states hist) c
        ≡ ok (record c { slots = slots }))
      × (get_elem? slots id ≡ some s')
      × SlotInStep (flags c) s' base (final before hist)
      × (get_elem? slots other ≡ get_elem? c.slots other)
polls-SlotInStep hist c id other s base before is_intel opened at i h ne =
    let (slots, s', returns, here, in_step, others) =
      polls-all hist c id s base before is_intel opened at i h in
    (slots, s', returns, here, in_step, others other ne)
