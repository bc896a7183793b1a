-- ===== src/Energy/SysFs/Wraps.antt =====
-- What `CounterCpusLinuxSysFs` counts when the kernel's counter wraps.
use mammut.Common.{
  ℕ, zero, suc, ◌+◌, ◌-◌, ◌*◌, ◌/◌, ◌%◌, ◌≤◌, ◌<◌, ◌≡◌, refl, ap, some, none, List, [], ◌∷◌,
  get_elem?, set, get_elem?-set_self, get_elem?-some, ltb, if◌then◌else◌, Result, ok, ◌>>=◌, arith,
}
use native.Mathlib.Decide.{dec_lt}
use native.Mathlib.Nat.{div-add-mod, mod-lt}
use mammut.Common.Int.{ℤ, pos, negsuc, pos_part, neg_part, sub_ℕ, ◌+ℤ◌}
use mammut.Energy.SysFs.{Track, Slot, Counter, Files, difference, read, get_joules_cpu, with_slot}

-- Two counts in turns of `range`, the second above the first by less than a turn.
few_turns :
    (range q d r1 r2 : ℕ) → r1 < range → range * (q + d) + r2 < range * q + r1 + range → d ≤ 1
few_turns range q zero r1 r2 h lt = omega arith
few_turns range q (suc zero) r1 r2 h lt = omega arith
few_turns range q (suc (suc d)) r1 r2 h lt = absurd (omega arith)

turns-le : (range q2 e r1 r2 : ℕ) → r2 < range → range * (q2 + suc e) + r1 ≤ range * q2 + r2 → ⊥
turns-le range q2 e r1 r2 h le = omega arith

div_mono : (range a b : ℕ) → 0 < range → a ≤ b → a / range ≤ b / range
div_mono range a b some_range le = elim (dec_lt (b / range) (a / range)) [
  | no fine ↦ omega arith
  | yes more ↦
      let e : a / range ≡ b / range + suc (a / range - b / range - 1) = omega arith in
      absurd (
        turns-le range (b / range) (a / range - b / range - 1) (a % range) (b % range)
          (mod-lt b some_range)
          (omega (arith, div-add-mod a range, div-add-mod b range, ap (λ (t : ℕ). range * t) e)))
]

sub_ℕ-parts : (a b : ℕ) → pos_part (sub_ℕ a b) + b ≡ a + neg_part (sub_ℕ a b)
sub_ℕ-parts a b = ground arith

add-parts :
    (i j : ℤ)
    → pos_part (i +ℤ j) + (neg_part i + neg_part j) ≡ pos_part i + pos_part j + neg_part (i +ℤ j)
add-parts i j = sub_ℕ-parts (pos_part i + pos_part j) (neg_part i + neg_part j)

to_parts : (j : ℤ) (a b : ℕ) → j +ℤ pos a ≡ pos b → pos_part j + a ≡ b + neg_part j
to_parts (pos n) a b h = ground (arith, h)
to_parts (negsuc n) a b h = ground (arith, h)

of_parts : (j : ℤ) (a b : ℕ) → pos_part j + a ≡ b + neg_part j → j +ℤ pos a ≡ pos b
of_parts (pos n) a b h = ground (arith, h)
of_parts (negsuc n) a b h = ground (arith, h)

-- A counter that starts again at 0 after `range` microjoules, of which the code takes `max_value`
-- for a whole turn: a turn counts `max_value - range` too much.
difference-growth :
    (max_value range before after : ℕ)
    → before ≤ after
    → after < before + range
    → pos_part (difference max_value (before % range) (after % range))
        + range * (after / range - before / range)
        + before
      ≡ max_value * (after / range - before / range)
        + after
        + neg_part (difference max_value (before % range) (after % range))
unfolding difference
difference-growth max_value range before after rising in_time =
    turn (after / range - before / range) refl
  where
    split : after / range ≡ before / range + (after / range - before / range)
    split = omega (arith, div_mono range before after (omega arith) rising)

    product : range * (after / range) ≡ range * (before / range + (after / range - before / range))
    product = ap (λ (t : ℕ). range * t) split

    small : after / range - before / range ≤ 1
    small =
        few_turns range (before / range) (after / range - before / range) (before % range)
          (after % range) (mod-lt before (omega arith))
          (omega (arith, div-add-mod before range, div-add-mod after range, product))

    turn :
        (k : ℕ)
        → after / range - before / range ≡ k
        → pos_part (
              if ltb (after % range) (before % range)
              then sub_ℕ (max_value + after % range) (before % range)
              else pos (after % range - before % range))
            + range * (after / range - before / range)
            + before
          ≡ max_value * (after / range - before / range)
            + after
            + neg_part (
                if ltb (after % range) (before % range)
                then sub_ℕ (max_value + after % range) (before % range)
                else pos (after % range - before % range))
    turn zero e = rw e (
        ground (
          arith,
          div-add-mod before range,
          div-add-mod after range,
          product,
          ap (λ (t : ℕ). range * (before / range + t)) e,
          mod-lt before {m = range} (omega arith),
        ))
    turn (suc zero) e = rw e (
        ground (
          arith,
          sub_ℕ-parts (max_value + after % range) (before % range),
          div-add-mod before range,
          div-add-mod after range,
          product,
          ap (λ (t : ℕ). range * (before / range + t)) e,
          mod-lt after {m = range} (omega arith),
        ))
    turn (suc (suc k)) e = absurd (omega (arith, small, e))

-- The file of the package shows a count of microjoules in turns of `range`.
abbrev Shows : Files → ℕ → ℕ → ℕ → Type 0
Shows files id range total = files id none ≡ some (total % range)

-- Calls of `getJoulesCpu` on one CPU, at the given states of the files.
pub polls : ℕ → List Files → Counter → Result Counter
polls id [] c = ok c
polls id (files ∷ rest) c = get_joules_cpu c files id >>= λ r. polls id rest r.0

-- The counts at the calls: each shown, and above the one before it by less than a turn.
abbrev pub History : ℕ → ℕ → ℕ → List (Files × ℕ) → Type 0
History id range before [] = Unit {0}
History id range before ((files, after) ∷ rest) =
    (before ≤ after)
    × (after < before + range)
    × Shows files id range after
    × History id range after rest

abbrev pub final : ℕ → List (Files × ℕ) → ℕ
final before [] = before
final before ((files, after) ∷ rest) = final after rest

abbrev pub states : List (Files × ℕ) → List Files
states [] = []
states ((files, total) ∷ rest) = files ∷ states rest

-- The track holds the count since `base`, with `max_value` in place of `range` for each turn since
-- then.
pub record InStep (max_value range : ℕ) (t : Track) (base total : ℕ) : Type 0 where
  pub since : base ≤ total
  pub energy :
      t.joules +ℤ pos (range * (total / range - base / range) + base)
      ≡ pos (max_value * (total / range - base / range) + total)
  pub synced : t.last ≡ total % range

advance :
    (max_value range base before after : ℕ) (t : Track)
    → 0 < range
    → InStep max_value range t base before
    → before ≤ after
    → after < before + range
    → t.joules
        +ℤ difference max_value t.last (after % range)
        +ℤ pos (range * (after / range - base / range) + base)
      ≡ pos (max_value * (after / range - base / range) + after)
advance max_value range base before after t some_range i rising in_time = rw i.synced (
    let turns : after / range - base / range
        ≡ (after / range - before / range) + (before / range - base / range) =
      omega (
        arith,
        div_mono range before after some_range rising,
        div_mono range base before some_range i.since,
      ) in
    of_parts (t.joules +ℤ difference max_value (before % range) (after % range))
      (range * (after / range - base / range) + base)
      (max_value * (after / range - base / range) + after)
      (omega (
        arith,
        to_parts t.joules (range * (before / range - base / range) + base)
            (max_value * (before / range - base / range) + before) i.energy,
        add-parts t.joules (difference max_value (before % range) (after % range)),
        difference-growth max_value range before after rising in_time,
        ap (λ (n : ℕ). range * n) turns,
        ap (λ (n : ℕ). max_value * n) turns,
      )))

get_joules_cpu-shown :
    (c : Counter) (files : Files) (id : ℕ) (s : Slot) (now : ℕ)
    → get_elem? c.slots id ≡ some s
    → files id none ≡ some now
    → get_joules_cpu c files id
      ≡ ok (
        with_slot c id (record s {
          cpu = record {
            joules = s.cpu.joules +ℤ difference c.max_value s.cpu.last now;
            last = now;
          };
        }),
        s.cpu.joules +ℤ difference c.max_value s.cpu.last now,
      )
unfolding get_joules_cpu read
get_joules_cpu-shown c files id s now at shown = ground (arith, at, shown)

-- For a counter that turns over every `range` microjoules, `range` above 0, whatever `_maxValue` is,
-- and a CPU whose sum and last reading are in step with the count: if between consecutive calls of
-- `getJoulesCpu` the count grows by less than a turn, and each call finds the file, the calls all
-- return, and the CPU ends in step, with the energy since `base` in which `_maxValue` stands in place
-- of `range` for each turn in between; with `_maxValue` equal to `range` that is exactly the energy.
pub polls-InStep :
    (hist : List (Files × ℕ)) (c : Counter) (id range : ℕ) (s : Slot) (base before : ℕ)
    → 0 < range
    → get_elem? c.slots id ≡ some s
    → InStep c.max_value range s.cpu base before
    → History id range before hist
    → (slots : List Slot) × (s' : Slot) × (polls id (states hist) c
        ≡ ok (record c { slots = slots }))
      × (get_elem? slots id ≡ some s')
      × InStep c.max_value range s'.cpu base (final before hist)
unfolding polls
polls-InStep [] c id range s base before some_range at i h = (c.slots, s, refl, at, i)
polls-InStep ((files, after) ∷ rest) c id range s base before some_range at i
      (rising, in_time, shown, h) =
    let t : Track = record {
      joules = s.cpu.joules +ℤ difference c.max_value s.cpu.last (after % range);
      last = after % range;
    } in
    let s' : Slot = record s { cpu = t } in
    let (slots, s'', returns, here, in_step) =
      polls-InStep rest (record c { slots = set c.slots id s' }) id range s' base after some_range
        (get_elem?-set_self c.slots id s' (get_elem?-some c.slots id s at))
        (record {
          since = omega (arith, i.since);
          energy = advance c.max_value range base before after s.cpu some_range i rising in_time;
          synced = refl;
        })
        h in
    (
      slots,
      s'',
      rw (get_joules_cpu-shown c files id s (after % range) at shown) returns,
      here,
      in_step,
    )
