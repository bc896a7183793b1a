-- ===== src/Energy/Counters/Local/Examples.antt =====
-- Two counters at the plug, of which the first one is not there.
use mammut.Common.{ℕ, ◌+◌, ◌≡◌, refl, Bool, true, false, none, some, [], ◌∷◌, ok}
use mammut.Energy.Counters.{Counter}
use mammut.Energy.Counters.Local.{create_local, first_init, init_counter}

abbrev plug_that : Bool → Counter ℕ
plug_that there = record {
  init = λ s. ok (s + 1, there);
  reset = λ s. ok s;
  get_joules = λ s. ok (s, 0);
}

second_plug :
    create_local 0 (plug_that false ∷ plug_that true ∷ plug_that true ∷ []) [] []
    ≡ ok (
      2,
      record { counter_plug = some (plug_that true); counter_memory = none; counter_cpus = none },
    )
unfolding create_local first_init init_counter
second_plug = refl
