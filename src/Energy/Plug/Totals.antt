-- ===== src/Energy/Plug/Totals.antt =====
-- What the plug counters add up, and what they return.
use mammut.Common.{ℕ, ◌+◌, ◌-◌, ◌*◌, ◌≡◌, refl, List, [], ◌∷◌, arith}
use mammut.Energy.Plug.{Plug, file_get_joules, ina_get_joules, reset, file_polls}

-- The energy of a list of readings, each power held since the reading before it.
abbrev pub energy : ℕ → List (ℕ × ℕ) → ℕ
energy last [] = 0
energy last ((watts, now) ∷ rest) = watts * (now - last) + energy now rest

file_polls-energy :
    (readings : List (ℕ × ℕ)) (p : Plug)
    → (file_polls p readings).cumulative ≡ p.cumulative + energy p.last readings
unfolding file_polls file_get_joules
file_polls-energy [] p = omega arith
file_polls-energy ((watts, now) ∷ rest) p = omega (
  arith,
  file_polls-energy rest
      (record { cumulative = p.cumulative + watts * (now - p.last); last = now }),
)

-- After `reset` at a time and any calls, a further call of `CounterPlugFileLinux::getJoules` returns
-- the energy of all the readings since, its own included.
pub file_get_joules-energy :
    (p : Plug) (start watts now : ℕ) (readings : List (ℕ × ℕ))
    → (file_get_joules (file_polls (reset p start) readings) watts now).1
      ≡ energy start readings + watts * (now - (file_polls (reset p start) readings).last)
unfolding file_get_joules reset
file_get_joules-energy p start watts now readings =
    omega (arith, file_polls-energy readings (record { cumulative = 0; last = start }))

-- For the same power and time `CounterPlugINALinux::getJoules` leaves the state that
-- `CounterPlugFileLinux::getJoules` leaves, but what it returns is less, by all the energy that was
-- added up before the call.
pub ina-file_get_joules :
    (p : Plug) (watts_a7 watts_a15 now : ℕ)
    → ((ina_get_joules p watts_a7 watts_a15 now).0
        ≡ (file_get_joules p (watts_a7 + watts_a15) now).0)
      × ((ina_get_joules p watts_a7 watts_a15 now).1 + p.cumulative
          ≡ (file_get_joules p (watts_a7 + watts_a15) now).1)
unfolding ina_get_joules file_get_joules
ina-file_get_joules p watts_a7 watts_a15 now = (refl, omega arith)
