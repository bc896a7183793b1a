-- ===== src/CpuFreq/Domain/Turbo.antt =====
-- Taking the turbo frequencies out and putting them back.
use mammut.Common.{ℕ, ◌≡◌, refl, subst, true, false, List, [], ◌∷◌, ◌++◌, All, ok, arith}
use mathlib.Core.List.{append-nil}
use mammut.CpuFreq.Domain.{
  Domain, is_turbo, remove_loop, remove_turbo_frequencies, reinsert_turbo_frequencies,
}

remove_loop-plain :
    (plain turbo : List ℕ)
    → All (λ f. is_turbo f ≡ ok false) plain
    → All (λ f. is_turbo f ≡ ok true) turbo
    → remove_loop (plain ++ turbo) ≡ ok (plain, turbo)
unfolding remove_loop
remove_loop-plain [] [] p t = refl
remove_loop-plain [] (f ∷ fs) p (h, t) = rw (h, remove_loop-plain [] fs p t) refl
remove_loop-plain (f ∷ fs) turbo (h, p) t = rw (h, remove_loop-plain fs turbo p t) refl

-- Where the turbo frequencies, those whose fourth digit is 1, are the last of a domain's
-- frequencies, `removeTurboFrequencies` leaves the others and keeps the turbo ones, a second call
-- changes nothing more, and `reinsertTurboFrequencies` brings the domain back.
pub reinsert-remove_turbo_frequencies :
    (d : Domain) (plain turbo : List ℕ)
    → d.available_frequencies ≡ plain ++ turbo
    → d.turbo_frequencies ≡ []
    → All (λ f. is_turbo f ≡ ok false) plain
    → All (λ f. is_turbo f ≡ ok true) turbo
    → (d' : Domain) × (remove_turbo_frequencies d ≡ ok d')
      × (d'.available_frequencies ≡ plain)
      × (d'.turbo_frequencies ≡ turbo)
      × (remove_turbo_frequencies d' ≡ ok d')
      × (reinsert_turbo_frequencies d' ≡ d)
unfolding remove_turbo_frequencies reinsert_turbo_frequencies
reinsert-remove_turbo_frequencies d plain [] e none_out p t = (
  record d { available_frequencies = plain; turbo_frequencies = [] },
  ground (arith, e, none_out, remove_loop-plain plain [] p t),
  refl,
  refl,
  rw
      (subst (λ xs. remove_loop xs ≡ ok (plain, [])) (append-nil plain)
        (remove_loop-plain plain [] p t))
      refl,
  ground (arith, e, none_out),
)
reinsert-remove_turbo_frequencies d plain (f ∷ fs) e none_out p t = (
  record d { available_frequencies = plain; turbo_frequencies = f ∷ fs },
  ground (arith, e, none_out, remove_loop-plain plain (f ∷ fs) p t),
  refl,
  refl,
  refl,
  ground (arith, e, none_out),
)
