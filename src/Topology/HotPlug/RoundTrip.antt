-- ===== src/Topology/HotPlug/RoundTrip.antt =====
-- The loop of `rollback` over all the virtual cores.
use mammut.Common.{
  ℕ, ◌≡◌, ◌≢◌, refl, sym, ◌∙◌, Bool, true, false, ◌||◌, List, [], ◌∷◌, ◌==◌, All, ok, arith,
}
use mammut.Utils.Vectors.{contains, Distinct}
use mammut.Topology.HotPlug.{
  VirtualCores, get_rollback_point, restore_plugged, restore_modulation, rollback,
}
use mammut.Topology.HotPlug.Restores.{
  Kept, Kept-refl, Kept-trans, Apart, Laws, Same, restore_plugged-lem, restore_modulation-lem,
}

module _ {S : Type 0} (cores : VirtualCores S) (settable : ℕ → ℕ → Type 0)
    (laws : Laws cores settable) where
  -- A modulation that was read can be set again.
  abbrev pub Resettable : S → ℕ → Type 0
  Resettable s v =
      cores.has_clock_modulation s v ≡ true → settable v (cores.get_clock_modulation s v)

  round-lem :
      (s0 s : S) (v : ℕ)
      → Resettable s0 v
      → (s1 s2 : S) × (restore_plugged cores s v (cores.is_hot_plugged s0 v) ≡ ok s1)
        × (restore_modulation cores s1 v (cores.get_clock_modulation s0 v) ≡ ok s2)
        × Same cores s0 s2 v
        × Apart cores s s2 v
  round-lem s0 s v can =
      let (s1, e1, p1, a1) =
        restore_plugged-lem cores settable laws s v (cores.is_hot_plugged s0 v)
          (λ h. laws.always s0 v (laws.pluggable s0 s v ∙ h)) in
      let (s2, e2, p2, m2, a2) =
        restore_modulation-lem cores settable laws s1 v (cores.get_clock_modulation s0 v)
          (λ h. can (laws.modulated s0 s1 v ∙ h)) in
      (
        s1,
        s2,
        e1,
        e2,
        record {
          plugged = p2 ∙ p1;
          modulation = λ h on. m2 (laws.modulated s1 s0 v ∙ h) (p1 ∙ on);
        },
        λ w ne. Kept-trans cores s s1 s2 w (a1 w ne) (a2 w ne),
      )

  Same-Kept : (s0 s s' : S) (v : ℕ) → Kept cores s s' v → Same cores s0 s v → Same cores s0 s' v
  Same-Kept s0 s s' v k same = record {
    plugged = k.plugged ∙ same.plugged;
    modulation = λ h on. k.modulation ∙ same.modulation h on;
  }

  -- For distinct virtual cores, whose modulations at the rollback point can be set again, rolling
  -- back to it from any state returns, plugs in or out every core as it was, sets the modulation of
  -- each core that was plugged in to what it was, and changes no other core.
  pub rollback-get_rollback_point_lem :
      (s0 s : S) (vs : List ℕ)
      → Distinct vs
      → All (Resettable s0) vs
      → (s' : S) × (rollback cores s vs (get_rollback_point cores s0 vs) ≡ ok s')
        × All (Same cores s0 s') vs
        × ((w : ℕ) → contains vs w ≡ false → Kept cores s s' w)
  unfolding get_rollback_point rollback contains Distinct
  rollback-get_rollback_point_lem s0 s [] distinct can = (s, refl, tt, λ w out. Kept-refl cores s w)
  rollback-get_rollback_point_lem s0 s (v ∷ vs) (new, distinct) (can, cans) =
      let (s1, s2, e1, e2, same, apart) = round-lem s0 s v can in
      let (s', e, sames, kept) = rollback-get_rollback_point_lem s0 s2 vs distinct cans in
      (
        s',
        rw (e1, e2) e,
        (Same-Kept s0 s2 s' v (kept v new) same, sames),
        λ w out.
            Kept-trans cores s s2 s' w (apart w (λ q. differs w v (contains vs w) out (sym q)))
              (kept w (others w v (contains vs w) out)),
      )
    where
      differs : (w v : ℕ) (b : Bool) → ((v == w) || b) ≡ false → v ≢ w
      differs w v b h q = ground arith

      others : (w v : ℕ) (b : Bool) → ((v == w) || b) ≡ false → b ≡ false
      others w v b h = ground arith
