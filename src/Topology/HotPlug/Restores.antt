-- ===== src/Topology/HotPlug/Restores.antt =====
-- Rolling back to a rollback point.
use mammut.Common.{ℕ, ◌≡◌, ◌≢◌, refl, sym, ◌∙◌, inl, inr, Bool, true, false, Bool-cases, ok}
use mammut.Topology.HotPlug.{VirtualCores, restore_plugged, restore_modulation}

module _ {S : Type 0} (cores : VirtualCores S) where
  -- Nothing changed for a core.
  pub record Kept (s s' : S) (w : ℕ) : Type 0 where
    pub plugged : cores.is_hot_plugged s' w ≡ cores.is_hot_plugged s w
    pub modulation : cores.get_clock_modulation s' w ≡ cores.get_clock_modulation s w

  -- Nothing changed for the other cores.
  abbrev pub Apart : S → S → ℕ → Type 0
  Apart s s' v = (w : ℕ) → w ≢ v → Kept s s' w

  -- What the machine does: the files and the registers of a core stay there, a core without a file
  -- is plugged in and stays so, a core with a file can be plugged in and out, and a plugged core takes each
  -- modulation of `settable`. The modulation of a core that is plugged out is left open.
  pub record Laws (settable : ℕ → ℕ → Type 0) : Type 0 where
    pub pluggable : (s s' : S) (v : ℕ) → cores.is_hot_pluggable s v ≡ cores.is_hot_pluggable s' v
    pub modulated :
        (s s' : S) (v : ℕ) → cores.has_clock_modulation s v ≡ cores.has_clock_modulation s' v
    pub always :
        (s : S) (v : ℕ) → cores.is_hot_pluggable s v ≡ false → cores.is_hot_plugged s v ≡ true
    pub leaves :
        (s : S) (v : ℕ)
        → cores.is_hot_pluggable s v ≡ false
        → (cores.hot_plug s v ≡ ok s) × (cores.hot_unplug s v ≡ ok s)
    pub plugs :
        (s : S) (v : ℕ)
        → cores.is_hot_pluggable s v ≡ true
        → (s' : S) × (cores.hot_plug s v ≡ ok s')
          × (cores.is_hot_plugged s' v ≡ true)
          × Apart s s' v
    pub unplugs :
        (s : S) (v : ℕ)
        → cores.is_hot_pluggable s v ≡ true
        → (s' : S) × (cores.hot_unplug s v ≡ ok s')
          × (cores.is_hot_plugged s' v ≡ false)
          × Apart s s' v
    pub sets :
        (s : S) (v value : ℕ)
        → cores.has_clock_modulation s v ≡ true
        → settable v value
        → (s' : S) × (cores.set_clock_modulation s v value ≡ ok s')
          × (cores.is_hot_plugged s' v ≡ cores.is_hot_plugged s v)
          × (cores.is_hot_plugged s v ≡ true → cores.get_clock_modulation s' v ≡ value)
          × Apart s s' v

  pub Kept-refl : (s : S) (w : ℕ) → Kept s s w
  Kept-refl s w = record { plugged = refl; modulation = refl }

  pub Kept-trans : (s s' s'' : S) (w : ℕ) → Kept s s' w → Kept s' s'' w → Kept s s'' w
  Kept-trans s s' s'' w a b = record {
    plugged = b.plugged ∙ a.plugged;
    modulation = b.modulation ∙ a.modulation;
  }

  -- A core is as it was at the rollback point, its modulation where it was plugged in.
  pub record Same (s0 s : S) (v : ℕ) : Type 0 where
    pub plugged : cores.is_hot_plugged s v ≡ cores.is_hot_plugged s0 v
    pub modulation :
        cores.has_clock_modulation s0 v ≡ true
        → cores.is_hot_plugged s0 v ≡ true
        → cores.get_clock_modulation s v ≡ cores.get_clock_modulation s0 v

  module _ (settable : ℕ → ℕ → Type 0) (laws : Laws settable) where
    pub restore_plugged-lem :
        (s : S) (v : ℕ) (plugged : Bool)
        → (cores.is_hot_pluggable s v ≡ false → plugged ≡ true)
        → (s' : S) × (restore_plugged cores s v plugged ≡ ok s')
          × (cores.is_hot_plugged s' v ≡ plugged)
          × Apart s s' v
    unfolding restore_plugged
    restore_plugged-lem s v plugged fixed = elim (Bool-cases (cores.is_hot_pluggable s v)) [
      | inr h ↦ (s, rw h refl, laws.always s v h ∙ sym (fixed h), λ w ne. Kept-refl s w)
      | inl h ↦ pluggable plugged h
    ]
      where
        pluggable :
            (p : Bool)
            → cores.is_hot_pluggable s v ≡ true
            → (s' : S) × (restore_plugged cores s v p ≡ ok s')
              × (cores.is_hot_plugged s' v ≡ p)
              × Apart s s' v
        pluggable true h = elim (Bool-cases (cores.is_hot_plugged s v)) [
          | inl q ↦ (s, rw (h, q) refl, q, λ w ne. Kept-refl s w)
          | inr q ↦ let (s', e, p, apart) = laws.plugs s v h in (s', rw (h, q) e, p, apart)
        ]
        pluggable false h = elim (Bool-cases (cores.is_hot_plugged s v)) [
          | inl q ↦ let (s', e, p, apart) = laws.unplugs s v h in (s', rw (h, q) e, p, apart)
          | inr q ↦ (s, rw (h, q) refl, q, λ w ne. Kept-refl s w)
        ]

    pub restore_modulation-lem :
        (s : S) (v value : ℕ)
        → (cores.has_clock_modulation s v ≡ true → settable v value)
        → (s' : S) × (restore_modulation cores s v value ≡ ok s')
          × (cores.is_hot_plugged s' v ≡ cores.is_hot_plugged s v)
          × (cores.has_clock_modulation s v ≡ true
              → cores.is_hot_plugged s v ≡ true
              → cores.get_clock_modulation s' v ≡ value)
          × Apart s s' v
    unfolding restore_modulation
    restore_modulation-lem s v value can = elim (Bool-cases (cores.has_clock_modulation s v)) [
      | inl h ↦
          let (s', e, p, m, apart) = laws.sets s v value h (can h) in
          (s', rw h e, p, λ h' on. m on, apart)
      | inr h ↦
          (s, rw h refl, refl, (λ h' on. let contra = sym h ∙ h' in cc), λ w ne. Kept-refl s w)
    ]
