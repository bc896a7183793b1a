-- ===== src/Topology/HotPlug/Linux.antt =====
-- The cores of class VirtualCoreLinux of src/topology/topology-linux.cpp as an instance of
-- `VirtualCores`: each core with its file online and the device of its registers.
mod Examples
use mammut.Common.{
  ℕ, ◌<◌, ◌^◌, ◌≡◌, ◌≢◌, refl, sym, ◌∙◌, Bool, true, false, Option, some, none, List, [], ◌∷◌, All,
  ltb, ◌==◌, ==_self, ==_false, if◌then◌else◌, Option-cases, inl, inr, Result, ok, ◌>>=◌, ap,
}
use mammut.Utils.Msr.{Device}
use mammut.Utils.Msr.Fields.{IsWritable}
use mammut.Utils.Vectors.{contains, Distinct}
use mammut.Topology.ClockModulation.{
  Table, init_table, msr_clock_modulation, set_clock_modulation, get_clock_modulation,
}
use mammut.Topology.ClockModulation.Laws.{get_clock_modulation-set_clock_modulation}
use mammut.Topology.HotPlug.{
  VirtualCores, OnlineFiles, linux_is_hot_pluggable, linux_is_hot_plugged, linux_hot_plug,
  linux_hot_unplug, get_rollback_point, rollback,
}
use mammut.Topology.HotPlug.Restores.{Kept, Apart, Laws, Same}
use mammut.Topology.HotPlug.RoundTrip.{Resettable, rollback-get_rollback_point_lem}

-- The files of the kernel: a core has its file or has not, and a number that is written is read.
pub record OnlineLaws {F : Type 0} (files : OnlineFiles F) : Type 0 where
  pub stays :
      (f f' : F) (v : ℕ) → linux_is_hot_pluggable files f v ≡ linux_is_hot_pluggable files f' v
  pub written :
      (f : F) (v value : ℕ)
      → linux_is_hot_pluggable files f v ≡ true
      → (f' : F) × (files.write_online f v value ≡ ok f')
        × (files.online f' v ≡ some value)
        × ((w : ℕ) → w ≢ v → files.online f' w ≡ files.online f w)

-- The files, and the registers of each core.
pub record State (F D : Type 0) : Type 0 where
  pub online_files : F
  pub registers : ℕ → D

abbrev plugged : Option ℕ → Bool
plugged none = true
plugged (some value) = ltb 0 value

linux_is_hot_plugged-online :
    {F : Type 0} (files : OnlineFiles F) (f : F) (v : ℕ)
    → linux_is_hot_plugged files f v ≡ plugged (files.online f v)
unfolding linux_is_hot_plugged
linux_is_hot_plugged-online files f v = elim (Option-cases (files.online f v)) [
  | inl e ↦ rw (linux_is_hot_plugged, e) refl
  | inr (x, e) ↦ rw (linux_is_hot_plugged, e) refl
]

abbrev has_file : Option ℕ → Bool
has_file none = false
has_file (some value) = true

linux_is_hot_pluggable-online :
    {F : Type 0} (files : OnlineFiles F) (f : F) (v : ℕ)
    → linux_is_hot_pluggable files f v ≡ has_file (files.online f v)
unfolding linux_is_hot_pluggable
linux_is_hot_pluggable-online files f v = elim (Option-cases (files.online f v)) [
  | inl e ↦ rw (linux_is_hot_pluggable, e) refl
  | inr (x, e) ↦ rw (linux_is_hot_pluggable, e) refl
]

module _ {F : Type 0} (files : OnlineFiles F) (d : Device) (junk eax : ℕ) where
  abbrev put_registers : (ℕ → d.State) → ℕ → d.State → ℕ → d.State
  put_registers r v t w = if v == w then t else r w

  -- VirtualCoreLinux on a processor whose registers can be accessed.
  abbrev pub linux_cores : VirtualCores (State F d.State)
  linux_cores = record {
    is_hot_pluggable = λ s v. linux_is_hot_pluggable files s.online_files v;
    is_hot_plugged = λ s v. linux_is_hot_plugged files s.online_files v;
    hot_plug =
        λ s v. linux_hot_plug files s.online_files v >>= λ f. ok (record s { online_files = f });
    hot_unplug =
        λ s v. linux_hot_unplug files s.online_files v >>= λ f. ok (record s { online_files = f });
    has_clock_modulation = λ s v. true;
    get_clock_modulation = λ s v. get_clock_modulation d junk (init_table eax) (s.registers v);
    set_clock_modulation = λ s v value.
        set_clock_modulation d junk (init_table eax) (s.registers v) value >>= λ t.
        ok (record s { registers = put_registers s.registers v t });
  }

  -- The values of the table can be set.
  abbrev pub Listed : ℕ → ℕ → Type 0
  Listed v value = contains (init_table eax).values value ≡ true

  module _ (online : OnlineLaws files) (small : junk < 2 ^ 64)
      (writable : IsWritable d msr_clock_modulation) where
    online-Kept :
        (s : State F d.State) (f' : F) (v : ℕ)
        → ((w : ℕ) → w ≢ v → files.online f' w ≡ files.online s.online_files w)
        → Apart linux_cores s (record s { online_files = f' }) v
    unfolding linux_is_hot_plugged
    online-Kept s f' v same w ne = record {
      plugged =
          linux_is_hot_plugged-online files f' w
          ∙ (ap plugged (same w ne) ∙ sym (linux_is_hot_plugged-online files s.online_files w));
      modulation = refl;
    }

    plugs-linux :
        (s : State F d.State) (v : ℕ)
        → linux_is_hot_pluggable files s.online_files v ≡ true
        → (s' : State F d.State) × (linux_cores.hot_plug s v ≡ ok s')
          × (linux_cores.is_hot_plugged s' v ≡ true)
          × Apart linux_cores s s' v
    unfolding linux_hot_plug linux_is_hot_plugged
    plugs-linux s v h =
        let (f', e, now, same) = online.written s.online_files v 1 h in
        (
          record s { online_files = f' },
          rw (h, e) refl,
          linux_is_hot_plugged-online files f' v ∙ ap plugged now,
          online-Kept s f' v same,
        )

    unplugs-linux :
        (s : State F d.State) (v : ℕ)
        → linux_is_hot_pluggable files s.online_files v ≡ true
        → (s' : State F d.State) × (linux_cores.hot_unplug s v ≡ ok s')
          × (linux_cores.is_hot_plugged s' v ≡ false)
          × Apart linux_cores s s' v
    unfolding linux_hot_unplug linux_is_hot_plugged
    unplugs-linux s v h =
        let (f', e, now, same) = online.written s.online_files v 0 h in
        (
          record s { online_files = f' },
          rw (h, e) refl,
          linux_is_hot_plugged-online files f' v ∙ ap plugged now,
          online-Kept s f' v same,
        )

    always-linux :
        (f : F) (v : ℕ)
        → linux_is_hot_pluggable files f v ≡ false
        → linux_is_hot_plugged files f v ≡ true
    unfolding linux_is_hot_pluggable linux_is_hot_plugged
    always-linux f v h = elim (Option-cases (files.online f v)) [
      | inl e ↦ linux_is_hot_plugged-online files f v ∙ ap plugged e
      | inr (x, e) ↦
          let q : true ≡ false =
            sym (linux_is_hot_pluggable-online files f v ∙ ap has_file e) ∙ h in
          cc
    ]

    leaves-linux :
        (s : State F d.State) (v : ℕ)
        → linux_is_hot_pluggable files s.online_files v ≡ false
        → (linux_cores.hot_plug s v ≡ ok s) × (linux_cores.hot_unplug s v ≡ ok s)
    unfolding linux_hot_plug linux_hot_unplug
    leaves-linux s v h = (rw h refl, rw h refl)

    sets-linux :
        (s : State F d.State) (v value : ℕ)
        → Listed v value
        → (s' : State F d.State) × (linux_cores.set_clock_modulation s v value ≡ ok s')
          × (linux_cores.is_hot_plugged s' v ≡ linux_cores.is_hot_plugged s v)
          × (linux_cores.is_hot_plugged s v ≡ true → linux_cores.get_clock_modulation s' v ≡ value)
          × Apart linux_cores s s' v
    sets-linux s v value listed =
        let (t, e, now) =
          get_clock_modulation-set_clock_modulation d junk small writable eax (s.registers v) value
            listed in
        (
          record s { registers = put_registers s.registers v t },
          rw e refl,
          refl,
          λ on. rw (==_self v) now,
          λ w ne. record { plugged = refl; modulation = rw (==_false v w (λ q. ne (sym q))) refl },
        )

    -- The cores of Linux behave as `rollback` relies on, with the values of the table of clock
    -- modulations, where the kernel's files and the registers do.
    pub linux_cores-Laws : Laws linux_cores Listed
    linux_cores-Laws = record {
      pluggable = λ s s' v. online.stays s.online_files s'.online_files v;
      modulated = λ s s' v. refl;
      always = λ s v h. always-linux s.online_files v h;
      leaves = leaves-linux;
      plugs = plugs-linux;
      unplugs = unplugs-linux;
      sets = λ s v value h can. sets-linux s v value can;
    }

    -- On the cores of Linux, where the kernel's files and the registers do what they are written to,
    -- rolling back to a rollback point whose modulations are in the table returns, plugs each core
    -- in or out as it was, gives each core that was plugged in its modulation back, and changes no
    -- other core.
    pub rollback-linux_cores :
        (s0 s : State F d.State) (vs : List ℕ)
        → Distinct vs
        → All (λ v. Listed v (get_clock_modulation d junk (init_table eax) (s0.registers v))) vs
        → (s' : State F d.State) × (rollback linux_cores s vs (get_rollback_point linux_cores s0 vs)
            ≡ ok s')
          × All (Same linux_cores s0 s') vs
          × ((w : ℕ) → contains vs w ≡ false → Kept linux_cores s s' w)
    rollback-linux_cores s0 s vs distinct listed =
        rollback-get_rollback_point_lem linux_cores Listed linux_cores-Laws s0 s vs distinct
          (resettable vs listed)
      where
        resettable :
            (vs : List ℕ)
            → All (λ v. Listed v (get_clock_modulation d junk (init_table eax) (s0.registers v))) vs
            → All (Resettable linux_cores Listed linux_cores-Laws s0) vs
        resettable [] l = tt
        resettable (v ∷ vs) (h, l) = (λ on. h, resettable vs l)
