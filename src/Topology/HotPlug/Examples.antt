-- ===== src/Topology/HotPlug/Examples.antt =====
-- A machine whose first core has no file online.
use mammut.Common.{
  ℕ, zero, suc, ◌≡◌, refl, sym, true, false, Option, some, none, [], ◌∷◌, ◌==◌, ==_self, ==_false,
  All, if◌then◌else◌, ok,
}
use mammut.Utils.Vectors.{contains, Distinct}
use mammut.Topology.HotPlug.{
  VirtualCores, OnlineFiles, linux_is_hot_pluggable, linux_is_hot_plugged, linux_hot_plug,
  linux_hot_unplug, get_rollback_point, rollback, cpu_is_hot_plugged, cpu_hot_plug,
}
use mammut.Topology.HotPlug.Restores.{Kept, Apart, Laws, Same}
use mammut.Topology.HotPlug.RoundTrip.{rollback-get_rollback_point_lem}
use mammut.Topology.HotPlug.Plugs.{cpu_is_hot_plugged-cpu_hot_plug}

record State : Type 0 where
  online : ℕ → ℕ
  modulation : ℕ → ℕ

abbrev put : (ℕ → ℕ) → ℕ → ℕ → ℕ → ℕ
put m core value core' = if core == core' then value else m core'

online_of : State → ℕ → Option ℕ
online_of s zero = none
online_of s (suc core) = some (s.online (suc core))

abbrev files : OnlineFiles State
files = record {
  online = online_of;
  write_online = λ s core value. ok (record s { online = put s.online core value });
}

abbrev machine : VirtualCores State
machine = record {
  is_hot_pluggable = linux_is_hot_pluggable files;
  is_hot_plugged = linux_is_hot_plugged files;
  hot_plug = linux_hot_plug files;
  hot_unplug = linux_hot_unplug files;
  has_clock_modulation = λ s core. true;
  get_clock_modulation = λ s core. s.modulation core;
  set_clock_modulation = λ s core value. ok (record s { modulation = put s.modulation core value });
}

abbrev Any : ℕ → ℕ → Type 0
Any v value = Unit

online-Apart :
    (s : State) (v value : ℕ) → Apart machine s (record s { online = put s.online v value }) v
unfolding linux_is_hot_plugged online_of
online-Apart s v value zero ne = record { plugged = refl; modulation = refl }
online-Apart s v value (suc w) ne = record {
  plugged = rw (==_false v (suc w) (λ q. ne (sym q))) refl;
  modulation = refl;
}

machine-Laws : Laws machine Any
unfolding linux_is_hot_pluggable linux_is_hot_plugged linux_hot_plug linux_hot_unplug online_of
machine-Laws = record {
  pluggable = fixed;
  modulated = λ s s' v. refl;
  always = always;
  leaves = leaves;
  plugs = plugs;
  unplugs = unplugs;
  sets = λ s v value h can. (
    record s { modulation = put s.modulation v value },
    refl,
    same_online s v value v,
    λ on. rw (==_self v) refl,
    λ w ne. record {
      plugged = same_online s v value w;
      modulation = rw (==_false v w (λ q. ne (sym q))) refl;
    },
  );
}
  where
    fixed :
        (s s' : State) (v : ℕ)
        → linux_is_hot_pluggable files s v ≡ linux_is_hot_pluggable files s' v
    fixed s s' zero = refl
    fixed s s' (suc v) = refl

    same_online :
        (s : State) (v value w : ℕ)
        → linux_is_hot_plugged files (record s { modulation = put s.modulation v value }) w
          ≡ linux_is_hot_plugged files s w
    same_online s v value zero = refl
    same_online s v value (suc w) = refl

    always :
        (s : State) (v : ℕ)
        → linux_is_hot_pluggable files s v ≡ false
        → linux_is_hot_plugged files s v ≡ true
    always s zero h = refl
    always s (suc v) h = cc

    leaves :
        (s : State) (v : ℕ)
        → linux_is_hot_pluggable files s v ≡ false
        → (linux_hot_plug files s v ≡ ok s) × (linux_hot_unplug files s v ≡ ok s)
    leaves s zero h = (refl, refl)
    leaves s (suc v) h = (cc, cc)

    plugs :
        (s : State) (v : ℕ)
        → linux_is_hot_pluggable files s v ≡ true
        → (s' : State) × (linux_hot_plug files s v ≡ ok s')
          × (linux_is_hot_plugged files s' v ≡ true)
          × Apart machine s s' v
    plugs s zero h = cc
    plugs s (suc v) h = (_, refl, rw (==_self (suc v)) refl, online-Apart s (suc v) 1)

    unplugs :
        (s : State) (v : ℕ)
        → linux_is_hot_pluggable files s v ≡ true
        → (s' : State) × (linux_hot_unplug files s v ≡ ok s')
          × (linux_is_hot_plugged files s' v ≡ false)
          × Apart machine s s' v
    unplugs s zero h = cc
    unplugs s (suc v) h = (_, refl, rw (==_self (suc v)) refl, online-Apart s (suc v) 0)

-- Core 1 is out and core 2 runs at half its speed; later all are in, at full speed.
abbrev before : State
before = record {
  online = λ core. if core == 1 then 0 else 1;
  modulation = λ core. if core == 2 then 5000 else 10000;
}

abbrev later : State
later = record { online = λ core. 1; modulation = λ core. 10000 }

rolled_back :
    (s' : State) × (rollback machine later
        (0 ∷ 1 ∷ 2 ∷ [])
        (get_rollback_point machine before (0 ∷ 1 ∷ 2 ∷ []))
      ≡ ok s')
    × All (Same machine before s') (0 ∷ 1 ∷ 2 ∷ [])
    × ((w : ℕ) → contains (0 ∷ 1 ∷ 2 ∷ []) w ≡ false → Kept machine later s' w)
unfolding Distinct contains
rolled_back =
    rollback-get_rollback_point_lem machine Any machine-Laws before later (0 ∷ 1 ∷ 2 ∷ [])
      (refl, (refl, (refl, tt))) ((λ h. tt), ((λ h. tt), ((λ h. tt), tt)))

cpu_is_hot_plugged-cpu_hot_plug_run :
    (s' : State) × (cpu_hot_plug machine before ((0 ∷ 1 ∷ []) ∷ (2 ∷ []) ∷ []) ≡ ok s')
    × (cpu_is_hot_plugged machine s' ((0 ∷ 1 ∷ []) ∷ (2 ∷ []) ∷ []) ≡ true)
    × ((w : ℕ)
        → linux_is_hot_plugged files before w ≡ true
        → linux_is_hot_plugged files s' w ≡ true)
cpu_is_hot_plugged-cpu_hot_plug_run =
    cpu_is_hot_plugged-cpu_hot_plug machine Any machine-Laws before ((0 ∷ 1 ∷ []) ∷ (2 ∷ []) ∷ [])
