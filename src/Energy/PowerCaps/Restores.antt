-- ===== src/Energy/PowerCaps/Restores.antt =====
-- Rolling power caps back.
use mammut.Common.{
  ℕ, zero, suc, ◌+◌, ◌≤◌, ◌<◌, ◌≡◌, ◌≢◌, refl, sym, ap, ◌∙◌, ◌⊎◌, inl, inr, Bool, true, false, not,
  ◌||◌, Bool-cases, ==_iff, Option, Option-cases, some, none, List, [], ◌∷◌, All, ◌==◌, Error, ok,
  throw, arith,
}
use mammut.Utils.Vectors.{contains, Distinct}
use mammut.Energy.PowerCaps.{
  Limit, PowerCap, Raplcap, PowerCapper, get_window, get_socket, get_loop, get_all, set_window,
  get_rollback_point, rollback_sockets, rollback,
}

module _ {S : Type 0} (rc : Raplcap S) where
  -- What raplcap reads of a zone of a socket: the limits of its windows, and whether it is enabled.
  abbrev pub seen : S → ℕ → ℕ → Option (Limit × Limit) × Bool
  seen s i z = (rc.get_limits s i z, rc.is_zone_enabled s i z)

  -- Nothing changed in the other zones.
  abbrev pub Apart : S → S → ℕ → ℕ → Type 0
  Apart s s' i z = (j y : ℕ) → (j ≢ i) ⊎ (y ≢ z) → seen s' j y ≡ seen s j y

  -- Limits that the two windows of a zone have, in some state.
  abbrev pub Gave : ℕ → ℕ → Limit → Limit → Type 0
  Gave i z l k = (s : S) × (rc.get_limits s i z ≡ some (l, k))

  -- What a call of raplcap that succeeds does to a zone whose limits can be read: a window that is
  -- set to a limit which it gave before reads back that limit, and nothing else changes. Whether a
  -- call succeeds is left open, and so is what a window reads that is set to another limit.
  pub record Laws : Type 0 where
    pub sets_first :
        (s s' : S) (i z : ℕ) (l k a b : Limit)
        → Gave i z l k
        → rc.get_limits s i z ≡ some (a, b)
        → rc.set_limits s i z (some l) none ≡ some s'
        → (seen s' i z ≡ (some (l, b), rc.is_zone_enabled s i z)) × Apart s s' i z
    pub sets_second :
        (s s' : S) (i z : ℕ) (l k a b : Limit)
        → Gave i z l k
        → rc.get_limits s i z ≡ some (a, b)
        → rc.set_limits s i z none (some k) ≡ some s'
        → (seen s' i z ≡ (some (a, k), rc.is_zone_enabled s i z)) × Apart s s' i z
    pub enables :
        (s s' : S) (i z : ℕ) (b : Bool)
        → rc.set_zone_enabled s i z b ≡ some s'
        → (seen s' i z ≡ (rc.get_limits s i z, b)) × Apart s s' i z

  -- In some state raplcap refused to set a window of the zone to the limit that it has in `s0`, or to
  -- enable or disable the zone as it is in `s0`.
  pub record Refused (s0 : S) (i z : ℕ) : Type 0 where
    pub first : Limit
    pub second : Limit
    pub had : rc.get_limits s0 i z ≡ some (first, second)
    pub at : S
    pub refusal :
        (rc.set_limits at i z (some first) none ≡ none)
        ⊎ (rc.set_limits at i z none (some second) ≡ none)
        ⊎ (rc.set_zone_enabled at i z (rc.is_zone_enabled s0 i z) ≡ none)

  abbrev cap_of : Limit → Bool → PowerCap
  cap_of l b = record { value = l.watts; window = l.seconds; prepared_only = not b }

  abbrev caps_of : Limit → Limit → Bool → PowerCap × PowerCap
  caps_of l k b = (cap_of l b, cap_of k b)

  -- The caps of the sockets from `i` on, of which so many are left.
  IsSaved : S → PowerCapper → ℕ → ℕ → List (PowerCap × PowerCap) → Type 0
  IsSaved s c zero i rows = rows ≡ []
  IsSaved s c (suc left) i rows =
      (l k : Limit) × (rest : List (PowerCap × PowerCap)) × (rows
        ≡ caps_of l k (rc.is_zone_enabled s i c.zone) ∷ rest)
      × (rc.get_limits s i c.zone ≡ some (l, k))
      × IsSaved s c left (suc i) rest

  -- The limits of the sockets from `i` on can be read.
  abbrev Reads : S → PowerCapper → ℕ → ℕ → Type 0
  Reads s c left i =
      (j : ℕ) → i ≤ j → j < i + left → (l k : Limit) × (rc.get_limits s j c.zone ≡ some (l, k))

  get_loop-IsSaved :
      (s : S) (c : PowerCapper) (left i : ℕ)
      → Reads s c left i
      → (rows : List (PowerCap × PowerCap)) × (get_loop rc s c left i ≡ ok rows)
        × IsSaved s c left i rows
  unfolding get_loop get_socket get_window IsSaved
  get_loop-IsSaved s c zero i reads = ([], refl, refl)
  get_loop-IsSaved s c (suc left) i reads =
      let (l, k, e) = reads i (omega arith) (omega arith) in
      let (rest, f, saved) =
        get_loop-IsSaved s c left (suc i) (λ j le lt. reads j (omega arith) (omega arith)) in
      (_, rw (e, f) refl, (l, k, rest, refl, e, saved))

  not-not : (b : Bool) → not (not b) ≡ b
  not-not true = refl
  not-not false = refl

  module _ (laws : Laws) where
    -- One window of a socket is set to what it was in `s0`, or raplcap refused it.
    first_window-cases :
        (s0 s : S) (c : PowerCapper) (i : ℕ) (l k a b : Limit)
        → rc.get_limits s0 i c.zone ≡ some (l, k)
        → rc.get_limits s i c.zone ≡ some (a, b)
        → ((s' : S) × (set_window rc s c 0 i (cap_of l (rc.is_zone_enabled s0 i c.zone)) ≡ ok s')
            × (seen s' i c.zone ≡ (some (l, b), rc.is_zone_enabled s0 i c.zone))
            × Apart s s' i c.zone)
          ⊎ ((set_window rc s c 0 i (cap_of l (rc.is_zone_enabled s0 i c.zone))
                ≡ throw Error.write_failed)
              × Refused s0 i c.zone)
    unfolding set_window
    first_window-cases s0 s c i l k a b had now =
        let on = rc.is_zone_enabled s0 i c.zone in
        elim (Option-cases (rc.set_limits s i c.zone (some l) none)) [
          | inl e ↦
              inr (rw e refl, record { first = l; second = k; had = had; at = s; refusal = inl e })
          | inr (s1, e) ↦
              let (v1, p1) = laws.sets_first s s1 i c.zone l k a b (s0, had) now e in
              elim (Option-cases (rc.set_zone_enabled s1 i c.zone on)) [
                | inl f ↦ inr (
                  rw (e, not-not on, f) refl,
                  record { first = l; second = k; had = had; at = s1; refusal = inr (inr f) },
                )
                | inr (s2, f) ↦
                    let (v2, p2) = laws.enables s1 s2 i c.zone on f in
                    inl (
                      s2,
                      rw (e, not-not on, f) refl,
                      v2 ∙ ap (λ v. (v.0, on)) v1,
                      λ j y ne. p2 j y ne ∙ p1 j y ne,
                    )
              ]
        ]

    second_window-cases :
        (s0 s : S) (c : PowerCapper) (i : ℕ) (l k a b : Limit)
        → rc.get_limits s0 i c.zone ≡ some (l, k)
        → rc.get_limits s i c.zone ≡ some (a, b)
        → ((s' : S) × (set_window rc s c 1 i (cap_of k (rc.is_zone_enabled s0 i c.zone)) ≡ ok s')
            × (seen s' i c.zone ≡ (some (a, k), rc.is_zone_enabled s0 i c.zone))
            × Apart s s' i c.zone)
          ⊎ ((set_window rc s c 1 i (cap_of k (rc.is_zone_enabled s0 i c.zone))
                ≡ throw Error.write_failed)
              × Refused s0 i c.zone)
    unfolding set_window
    second_window-cases s0 s c i l k a b had now =
        let on = rc.is_zone_enabled s0 i c.zone in
        elim (Option-cases (rc.set_limits s i c.zone none (some k))) [
          | inl e ↦ inr (
            rw e refl,
            record { first = l; second = k; had = had; at = s; refusal = inr (inl e) },
          )
          | inr (s1, e) ↦
              let (v1, p1) = laws.sets_second s s1 i c.zone l k a b (s0, had) now e in
              elim (Option-cases (rc.set_zone_enabled s1 i c.zone on)) [
                | inl f ↦ inr (
                  rw (e, not-not on, f) refl,
                  record { first = l; second = k; had = had; at = s1; refusal = inr (inr f) },
                )
                | inr (s2, f) ↦
                    let (v2, p2) = laws.enables s1 s2 i c.zone on f in
                    inl (
                      s2,
                      rw (e, not-not on, f) refl,
                      v2 ∙ ap (λ v. (v.0, on)) v1,
                      λ j y ne. p2 j y ne ∙ p1 j y ne,
                    )
              ]
        ]

    -- The sockets of a power capper are brought back and nothing else is changed, or raplcap refused
    -- a call.
    rollback_sockets-cases :
        (s0 s : S) (c : PowerCapper) (left i : ℕ) (rows : List (PowerCap × PowerCap))
        → IsSaved s0 c left i rows
        → Reads s c left i
        → ((s' : S) × (rollback_sockets rc s c i rows ≡ ok s')
            × ((j : ℕ) → i ≤ j → j < i + left → seen s' j c.zone ≡ seen s0 j c.zone)
            × ((j y : ℕ) → (j < i) ⊎ (y ≢ c.zone) → seen s' j y ≡ seen s j y))
          ⊎ ((rollback_sockets rc s c i rows ≡ throw Error.write_failed)
              × (j : ℕ) × Refused s0 j c.zone)
    unfolding rollback_sockets IsSaved
    rollback_sockets-cases s0 s c zero i rows empty reads =
        inl (s, rw empty refl, λ j le lt. absurd (omega arith), λ j y out. refl)
    rollback_sockets-cases s0 s c (suc left) i rows (l, k, rest, split, had, saved) reads =
        let (a, b, now) = reads i (omega arith) (omega arith) in
        elim (first_window-cases s0 s c i l k a b had now) [
          | inr (e1, refused) ↦ inr (rw (split, e1) refl, i, refused)
          | inl (s1, e1, v1, p1) ↦
              elim (second_window-cases s0 s1 c i l k l b had (ap (λ v. v.0) v1)) [
                | inr (e2, refused) ↦ inr (rw (split, e1, e2) refl, i, refused)
                | inl (s2, e2, v2, p2) ↦
                    let apart : Apart s s2 i c.zone = λ j y ne. p2 j y ne ∙ p1 j y ne in
                    let v : seen s2 i c.zone ≡ seen s0 i c.zone = v2 ∙ rw had refl in
                    elim (rollback_sockets-cases s0 s2 c left (suc i) rest saved
                      (next s s2 c left i apart reads)) [
                        | inr (e, j, refused) ↦ inr (rw (split, e1, e2) e, j, refused)
                        | inl (s', e, back, kept) ↦ inl (
                          s',
                          rw (split, e1, e2) e,
                          λ j le lt. elim (Bool-cases (i == j)) [
                            | inl q ↦
                                rw (sym ((==_iff i j).0 q)) (kept i c.zone (inl (omega arith)) ∙ v)
                            | inr q ↦ back j (ground arith) (omega arith)
                          ],
                          λ j y out. elim out [
                            | inl lt ↦
                                kept j y (inl (omega arith)) ∙ apart j y (inl (λ q. ground arith))
                            | inr ne ↦ kept j y (inr ne) ∙ apart j y (inr ne)
                          ],
                        )
                      ]
              ]
        ]
      where
        next :
            (s s2 : S) (c : PowerCapper) (left i : ℕ)
            → Apart s s2 i c.zone
            → Reads s c (suc left) i
            → Reads s2 c left (suc i)
        next s s2 c left i apart reads j le lt =
            let (a, b, e) = reads j (omega arith) (omega arith) in
            (a, b, ap (λ v. v.0) (apart j c.zone (inl (λ q. ground arith))) ∙ e)

  -- The zones of the power cappers that are there.
  unfoldable pub zones : List (Option PowerCapper) → List ℕ
  zones [] = []
  zones (none ∷ cs) = zones cs
  zones (some c ∷ cs) = c.zone ∷ zones cs

  -- The limits of the zone of a power capper can be read on each of its sockets.
  unfoldable pub Readable : S → Option PowerCapper → Type 0
  Readable s none = Unit
  Readable s (some c) =
      (j : ℕ) → j < c.sockets → (l k : Limit) × (rc.get_limits s j c.zone ≡ some (l, k))

  pub Restored : S → S → Option PowerCapper → Type 0
  Restored s0 s none = Unit
  Restored s0 s (some c) = (j : ℕ) → j < c.sockets → seen s j c.zone ≡ seen s0 j c.zone

  AreSaved : S → List (Option PowerCapper) → List (List (PowerCap × PowerCap)) → Type 0
  AreSaved s [] rows = rows ≡ []
  AreSaved s (none ∷ cs) rows =
      (rest : List (List (PowerCap × PowerCap))) × (rows ≡ [] ∷ rest) × AreSaved s cs rest
  AreSaved s (some c ∷ cs) rows =
      (caps : List (PowerCap × PowerCap)) × (rest : List (List (PowerCap × PowerCap))) × (rows
        ≡ caps ∷ rest)
      × IsSaved s c c.sockets 0 caps
      × AreSaved s cs rest

  get_rollback_point-AreSaved :
      (s : S) (cs : List (Option PowerCapper))
      → All (Readable s) cs
      → (rows : List (List (PowerCap × PowerCap))) × (get_rollback_point rc s cs ≡ ok rows)
        × AreSaved s cs rows
  unfolding get_rollback_point get_all AreSaved Readable
  get_rollback_point-AreSaved s [] reads = ([], refl, refl)
  get_rollback_point-AreSaved s (none ∷ cs) (read, reads) =
      let (rest, e, saved) = get_rollback_point-AreSaved s cs reads in
      (_, rw e refl, (rest, refl, saved))
  get_rollback_point-AreSaved s (some c ∷ cs) (read, reads) =
      let (caps, f, first) = get_loop-IsSaved s c c.sockets 0 (λ j le lt. read j (omega arith)) in
      let (rest, e, saved) = get_rollback_point-AreSaved s cs reads in
      (_, rw (f, e) refl, (caps, rest, refl, first, saved))

  others : (v w : ℕ) (b : Bool) → ((v == w) || b) ≡ false → b ≡ false
  others v w b h = ground arith

  differs : (v w : ℕ) (b : Bool) → ((v == w) || b) ≡ false → v ≢ w
  differs v w b h q = ground arith

  -- What one power capper changed leaves the zones of the others readable.
  Readable-kept :
      (s s1 : S) (z : ℕ) (cs : List (Option PowerCapper))
      → ((j y : ℕ) → y ≢ z → seen s1 j y ≡ seen s j y)
      → contains (zones cs) z ≡ false
      → All (Readable s) cs
      → All (Readable s1) cs
  unfolding zones contains Readable
  Readable-kept s s1 z [] kept new reads = tt
  Readable-kept s s1 z (none ∷ cs) kept new (read, reads) =
      (tt, Readable-kept s s1 z cs kept new reads)
  Readable-kept s s1 z (some c ∷ cs) kept new (read, reads) = (
    λ j lt.
        let (l, k, e) = read j lt in
        (l, k, ap (λ v. v.0) (kept j c.zone (differs c.zone z (contains (zones cs) z) new)) ∙ e),
    Readable-kept s s1 z cs kept (others c.zone z (contains (zones cs) z) new) reads,
  )

  module _ (laws : Laws) where
    rollback-rows :
        (s0 s : S) (cs : List (Option PowerCapper)) (rows : List (List (PowerCap × PowerCap)))
        → Distinct (zones cs)
        → AreSaved s0 cs rows
        → All (Readable s) cs
        → ((s' : S) × (rollback rc s cs rows ≡ ok s')
            × All (Restored s0 s') cs
            × ((j y : ℕ) → contains (zones cs) y ≡ false → seen s' j y ≡ seen s j y))
          ⊎ ((rollback rc s cs rows ≡ throw Error.write_failed)
              × (j z : ℕ) × (contains (zones cs) z ≡ true)
              × Refused s0 j z)
    unfolding rollback AreSaved zones Restored Readable Distinct contains
    rollback-rows s0 s [] rows distinct empty reads = inl (s, refl, tt, λ j y out. refl)
    rollback-rows s0 s (none ∷ cs) rows distinct (rest, split, saved) (read, reads) =
        elim (rollback-rows s0 s cs rest distinct saved reads) [
          | inl (s', e, all, kept) ↦ inl (s', rw split e, (tt, all), kept)
          | inr (e, j, z, member, refused) ↦ inr (rw split e, j, z, member, refused)
        ]
    rollback-rows s0 s (some c ∷ cs) rows (new, distinct) (caps, rest, split, first, saved)
          (read, reads) =
        elim (rollback_sockets-cases laws s0 s c c.sockets 0 caps first
          (λ j le lt. read j (omega arith))) [
            | inr (e1, j, refused) ↦ inr (rw (split, e1) refl, j, c.zone, ground arith, refused)
            | inl (s1, e1, back, kept1) ↦
                elim (rollback-rows s0 s1 cs rest distinct saved
                  (Readable-kept s s1 c.zone cs (λ j y ne. kept1 j y (inr ne)) new reads)) [
                    | inr (e, j, z, member, refused) ↦
                        inr (rw (split, e1) e, j, z, ground (arith, member), refused)
                    | inl (s', e, all, kept) ↦ inl (
                      s',
                      rw (split, e1) e,
                      (λ j lt. kept j c.zone new ∙ back j (omega arith) (omega arith), all),
                      λ j y out.
                          kept j y (others c.zone y (contains (zones cs) y) out)
                          ∙ kept1 j y
                              (inr (λ q. differs c.zone y (contains (zones cs) y) out (sym q))),
                    )
                  ]
          ]

    -- For power cappers of distinct zones, and two states in which the limits of their zones can be
    -- read on their sockets, where a call of raplcap that succeeds does what it is asked to do, with
    -- limits that a window gave before: `getRollbackPoint` returns, and rolling back from the other
    -- state either returns, each socket of these zones then reading the limits of both windows and
    -- the enabling that it had, and no other zone being changed, or throws because raplcap refused to
    -- set what a window or a zone of one of these power cappers had.
    pub rollback-get_rollback_point_caps :
        (s0 s : S) (cs : List (Option PowerCapper))
        → Distinct (zones cs)
        → All (Readable s0) cs
        → All (Readable s) cs
        → (rows : List (List (PowerCap × PowerCap))) × (get_rollback_point rc s0 cs ≡ ok rows)
          × (((s' : S) × (rollback rc s cs rows ≡ ok s')
                × All (Restored s0 s') cs
                × ((j y : ℕ) → contains (zones cs) y ≡ false → seen s' j y ≡ seen s j y))
              ⊎ ((rollback rc s cs rows ≡ throw Error.write_failed)
                  × (j z : ℕ) × (contains (zones cs) z ≡ true)
                  × Refused s0 j z))
    rollback-get_rollback_point_caps s0 s cs distinct reads0 reads =
        let (rows, e, saved) = get_rollback_point-AreSaved s0 cs reads0 in
        (rows, e, rollback-rows s0 s cs rows distinct saved reads)
