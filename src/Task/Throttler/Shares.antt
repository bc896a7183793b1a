-- ===== src/Task/Throttler/Shares.antt =====
-- The shares that the throttler hands out, over any sequence of calls and rounds.
use mammut.Common.{
  ℕ, ◌+◌, ◌≤◌, ◌≡◌, refl, ◌⊎◌, inl, inr, false, some, List, [], ◌∷◌, ◌++◌, ◌==◌, arith,
  Option-cases, Bool-cases,
}
use mammut.Common.Int.{ℤ, pos_part, neg_part, add_nat, le_nat}
use mammut.Task.Throttler.{
  Throttler, full, lookup, present, insert, erase, add_process, remove_found, remove_process,
  add_all, remove_all, erase_all,
}

abbrev pub total : List (ℕ × ℕ) → ℕ
total [] = 0
total ((p, v) ∷ m) = v + total m

total-insert : (p v : ℕ) (m : List (ℕ × ℕ)) → total (insert p v m) ≡ v + total m
unfolding insert
total-insert p v [] = refl
total-insert p v ((q, w) ∷ m) = ground (arith, total-insert p v m)

present-insert :
    (r p v : ℕ) (m : List (ℕ × ℕ))
    → present r m ≡ false
    → (p == r) ≡ false
    → present r (insert p v m) ≡ false
unfolding insert present
present-insert r p v [] h ne = ground (arith, h, ne)
present-insert r p v ((q, w) ∷ m) h ne = ground (arith, h, ne, present-insert r p v m)

total-erase_found :
    (p v : ℕ) (m : List (ℕ × ℕ)) → lookup p m ≡ some v → v + total (erase p m) ≡ total m
unfolding lookup erase
total-erase_found p v [] h = cc
total-erase_found p v ((q, w) ∷ m) h = ground (arith, total-erase_found p v m)

total-erase : (p : ℕ) (m : List (ℕ × ℕ)) → total (erase p m) ≤ total m
unfolding erase
total-erase p [] = omega arith
total-erase p ((q, w) ∷ m) = ground (arith, total-erase p m)

pub total-erase_all : (ps : List ℕ) (m : List (ℕ × ℕ)) → total (erase_all ps m) ≤ total m
unfolding erase_all
total-erase_all [] m = omega arith
total-erase_all (p ∷ ps) m = omega (arith, total-erase_all ps (erase p m), total-erase p m)

present-erase : (p q : ℕ) (m : List (ℕ × ℕ)) → present p m ≡ false → present p (erase q m) ≡ false
unfolding present erase
present-erase p q [] h = refl
present-erase p q ((r, w) ∷ m) h = ground (arith, h, present-erase p q m)

pub present-erase_all :
    (p : ℕ) (qs : List ℕ) (m : List (ℕ × ℕ))
    → present p m ≡ false
    → present p (erase_all qs m) ≡ false
unfolding erase_all
present-erase_all p [] m h = h
present-erase_all p (q ∷ qs) m h = present-erase_all p qs (erase q m) (present-erase p q m h)

-- The shares handed out are covered by the sum that the throttler keeps, and that is at most 100%.
pub record Covered (sum : ℤ) (values : List (ℕ × ℕ)) : Type 0 where
  pub not_negative : neg_part sum ≡ 0
  pub enough : total values ≤ pos_part sum
  pub bounded : pos_part sum ≤ full

-- No process of the list is throttled already, or twice in the list.
abbrev pub Pending : List (ℕ × ℕ) → List (ℕ × ℕ) → Type 0
Pending m [] = Unit {0}
Pending m ((p, v) ∷ xs) = (present p m ≡ false) × (present p xs ≡ false) × Pending m xs

Pending-insert :
    (p v : ℕ) (m xs : List (ℕ × ℕ))
    → present p xs ≡ false
    → Pending m xs
    → Pending (insert p v m) xs
unfolding present
Pending-insert p v m [] fresh h = tt
Pending-insert p v m ((q, w) ∷ xs) fresh (a, b, rest) = (
  present-insert q p v m a (ground (arith, fresh)),
  b,
  Pending-insert p v m xs (ground (arith, fresh)) rest,
)

add_process-Covered :
    (t : Throttler) (p v : ℕ)
    → present p t.values ≡ false
    → Covered t.sum t.values
    → Covered (add_process t (p, v)).sum (add_process t (p, v)).values
unfolding add_process
add_process-Covered t p v fresh c = elim (Bool-cases (le_nat (add_nat t.sum v) full)) [
  | inl e ↦
      rw (fresh, e)
        (record {
          not_negative = ground (arith, c.not_negative);
          enough = ground (arith, c.not_negative, c.enough, total-insert p v t.values);
          bounded = ground (arith, c.not_negative, e);
        })
  | inr e ↦ rw (fresh, e) c
]

add_process-values :
    (t : Throttler) (p v : ℕ)
    → present p t.values ≡ false
    → ((add_process t (p, v)).values ≡ insert p v t.values)
      ⊎ ((add_process t (p, v)).values ≡ t.values)
unfolding add_process
add_process-values t p v fresh = elim (Bool-cases (le_nat (add_nat t.sum v) full)) [
  | inl e ↦ inl (rw (fresh, e) refl)
  | inr e ↦ inr (rw (fresh, e) refl)
]

add_process-Pending :
    (t : Throttler) (p v : ℕ) (xs : List (ℕ × ℕ))
    → Pending t.values ((p, v) ∷ xs)
    → Pending (add_process t (p, v)).values xs
add_process-Pending t p v xs (a, b, rest) = elim (add_process-values t p v a) [
  | inl e ↦ rw e (Pending-insert p v t.values xs b rest)
  | inr e ↦ rw e rest
]

pub add_all-Covered :
    (xs : List (ℕ × ℕ)) (t : Throttler)
    → Pending t.values xs
    → Covered t.sum t.values
    → Covered (add_all t xs).sum (add_all t xs).values
unfolding add_all
add_all-Covered [] t h c = c
add_all-Covered ((p, v) ∷ xs) t h c =
    add_all-Covered xs (add_process t (p, v)) (add_process-Pending t p v xs h)
      (add_process-Covered t p v h.0 c)

remove_process-Covered :
    (t : Throttler) (p : ℕ)
    → Covered t.sum t.values
    → Covered (remove_process t p).sum (remove_process t p).values
unfolding remove_process remove_found
remove_process-Covered t p c = elim (Option-cases (lookup p t.values)) [
  | inl e ↦ rw e c
  | inr (v, e) ↦ rw e (record {
    not_negative = ground (arith, c.not_negative, c.enough, total-erase_found p v t.values e);
    enough = ground (arith, c.not_negative, c.enough, total-erase_found p v t.values e);
    bounded = ground (arith, c.not_negative, c.bounded);
  })
]

pub remove_all-Covered :
    (ps : List ℕ) (t : Throttler)
    → Covered t.sum t.values
    → Covered (remove_all t ps).sum (remove_all t ps).values
unfolding remove_all
remove_all-Covered [] t c = c
remove_all-Covered (p ∷ ps) t c =
    remove_all-Covered ps (remove_process t p) (remove_process-Covered t p c)

-- A list of pending processes with one more that is neither throttled nor pending.
pub Pending-append :
    (m xs : List (ℕ × ℕ)) (p v : ℕ)
    → Pending m xs
    → present p m ≡ false
    → present p xs ≡ false
    → Pending m (xs ++ (p, v) ∷ [])
unfolding present
Pending-append m [] p v h a b = (a, refl, tt)
Pending-append m ((q, w) ∷ xs) p v (c, d, rest) a b =
    (c, present-append xs d (ground (arith, b)), Pending-append m xs p v rest a (ground (arith, b)))
  where
    present-append :
        (xs : List (ℕ × ℕ))
        → present q xs ≡ false
        → (p == q) ≡ false
        → present q (xs ++ (p, v) ∷ []) ≡ false
    present-append [] h ne = ground (arith, ne)
    present-append ((r, u) ∷ xs) h ne = ground (arith, ne, present-append xs)
