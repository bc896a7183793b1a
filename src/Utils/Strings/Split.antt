-- ===== src/Utils/Strings/Split.antt =====
-- Splitting a string and joining the pieces, and the names of messages.
mod Examples
use mammut.Common.{
  ℕ, ◌≡◌, refl, sym, ap, subst, ◌∙◌, ◌⊎◌, inl, inr, Bool, true, false, ◌||◌, List, [], ◌∷◌, ◌++◌,
  ◌==◌, ==_self, ==_iff, Bool-cases, All, if◌then◌else◌, Error, Result, ok, ok-injective, throw,
  Text, codes, text_eq, text_eq_iff, arith,
}
use mathlib.Core.List.{append_assoc, append-nil}
use mammut.Utils.Vectors.{contains}
use mammut.Utils.Strings.{split_loop, split, named, get_module_name_from_message_id}

-- The pieces with a delimiter between each two.
unfoldable pub join : ℕ → List Text → Text
join delim [] = []
join delim (t ∷ []) = t
join delim (t ∷ u ∷ ts) = t ++ (delim ∷ join delim (u ∷ ts))

-- The last piece, if there is one, is not empty.
unfoldable pub LastNonempty : List Text → Type 0
LastNonempty [] = Unit
LastNonempty ([] ∷ []) = ⊥
LastNonempty ((x ∷ t) ∷ []) = Unit
LastNonempty (t ∷ u ∷ ts) = LastNonempty (u ∷ ts)

split_loop-word :
    (delim : ℕ) (t s item : Text)
    → contains t delim ≡ false
    → split_loop delim (t ++ s) item ≡ split_loop delim s (item ++ t)
unfolding split_loop contains
split_loop-word delim [] s item h = rw (append-nil item) refl
split_loop-word delim (c ∷ t) s item h =
    rw
      (
        is_false c delim h,
        split_loop-word delim t s (item ++ c ∷ []) (ground arith),
        append_assoc item (c ∷ []) t,
      )
      refl
  where
    is_false : (c delim : ℕ) → (c == delim || contains t delim) ≡ false → (c == delim) ≡ false
    is_false c delim h = ground arith

split_loop-last :
    (delim x : ℕ) (t : Text)
    → contains (x ∷ t) delim ≡ false
    → split_loop delim (x ∷ t) [] ≡ (x ∷ t) ∷ []
unfolding split_loop
split_loop-last delim x t h =
    subst (λ s. split_loop delim s [] ≡ (x ∷ t) ∷ []) (append-nil (x ∷ t))
      (split_loop-word delim (x ∷ t) [] [] h)

-- Joining pieces that do not hold the delimiter, of which the last one is not empty, and splitting
-- the result at the delimiter gives the pieces back.
pub split-join :
    (delim : ℕ) (ts : List Text)
    → All (λ t. contains t delim ≡ false) ts
    → LastNonempty ts
    → split (join delim ts) delim ≡ ts
unfolding split split_loop join LastNonempty
split-join delim [] free last = refl
split-join delim ([] ∷ []) free last = absurd last
split-join delim ((x ∷ t) ∷ []) (h, free) last = split_loop-last delim x t h
split-join delim (t ∷ u ∷ ts) (h, free) last =
    split_loop-word delim t (delim ∷ join delim (u ∷ ts)) [] h
    ∙ rw (==_self delim) (ap (◌∷◌ t) (split-join delim (u ∷ ts) free last))

-- A piece of which a byte was read is given.
split_loop-some :
    (delim : ℕ) (s item : Text) (c : ℕ)
    → (t : Text) × (ts : List Text) × (split_loop delim s (item ++ c ∷ []) ≡ t ∷ ts)
unfolding split_loop
split_loop-some delim [] [] c = (c ∷ [], [], refl)
split_loop-some delim [] (x ∷ item) c = (x ∷ item ++ c ∷ [], [], refl)
split_loop-some delim (d ∷ s) item c = elim (Bool-cases (d == delim)) [
  | inl h ↦ (item ++ c ∷ [], split_loop delim s [], rw h refl)
  | inr h ↦ let (t, ts, e) = split_loop-some delim s (item ++ c ∷ []) d in (t, ts, rw h e)
]

split_loop-start :
    (delim d : ℕ) (s : Text)
    → (t : Text) × (ts : List Text) × (split_loop delim (d ∷ s) [] ≡ t ∷ ts)
unfolding split_loop
split_loop-start delim d s = elim (Bool-cases (d == delim)) [
  | inl h ↦ ([], split_loop delim s [], rw h refl)
  | inr h ↦ let (t, ts, e) = split_loop-some delim s [] d in (t, ts, rw h e)
]

-- The string is what its pieces joined give, or has the delimiter after it.
abbrev Rejoins : ℕ → List Text → Text → Type 0
Rejoins delim pieces s = (join delim pieces ≡ s) ⊎ (join delim pieces ++ delim ∷ [] ≡ s)

Rejoins-cons :
    (delim : ℕ) (item s t : Text) (ts : List Text)
    → Rejoins delim (t ∷ ts) s
    → Rejoins delim (item ∷ t ∷ ts) (item ++ delim ∷ s)
unfolding join
Rejoins-cons delim item s t ts (inl e) = inl (ap (λ r. item ++ delim ∷ r) e)
Rejoins-cons delim item s t ts (inr e) = inr (
    rw (append_assoc item (delim ∷ join delim (t ∷ ts)) (delim ∷ []))
      (ap (λ r. item ++ delim ∷ r) e))

Rejoins-next :
    (delim : ℕ) (s item : Text)
    → Rejoins delim (split_loop delim s []) s
    → Rejoins delim (item ∷ split_loop delim s []) (item ++ delim ∷ s)
unfolding split_loop join
Rejoins-next delim [] item ih = inr refl
Rejoins-next delim (d ∷ s) item ih =
    let (t, ts, e) = split_loop-start delim d s in
    rw e (Rejoins-cons delim item (d ∷ s) t ts (rw e at ih))

join-split_loop : (delim : ℕ) (s item : Text) → Rejoins delim (split_loop delim s item) (item ++ s)
unfolding split_loop join
join-split_loop delim [] [] = inl refl
join-split_loop delim [] (x ∷ item) = inl (rw (append-nil item) refl)
join-split_loop delim (c ∷ s) item = elim (Bool-cases (c == delim)) [
  | inl h ↦ rw (h, (==_iff c delim).0 h) (Rejoins-next delim s item (join-split_loop delim s []))
  | inr h ↦ rw h (rw (append_assoc item (c ∷ []) s) at (join-split_loop delim s (item ++ c ∷ [])))
]

split_loop-free :
    (delim : ℕ) (s item : Text)
    → contains item delim ≡ false
    → All (λ t. contains t delim ≡ false) (split_loop delim s item)
unfolding split_loop contains
split_loop-free delim [] [] h = tt
split_loop-free delim [] (x ∷ item) h = (h, tt)
split_loop-free delim (c ∷ s) item h = elim (Bool-cases (c == delim)) [
  | inl q ↦ rw q (h, split_loop-free delim s [] refl)
  | inr q ↦ rw q (split_loop-free delim s (item ++ c ∷ []) (free item h q))
]
  where
    free :
        (item : Text)
        → contains item delim ≡ false
        → (c == delim) ≡ false
        → contains (item ++ c ∷ []) delim ≡ false
    free [] h q = rw q refl
    free (x ∷ item) h q = ground (arith, free item (ground arith) q)

-- No piece of a split string holds the delimiter, and the pieces joined with it are the string, or
-- the string without the delimiter at its end.
pub join-split :
    (delim : ℕ) (s : Text)
    → All (λ t. contains t delim ≡ false) (split s delim)
      × ((join delim (split s delim) ≡ s) ⊎ (join delim (split s delim) ++ delim ∷ [] ≡ s))
unfolding split contains
join-split delim s = (split_loop-free delim s [] refl, join-split_loop delim s [])
