-- ===== src/Utils/Vectors/Additions.antt =====
-- Vectors without repetitions that grow at their end.
use mammut.Common.{
  ℕ, ◌≡◌, refl, inl, inr, false, ◌||◌, Bool-cases, List, [], ◌∷◌, ◌++◌, ◌==◌, if◌then◌else◌, arith,
}
use mammut.Utils.Vectors.{contains, Distinct}

pub contains-append :
    (xs : List ℕ) (y v : ℕ) → contains (xs ++ y ∷ []) v ≡ (contains xs v || y == v)
unfolding contains
contains-append [] y v = ground arith
contains-append (x ∷ xs) y v = ground (arith, contains-append xs y v)

pub Distinct-append :
    (xs : List ℕ) (y : ℕ) → contains xs y ≡ false → Distinct xs → Distinct (xs ++ y ∷ [])
unfolding contains Distinct
Distinct-append [] y h d = (refl, tt)
Distinct-append (x ∷ xs) y h (new, d) =
    (ground (arith, contains-append xs y x), Distinct-append xs y (ground arith) d)

-- The list with the value at its end, unless it is there already.
abbrev pub add : List ℕ → ℕ → List ℕ
add r i = if contains r i then r else (r ++ i ∷ [])

pub Distinct-add : (r : List ℕ) (i : ℕ) → Distinct r → Distinct (add r i)
Distinct-add r i d = elim (Bool-cases (contains r i)) [
  | inl h ↦ rw h d
  | inr h ↦ rw h (Distinct-append r i h d)
]

pub contains-add : (r : List ℕ) (i v : ℕ) → contains (add r i) v ≡ (contains r v || i == v)
contains-add r i v = elim (Bool-cases (contains r i)) [
  | inl h ↦ rw h (grind arith)
  | inr h ↦ rw h (contains-append r i v)
]
