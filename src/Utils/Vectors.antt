-- ===== src/Utils/Vectors.antt =====
-- The vector helpers of include/mammut/utils.hpp. A `std::vector` is a list; the iterator ranges of
-- the source are `take` and `drop`. A count above the vector's size makes an iterator that is out
-- of the vector, which is written as `Error.uninitialised`; `a` and `b` are not the same vector.
pub mod Additions
pub mod Moves
use mammut.Common.{
  ℕ, ◌-◌, ◌≡◌, Bool, true, false, ◌&&◌, ◌||◌, List, [], ◌∷◌, ◌++◌, length, take, drop, leb, ◌==◌,
  if◌then◌else◌, Error, Result, ok, throw, ◌>>=◌,
}

-- `contains(vec, value)`
unfoldable pub contains : List ℕ → ℕ → Bool
contains [] value = false
contains (x ∷ vec) value = x == value || contains vec value

-- `contains(x, y)` for two vectors
pub contains_all : List ℕ → List ℕ → Bool
contains_all [] y = true
contains_all (v ∷ x) y = contains y v && contains_all x y

-- No value stands twice in the list.
unfoldable pub Distinct : List ℕ → Type 0
Distinct [] = Unit
Distinct (x ∷ xs) = (contains xs x ≡ false) × Distinct xs

module _ {ℓ} {A : Type ℓ} where
  -- `insertFrontToEnd`: what `b` is afterwards.
  pub insert_front_to_end : List A → List A → ℕ → Result (List A)
  insert_front_to_end a b n =
      if leb n (length a) then ok (b ++ take n a) else throw Error.uninitialised

  -- `insertToEnd`
  pub insert_to_end : List A → List A → Result (List A)
  insert_to_end a b = insert_front_to_end a b (length a)

  -- `moveFrontToEnd`: what `a` and `b` are afterwards.
  pub move_front_to_end : List A → List A → ℕ → Result (List A × List A)
  move_front_to_end a b n = insert_front_to_end a b n >>= λ b'. ok (drop n a, b')

  -- `moveToEnd`
  pub move_to_end : List A → List A → Result (List A × List A)
  move_to_end a b = move_front_to_end a b (length a)

  -- `insertEndToFront`
  pub insert_end_to_front : List A → List A → ℕ → Result (List A)
  insert_end_to_front a b n =
      if leb n (length a) then ok (drop (length a - n) a ++ b) else throw Error.uninitialised

  -- `insertToFront`
  pub insert_to_front : List A → List A → Result (List A)
  insert_to_front a b = insert_end_to_front a b (length a)

  -- `moveEndToFront`
  pub move_end_to_front : List A → List A → ℕ → Result (List A × List A)
  move_end_to_front a b n = insert_end_to_front a b n >>= λ b'. ok (take (length a - n) a, b')

  -- `moveToFront`
  pub move_to_front : List A → List A → Result (List A × List A)
  move_to_front a b = move_end_to_front a b (length a)
