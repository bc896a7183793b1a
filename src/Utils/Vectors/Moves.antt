-- ===== src/Utils/Vectors/Moves.antt =====
-- Moving elements between two vectors and back.
mod Examples
use mammut.Common.{
  ℕ, zero, suc, ◌+◌, ◌-◌, ◌≤◌, ◌≡◌, refl, ap, true, List, [], ◌∷◌, ◌++◌, length, length-append,
  take, drop, take-append-drop, leb, if◌then◌else◌, Result, ok, ◌>>=◌, arith,
}
use mammut.Utils.Vectors.{
  insert_front_to_end, move_front_to_end, insert_end_to_front, move_end_to_front,
}

module _ {ℓ} {A : Type ℓ} where
  length-take : (n : ℕ) (a : List A) → n ≤ length a → length (take n a) ≡ n
  length-take zero a h = refl
  length-take (suc n) [] h = absurd (omega arith)
  length-take (suc n) (x ∷ a) h = ap suc (length-take n a (omega arith))

  take-append : (a b : List A) → take (length a) (a ++ b) ≡ a
  take-append [] b = refl
  take-append (x ∷ a) b = ap (◌∷◌ x) (take-append a b)

  drop-append : (a b : List A) → drop (length a) (a ++ b) ≡ b
  drop-append [] b = refl
  drop-append (x ∷ a) b = drop-append a b

  end_to_front :
      (a b c : List A) (n : ℕ) → length c ≡ n → move_end_to_front (b ++ c) a n ≡ ok (b, c ++ a)
  unfolding move_end_to_front insert_end_to_front
  end_to_front a b c n e =
      let size : length (b ++ c) - n ≡ length b = omega (arith, length-append b c) in
      let fits : leb n (length (b ++ c)) ≡ true = ground (arith, length-append b c) in
      rw (fits, size, drop-append b c, take-append b c) refl

  -- Moving the first `n` elements of `a` to the end of `b`, for an `n` of at most the size of `a`,
  -- succeeds and loses no element, and moving the last `n` elements back to the front gives both
  -- vectors back.
  pub move_end_to_front-move_front_to_end :
      (a b : List A) (n : ℕ)
      → n ≤ length a
      → (a' b' : List A) × (move_front_to_end a b n ≡ ok (a', b'))
        × (length a' + length b' ≡ length a + length b)
        × (move_end_to_front b' a' n ≡ ok (b, a))
  unfolding move_front_to_end insert_front_to_end
  move_end_to_front-move_front_to_end a b n h =
      let fits : leb n (length a) ≡ true = ground arith in
      let sizes : length (drop n a) + length (b ++ take n a) ≡ length a + length b = omega (
        arith,
        length-append b (take n a),
        length-append (take n a) (drop n a),
        ap length (take-append-drop n a),
      ) in
      (
        drop n a,
        b ++ take n a,
        rw fits refl,
        sizes,
        rw (end_to_front (drop n a) b (take n a) n (length-take n a h), take-append-drop n a) refl,
      )
