-- ===== src/Utils/Vectors/Moves/Examples.antt =====
-- Two of three elements moved to the other vector.
use mammut.Common.{ℕ, ◌+◌, ◌≡◌, List, [], ◌∷◌, length, ok, arith}
use mammut.Utils.Vectors.{move_front_to_end, move_end_to_front}
use mammut.Utils.Vectors.Moves.{move_end_to_front-move_front_to_end}

abbrev three : List ℕ
three = 1 ∷ 2 ∷ 3 ∷ []

abbrev seven : List ℕ
seven = 7 ∷ []

move_end_to_front-move_front_to_end_run :
    (a' b' : List ℕ) × (move_front_to_end three seven 2 ≡ ok (a', b'))
    × (length a' + length b' ≡ length three + length seven)
    × (move_end_to_front b' a' 2 ≡ ok (seven, three))
move_end_to_front-move_front_to_end_run =
    move_end_to_front-move_front_to_end three seven 2 (omega arith)
