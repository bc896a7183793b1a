-- ===== src/Utils/Strings/Trim/Examples.antt =====
-- A line with white space on both sides.
use mammut.Common.{ℕ, List, ◌≡◌, true, false, ◌++◌, codes}
use mammut.Utils.Strings.{trim}
use mammut.Utils.Strings.Trim.{all_spaces, first_is_space, last_is_space, trim-lem}

trim-lem_run :
    (a b : List ℕ) × (all_spaces a ≡ true)
    × (all_spaces b ≡ true)
    × (a ++ trim (codes "  a b\t") ++ b ≡ codes "  a b\t")
    × (first_is_space (trim (codes "  a b\t")) ≡ false)
    × (last_is_space (trim (codes "  a b\t")) ≡ false)
trim-lem_run = trim-lem (codes "  a b\t")
