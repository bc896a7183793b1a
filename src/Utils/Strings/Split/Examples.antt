-- ===== src/Utils/Strings/Split/Examples.antt =====
-- Splitting a line of numbers and the name of a message.
use mammut.Common.{◌≡◌, refl, List, [], ◌∷◌, Text, codes, text_eq, ok}
use mammut.Utils.Vectors.{contains}
use mammut.Utils.Strings.{split_loop, split, named, get_module_name_from_message_id}
use mammut.Utils.Strings.Split.{join, LastNonempty, split-join}

abbrev fields : List Text
fields = codes "12" ∷ codes "" ∷ codes "7" ∷ []

split-join_run : split (join 44 fields) 44 ≡ fields
unfolding LastNonempty contains
split-join_run = split-join 44 fields (refl, (refl, (refl, tt))) tt

-- The module of a message's name.
module_of_get : get_module_name_from_message_id (codes "mammut.energy.Get") ≡ ok (codes "energy")
unfolding get_module_name_from_message_id split split_loop named text_eq
module_of_get = refl
