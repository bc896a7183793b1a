-- ===== src/CpuFreq/Governors.antt =====
-- The enumeration Governor of include/mammut/cpufreq/cpufreq.hpp and the conversion of governors
-- from and to their names in src/cpufreq/cpufreq.cpp, with the templates of
-- include/mammut/utils.hpp that it uses. The extraction from a stream is a parameter.
pub mod Names
use mammut.Common.{
  ℕ, suc, Option, some, none, List, [], ◌∷◌, get_elem?, if◌then◌else◌, Error, Result, or_throw,
  Text, codes, text_eq,
}

-- A governor is its place in the enumeration.
abbrev pub Governor : Type 0
Governor = ℕ

abbrev pub governor_userspace : Governor
governor_userspace = 3

abbrev pub governor_num : Governor
governor_num = 6

-- `enumStrings<Governor>::data`
abbrev pub governors_names : List Text
governors_names =
    codes "conservative"
    ∷ codes "ondemand"
    ∷ codes "interactive"
    ∷ codes "userspace"
    ∷ codes "powersave"
    ∷ codes "performance"
    ∷ []

-- How a stream gives a number or a word, with what it then still holds; none where it fails. `atoll`
-- is `string_to_uint`.
pub record Streams : Type 0 where
  pub next_uint : Text → Option (ℕ × Text)
  pub next_word : Text → Option (Text × Text)
  pub string_to_uint : Text → ℕ

-- `std::find`, from the place `i` on.
unfoldable pub find_name : List Text → Text → ℕ → Option ℕ
find_name [] value i = none
find_name (name ∷ names) value i =
    let later = find_name names value (suc i) in if text_eq name value then some i else later

-- Where no name is found the variable is left alone.
unfoldable pub assign : ℕ → Option ℕ → ℕ
assign e none = e
assign e (some found) = found

module _ (streams : Streams) where
  -- What `ss >> value` leaves in `value`.
  unfoldable pub word_of : Text → Text
  word_of s = elim (streams.next_word s) [ none ↦ [] | some (word, rest) ↦ word ]

  -- `stringToEnum`, where the variable holds `e`.
  unfoldable pub string_to_enum : List Text → Text → ℕ → ℕ
  string_to_enum names s e = assign e (find_name names (word_of s) 0)

  -- `getGovernorFromGovernorName`; `junk` is what its variable, which nothing sets, holds.
  unfoldable pub get_governor_from_governor_name : ℕ → Text → Governor
  get_governor_from_governor_name junk name = string_to_enum governors_names name junk

-- `getGovernorNameFromGovernor`; an index behind the table is out of range.
pub get_governor_name_from_governor : Governor → Result Text
get_governor_name_from_governor g = or_throw Error.uninitialised (get_elem? governors_names g)
