-- ===== src/Utils/Strings.antt =====
-- The string helpers of src/utils.cpp. A `std::string` is the list of its bytes; `atoi` and the
-- conversion to a double of the C library are parameters.
pub mod Split
pub mod Names
pub mod Trim
use mammut.Common.{
  ℕ, zero, suc, ◌+◌, Bool, true, false, not, ◌&&◌, ◌||◌, List, [], ◌∷◌, ◌++◌, length, get_elem?,
  leb, ◌==◌, if◌then◌else◌, Error, Result, ok, throw, Text, codes, text_eq,
}

-- The loop of `split`: `getline` up to the delimiter, which it drops; what is left at the end of
-- the string is an item where a byte of it was read.
unfoldable pub split_loop : ℕ → Text → Text → List Text
split_loop delim [] [] = []
split_loop delim [] (x ∷ item) = (x ∷ item) ∷ []
split_loop delim (c ∷ s) item =
    let next = split_loop delim s [] in
    let more = split_loop delim s (item ++ c ∷ []) in if c == delim then item ∷ next else more

-- `split`
unfoldable pub split : Text → ℕ → List Text
split s delim = split_loop delim s []

-- `isspace` in the C locale.
unfoldable pub isspace : ℕ → Bool
isspace c = c == 32 || leb 9 c && leb c 13

-- `ltrim`
pub ltrim : Text → Text
ltrim [] = []
ltrim (c ∷ s) = let rest = ltrim s in if isspace c then rest else c ∷ s

-- A byte before what is kept of the bytes after it.
keep : ℕ → Text → Text
keep c [] = if isspace c then [] else c ∷ []
keep c (d ∷ rest) = c ∷ d ∷ rest

-- `rtrim`: the bytes up to the last one that is no space.
pub rtrim : Text → Text
rtrim [] = []
rtrim (c ∷ s) = keep c (rtrim s)

-- `trim`
pub trim : Text → Text
trim s = ltrim (rtrim s)

unfoldable pub isdigit : ℕ → Bool
isdigit c = leb 48 c && leb c 57

unfoldable pub all_digits : Text → Bool
all_digits [] = true
all_digits (c ∷ s) = isdigit c && all_digits s

-- `isNumber`
unfoldable pub is_number : Text → Bool
is_number [] = false
is_number (c ∷ s) = all_digits (c ∷ s)

-- The tokens of a message's name, of which the second one is the module.
unfoldable pub named : List Text → Result Text
named (a ∷ b ∷ c ∷ []) = if text_eq a (codes "mammut") then ok b else throw Error.wrong_message_id
named _ = throw Error.wrong_message_id

-- `getModuleNameFromMessageId`
unfoldable pub get_module_name_from_message_id : Text → Result Text
get_module_name_from_message_id message_id = named (split message_id 46)

-- `dashedRange.substr(0, dashPos)` and `dashedRange.substr(dashPos + 1)`: both are the whole string
-- where there is no dash, since `npos + 1` is 0.
dash_parts : Text → Text × Text
dash_parts s = parts s []
  where
    parts : Text → Text → Text × Text
    parts [] before = (s, s)
    parts (c ∷ rest) before =
        let later = parts rest (before ++ c ∷ []) in if c == 45 then (before, rest) else later

-- `dashedRangeToIntegers`, for the `atoi` of `stringToInt`.
pub dashed_range_to_integers : {A : Type 0} → (Text → A) → Text → A × A
dashed_range_to_integers atoi s = (atoi ((dash_parts s).0), atoi ((dash_parts s).1))
