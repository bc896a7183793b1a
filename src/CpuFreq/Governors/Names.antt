-- ===== src/CpuFreq/Governors/Names.antt =====
-- Governors and their names.
use mammut.Common.{
  ℕ, zero, suc, ◌<◌, ◌≡◌, refl, ap, false, some, [], ◌∷◌, All, text_eq, Text, codes, ok, arith,
}
use mammut.Utils.Strings.{isspace}
use mammut.CpuFreq.Governors.{
  Governor, governor_num, governors_names, Streams, find_name, assign, word_of, string_to_enum,
  get_governor_from_governor_name, get_governor_name_from_governor,
}

-- A text with no space in it.
abbrev pub IsWord : Text → Type 0
IsWord t = All (λ c. isspace c ≡ false) t

-- From a stream that holds a word, and nothing else, the word is extracted.
abbrev pub ReadsWords : Streams → Type 0
ReadsWords streams =
    (c : ℕ) (t : Text) → IsWord (c ∷ t) → streams.next_word (c ∷ t) ≡ some (c ∷ t, [])

module _ (streams : Streams) (reads : ReadsWords streams) where
  word_of-word : (c : ℕ) (t : Text) → IsWord (c ∷ t) → word_of streams (c ∷ t) ≡ c ∷ t
  unfolding word_of
  word_of-word c t w = rw (reads c t w, word_of) refl

  -- What a name is read as.
  pub get_governor-word :
      (junk : ℕ) (c : ℕ) (t : Text)
      → IsWord (c ∷ t)
      → get_governor_from_governor_name streams junk (c ∷ t)
        ≡ assign junk (find_name governors_names (c ∷ t) 0)
  unfolding get_governor_from_governor_name string_to_enum
  get_governor-word junk c t w =
      ap (λ (v : Text). assign junk (find_name governors_names v 0)) (word_of-word c t w)

  -- The name of a governor is read as that governor.
  pub get_governor-get_name :
      (junk : ℕ) (g : Governor)
      → g < governor_num
      → (name : Text) × (get_governor_name_from_governor g ≡ ok name)
        × (get_governor_from_governor_name streams junk name ≡ g)
  unfolding get_governor_name_from_governor isspace find_name assign text_eq
  get_governor-get_name junk zero h =
      (codes "conservative", refl, get_governor-word junk _ _ (ground arith))
  get_governor-get_name junk (suc zero) h =
      (codes "ondemand", refl, get_governor-word junk _ _ (ground arith))
  get_governor-get_name junk (suc (suc zero)) h =
      (codes "interactive", refl, get_governor-word junk _ _ (ground arith))
  get_governor-get_name junk (suc (suc (suc zero))) h =
      (codes "userspace", refl, get_governor-word junk _ _ (ground arith))
  get_governor-get_name junk (suc (suc (suc (suc zero)))) h =
      (codes "powersave", refl, get_governor-word junk _ _ (ground arith))
  get_governor-get_name junk (suc (suc (suc (suc (suc zero))))) h =
      (codes "performance", refl, get_governor-word junk _ _ (ground arith))
  get_governor-get_name junk (suc (suc (suc (suc (suc (suc g)))))) h = absurd (omega arith)
