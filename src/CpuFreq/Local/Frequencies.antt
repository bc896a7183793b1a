-- ===== src/CpuFreq/Local/Frequencies.antt =====
-- The frequencies of a domain that is made on the kernel's files.
use mammut.Common.{
  ℕ, zero, suc, ◌+◌, ◌≤◌, ◌<◌, ◌≡◌, refl, sym, ap, subst, ◌∙◌, Bool, true, ◌||◌, Bool-cases, inl,
  inr, Option, some, none, Option-cases, List, [], ◌∷◌, length, leb, ◌==◌, ok, Text, arith,
}
use mammut.Utils.Vectors.{contains}
use mammut.CpuFreq.Governors.{Streams}
use mammut.CpuFreq.Domain.{
  Files, Domain, last_of, set_frequency_userspace, set_highest_frequency_userspace,
  set_lowest_frequency_userspace,
}
use mammut.CpuFreq.Local.Made.{made_of, create_kernel_domain-made_of}
use mammut.CpuFreq.Local.{
  Sysfs, insert_sorted, sort, extract_loop, extract_all, read_frequencies, governors_of,
  create_kernel_domain,
}

module _ {A : Type 0} (next : Text → Option (A × Text)) where
  -- What a stream gives it does not hold any more.
  abbrev pub Consumes : Type 0
  Consumes = (s : Text) (x : A) (rest : Text) → next s ≡ some (x, rest) → length rest < length s

  extract_loop-none : (fuel : ℕ) (s : Text) → next s ≡ none → extract_loop next fuel s ≡ []
  unfolding extract_loop
  extract_loop-none zero s e = refl
  extract_loop-none (suc fuel) s e = rw (e, extract_loop) refl

  extract_loop-some :
      (fuel : ℕ) (s : Text) (x : A) (rest : Text)
      → next s ≡ some (x, rest)
      → extract_loop next (suc fuel) s ≡ x ∷ extract_loop next fuel rest
  unfolding extract_loop
  extract_loop-some fuel s x rest e = rw (e, extract_loop) refl

  extract_loop-enough :
      (fuel more : ℕ) (s : Text)
      → Consumes
      → length s ≤ fuel
      → extract_loop next (fuel + more) s ≡ extract_loop next fuel s
  extract_loop-enough zero more s consumes h = elim (Option-cases (next s)) [
    | inl e ↦ extract_loop-none (0 + more) s e ∙ sym (extract_loop-none 0 s e)
    | inr ((x, rest), e) ↦ absurd (omega (arith, consumes s x rest e))
  ]
  extract_loop-enough (suc fuel) more s consumes h = elim (Option-cases (next s)) [
    | inl e ↦ extract_loop-none (suc fuel + more) s e ∙ sym (extract_loop-none (suc fuel) s e)
    | inr ((x, rest), e) ↦
        ap (λ (k : ℕ). extract_loop next k s) (suc_add fuel more)
        ∙ extract_loop-some (fuel + more) s x rest e
        ∙ ap (◌∷◌ x)
            (extract_loop-enough fuel more rest consumes (omega (arith, consumes s x rest e)))
        ∙ sym (extract_loop-some fuel s x rest e)
  ]
    where
      suc_add : (a b : ℕ) → suc a + b ≡ suc (a + b)
      suc_add a b = omega arith

  -- With a round for each byte the loop ends where the extraction fails: more rounds give the same.
  pub extract_all-enough :
      (more : ℕ) (s : Text) → Consumes → extract_loop next (length s + more) s ≡ extract_all next s
  unfolding extract_all
  extract_all-enough more s consumes = extract_loop-enough (length s) more s consumes (omega arith)

-- The numbers rise from `x` on.
abbrev Rising : ℕ → List ℕ → Type 0
Rising x [] = Unit
Rising x (y ∷ ys) = (x ≤ y) × Rising y ys

abbrev IsSorted : List ℕ → Type 0
IsSorted [] = Unit
IsSorted (x ∷ xs) = Rising x xs

insert_sorted-Rising : (x y : ℕ) (ys : List ℕ) → x ≤ y → Rising x ys → Rising x (insert_sorted y ys)
unfolding insert_sorted
insert_sorted-Rising x y [] h r = (h, tt)
insert_sorted-Rising x y (z ∷ zs) h (l, r) = elim (Bool-cases (leb y z)) [
  | inl before ↦ rw before (h, (ground arith, r))
  | inr behind ↦ rw behind (l, insert_sorted-Rising z y zs (ground arith) r)
]

insert_sorted-IsSorted : (y : ℕ) (xs : List ℕ) → IsSorted xs → IsSorted (insert_sorted y xs)
unfolding insert_sorted
insert_sorted-IsSorted y [] r = tt
insert_sorted-IsSorted y (z ∷ zs) r = elim (Bool-cases (leb y z)) [
  | inl before ↦ rw before (ground arith, r)
  | inr behind ↦ rw behind (insert_sorted-Rising z y zs (ground arith) r)
]

sort-IsSorted : (xs : List ℕ) → IsSorted (sort xs)
unfolding sort
sort-IsSorted [] = tt
sort-IsSorted (x ∷ xs) = insert_sorted-IsSorted x (sort xs) (sort-IsSorted xs)

contains-insert_sorted :
    (x : ℕ) (xs : List ℕ) (v : ℕ) → contains (insert_sorted x xs) v ≡ (x == v || contains xs v)
unfolding insert_sorted contains
contains-insert_sorted x [] v = refl
contains-insert_sorted x (y ∷ ys) v = ground (arith, contains-insert_sorted x ys v)

contains-sort : (xs : List ℕ) (v : ℕ) → contains (sort xs) v ≡ contains xs v
unfolding sort contains
contains-sort [] v = refl
contains-sort (x ∷ xs) v =
    contains-insert_sorted x (sort xs) v ∙ ap (λ (b : Bool). x == v || b) (contains-sort xs v)

-- The ends of a sorted list.
first-le : (x : ℕ) (xs : List ℕ) (v : ℕ) → Rising x xs → contains (x ∷ xs) v ≡ true → x ≤ v
unfolding contains
first-le x [] v r h = ground arith
first-le x (y ∷ ys) v (l, r) h = ground (arith, first-le y ys v r)

contains-first : (x : ℕ) (xs : List ℕ) → contains (x ∷ xs) x ≡ true
unfolding contains
contains-first x xs = ground arith

contains-last : (x : ℕ) (xs : List ℕ) → contains (x ∷ xs) (last_of x xs) ≡ true
unfolding contains last_of
contains-last x [] = ground arith
contains-last x (y ∷ ys) = ground (arith, contains-last y ys)

le-last :
    (x : ℕ) (xs : List ℕ) (v : ℕ) → Rising x xs → contains (x ∷ xs) v ≡ true → v ≤ last_of x xs
unfolding contains last_of
le-last x [] v r h = ground arith
le-last x (y ∷ ys) v (l, r) h = ground (arith, le-last y ys v r, le-last y ys y r)

insert_sorted-cons : (x : ℕ) (xs : List ℕ) → (y : ℕ) × (ys : List ℕ) × (insert_sorted x xs ≡ y ∷ ys)
unfolding insert_sorted
insert_sorted-cons x [] = (x, [], refl)
insert_sorted-cons x (z ∷ zs) = elim (Bool-cases (leb x z)) [
  | inl before ↦ (x, z ∷ zs, rw before refl)
  | inr behind ↦ (z, insert_sorted x zs, rw behind refl)
]

module _ {S : Type 0} (files : Files S) (s : S) (d : Domain) (y : ℕ) (ys : List ℕ)
    (e : d.available_frequencies ≡ y ∷ ys) where
  highest_of :
      set_highest_frequency_userspace files s d ≡ set_frequency_userspace files s d (last_of y ys)
  unfolding set_highest_frequency_userspace
  highest_of = rw e refl

  lowest_of : set_lowest_frequency_userspace files s d ≡ set_frequency_userspace files s d y
  unfolding set_lowest_frequency_userspace
  lowest_of = rw e refl

-- Where the frequencies that the files give, one or more, and the governors can be read, the
-- constructor returns. In its domain every frequency that the files give is available, and no other;
-- setting the highest frequency sets one of them to which each is at most equal, and setting the
-- lowest sets one to which each is at least equal.
pub create_kernel_domain-extremes :
    {S : Type 0} (files : Files S) (streams : Streams) (sysfs : Sysfs) (junk : ℕ → ℕ) (s : S)
    (first : ℕ) (others : List ℕ) (f : ℕ) (fs : List ℕ) (governors : Text)
    → read_frequencies streams
        (sysfs.scaling_available_frequencies first)
        (sysfs.time_in_state first)
      ≡ ok (f ∷ fs)
    → sysfs.scaling_available_governors first ≡ some governors
    → (d : Domain) × (high : ℕ) × (low : ℕ) × (create_kernel_domain streams sysfs junk first others
        ≡ ok d)
      × ((v : ℕ) → contains d.available_frequencies v ≡ contains (f ∷ fs) v)
      × (contains (f ∷ fs) high ≡ true)
      × (contains (f ∷ fs) low ≡ true)
      × ((v : ℕ) → contains (f ∷ fs) v ≡ true → (low ≤ v) × (v ≤ high))
      × (set_highest_frequency_userspace files s d ≡ set_frequency_userspace files s d high)
      × (set_lowest_frequency_userspace files s d ≡ set_frequency_userspace files s d low)
unfolding set_highest_frequency_userspace set_lowest_frequency_userspace sort
create_kernel_domain-extremes files streams sysfs junk s first others f fs governors read there =
    let gs = governors_of streams junk (extract_all streams.next_word governors) in
    let (y, ys, cons) = insert_sorted-cons f (sort fs) in
    let rises : Rising y ys = subst IsSorted cons (sort-IsSorted (f ∷ fs)) in
    let same : (v : ℕ) → contains (y ∷ ys) v ≡ contains (f ∷ fs) v =
      λ v. ap (λ (l : List ℕ). contains l v) (sym cons) ∙ contains-sort (f ∷ fs) v in
    (
      made_of first others (f ∷ fs) gs,
      last_of y ys,
      y,
      create_kernel_domain-made_of streams sysfs junk first others (f ∷ fs) governors read there,
      λ v. contains-sort (f ∷ fs) v,
      sym (same (last_of y ys)) ∙ contains-last y ys,
      sym (same y) ∙ contains-first y ys,
      λ v h. (first-le y ys v rises (same v ∙ h), le-last y ys v rises (same v ∙ h)),
      highest_of files s (made_of first others (f ∷ fs) gs) y ys cons,
      lowest_of files s (made_of first others (f ∷ fs) gs) y ys cons,
    )
