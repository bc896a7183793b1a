-- ===== src/CpuFreq/VoltageTable/Measured/Keys.antt =====
-- The keys of a voltage table that is measured.
use mammut.Common.{
  ℕ, zero, suc, ◌≡◌, ◌≤◌, refl, sym, ap, ◌∙◌, Bool, true, false, ◌&&◌, ◌||◌, List, [], ◌∷◌, length,
  take, ◌==◌, ok, >>=-eq-ok, ok-injective, arith,
}
use mammut.Utils.Vectors.{contains}
use mammut.CpuFreq.Domain.{
  Files, Domain, governor_userspace, set_governor, write_to_domain_files, File,
  set_frequency_userspace,
}
use mammut.CpuFreq.Rollback.{Row, get_row}
use mammut.CpuFreq.VoltageTable.{Key, VoltageTable, key_lt, insert_entry}
use mammut.CpuFreq.VoltageTable.Measured.{
  Measuring, num_samples, on_each, samples, frequencies, give_back, measure, cores_to_max,
  num_cores, get_voltage_table,
}

-- The entry has the key.
unfoldable pub is_key : Key → Key → Bool
is_key (a, b) (c, d) = a == c && b == d

-- The table has an entry for the key.
unfoldable pub has_key : {V : Type 0} → VoltageTable V → Key → Bool
has_key [] l = false
has_key ((k, v) ∷ t) l = is_key k l || has_key t l

module _ {V : Type 0} where
  pub has_key-insert_entry :
      (t : VoltageTable V) (k : Key) (v : V) (l : Key)
      → has_key (insert_entry k v t) l ≡ (is_key k l || has_key t l)
  unfolding has_key insert_entry is_key key_lt
  has_key-insert_entry [] k v l = refl
  has_key-insert_entry (((a, b), w) ∷ t) (c, d) v (e, f) =
      ground (arith, has_key-insert_entry t (c, d) v (e, f))

module _ {S V : Type 0} (files : Files S) (measuring : Measuring S V) where
  -- The loop over the frequencies makes an entry for each.
  has_key-frequencies :
      (s s' : S) (d : Domain) (n : ℕ) (fs : List ℕ) (table t : VoltageTable V) (a b : ℕ)
      → frequencies files measuring s d n fs table ≡ ok (s', t)
      → has_key t (a, b) ≡ (has_key table (a, b) || (n == a && contains fs b))
  unfolding frequencies contains is_key
  has_key-frequencies s s' d n [] table t a b e = ground (arith, e)
  has_key-frequencies s s' d n (f ∷ fs) table t a b e =
      let (set, e1, rest) = >>=-eq-ok (set_frequency_userspace files s d f) _ e in
      let sampled = samples files measuring set.0 d num_samples measuring.no_voltage in
      let v = measuring.over sampled.1 num_samples in
      has_key-frequencies sampled.0 s' d n fs (insert_entry (n, f) v table) t a b rest
      ∙ ground (arith, has_key-insert_entry table (n, f) v (a, b))

  -- Every measuring makes the entries for the number of the cores that are kept busy.
  has_key-measure :
      (s s' : S) (d : Domain) (row : Row) (n : ℕ) (cores : List ℕ) (t : VoltageTable V) (a b : ℕ)
      → measure files measuring (s, true) d row n cores ≡ ok (s', t)
      → has_key t (a, b) ≡ (n == a && contains d.available_frequencies b)
  unfolding measure has_key
  has_key-measure s s' d row n cores t a b e =
      let (s1, e1, r1) =
        >>=-eq-ok (on_each files measuring measuring.maximize_utilization s cores) _ e in
      let (m, e2, r2) =
        >>=-eq-ok (frequencies files measuring s1 d n d.available_frequencies []) _ r1 in
      let (s2, e3, r3) =
        >>=-eq-ok (on_each files measuring measuring.reset_utilization m.0 cores) _ r2 in
      let (s3, e4, r4) = >>=-eq-ok (give_back files measuring s2 d row) _ r3 in
      let same : m.1 ≡ t = ap (λ (q : S × VoltageTable V). q.1) (ok-injective r4) in
      ap (λ (q : VoltageTable V). has_key q (a, b)) (sym same)
      ∙ has_key-frequencies s1 m.0 d n d.available_frequencies [] m.1 a b e2

  governor_set :
      (s s' : S) (b : Bool) (d : Domain)
      → contains d.available_governors governor_userspace ≡ true
      → set_governor files s d governor_userspace ≡ ok (s', b)
      → b ≡ true
  unfolding set_governor
  governor_set s s' b d can e =
      let (s1, e1, r1) =
        >>=-eq-ok (write_to_domain_files files s d File.scaling_governor governor_userspace) _
          (rw can at e) in
      sym (ap (λ (q : S × Bool). q.1) (ok-injective r1))

  length-take : (n : ℕ) (xs : List ℕ) → n ≤ length xs → length (take n xs) ≡ n
  length-take zero xs h = refl
  length-take (suc n) [] h = elim h [ ]
  length-take (suc n) (x ∷ xs) h = ap suc (length-take n xs (omega arith))

  -- A table that `getVoltageTable` returns for a domain that can be set to userspace has an entry
  -- for each of the frequencies, and no other.
  pub has_key-get_voltage_table :
      (s s' : S) (d : Domain) (n : ℕ) (only : Bool) (t : VoltageTable V) (a b : ℕ)
      → contains d.available_governors governor_userspace ≡ true
      → n ≤ num_cores files measuring d only
      → get_voltage_table files measuring s d n only ≡ ok (s', t)
      → has_key t (a, b) ≡ (n == a && contains d.available_frequencies b)
  unfolding get_voltage_table cores_to_max num_cores
  has_key-get_voltage_table s s' d n only t a b can h e =
      let cores = cores_to_max files measuring d n only in
      let size : length cores ≡ n = length-take n _ h in
      let (row, e1, r1) = >>=-eq-ok (get_row files s d) _ e in
      let (set, e2, r2) = >>=-eq-ok (set_governor files s d governor_userspace) _ r1 in
      let on : set.1 ≡ true = governor_set s set.0 set.1 d can e2 in
      has_key-measure set.0 s' d row (length cores) cores t a b (
        ap (λ (q : Bool). measure files measuring (set.0, q) d row (length cores) cores) (sym on)
        ∙ r2)
      ∙ ap (λ (k : ℕ). k == a && contains d.available_frequencies b) size
