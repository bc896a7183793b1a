-- ===== src/Utils/Msr/Store.antt =====
-- Devices for tests: every register holds what was last written to it.
use mammut.Common.{ℕ, ◌%◌, ◌^◌, ◌<◌, ◌≡◌, ap, ◌≢◌, some, ◌==◌, if◌then◌else◌, arith}
use mammut.Utils.Msr.{Device}
use mathlib.Core.Option.{some-injective}

pub store_pread-lt : (s : ℕ → ℕ) (which v : ℕ) → some (s which % 2 ^ 64) ≡ some v → v < 2 ^ 64
store_pread-lt s which v e = ground arith

abbrev pub store_set : (ℕ → ℕ) → ℕ → ℕ → ℕ → ℕ
store_set s which v k = if k == which then v else s k

pub store_pread-pwrite :
    (s t : ℕ → ℕ) (which v : ℕ)
    → v < 2 ^ 64
    → some (store_set s which v) ≡ some t
    → some (t which % 2 ^ 64) ≡ some v
store_pread-pwrite s t which v h e =
    let here : store_set s which v which ≡ t which =
      ap (λ (f : ℕ → ℕ). f which) (some-injective _ _ e) in
    rw (← here) (ground arith)

pub store_pread-pwrite_ne :
    (s t : ℕ → ℕ) (which other v : ℕ)
    → which ≢ other
    → some (store_set s which v) ≡ some t
    → some (t other % 2 ^ 64) ≡ some (s other % 2 ^ 64)
store_pread-pwrite_ne s t which other v h e =
    let there : store_set s which v other ≡ t other =
      ap (λ (f : ℕ → ℕ). f other) (some-injective _ _ e) in
    rw (← there) (ground arith)

abbrev pub store : Device
store = record {
  State = ℕ → ℕ;
  pread = λ s which. some (s which % 2 ^ 64);
  pwrite = λ s which v. some (store_set s which v);
  pread-lt = store_pread-lt;
  pread-pwrite = store_pread-pwrite;
  pread-pwrite_ne = store_pread-pwrite_ne;
}
