-- ===== src/CpuFreq/Rollback/Raises.antt =====
-- `setGovernorBounds` where both bounds are to rise above those in force.
use mammut.Common.{ℕ, ◌≡◌, some}
use mammut.CpuFreq.Domain.{File, Files, Domain}
use mammut.CpuFreq.Rollback.Writes.{Policies, Accepts}

-- What the kernel does not accept changes no file.
pub record Refuses {S : Type 0} (files : Files S) (ps : Policies) : Type 0 where
  pub refused :
      (s s' : S) (core core' : ℕ) (file file' : File) (v : ℕ)
      → files.write s core file v ≡ some s'
      → (Accepts files ps s core file v → ⊥)
      → files.read s' core' file' ≡ files.read s core' file'
