-- ===== src/Machine/Healthy.antt =====
-- What the theorems assume of the machine and of the C library, where they assume it.
use diy_ddmin.Base.{ℕ, ◌+◌, ◌-◌, ◌*◌, ◌/◌, ◌^◌, ◌<◌, ◌≡◌, true, some}
use diy_ddmin.Paths.{Bytes, FilePath}
use diy_ddmin.Machine.{Run, Host}

-- `fork` and the opening of files succeed, the program under test can be executed and reads its standard
-- input alone, the process
-- spends less than two seconds of its own CPU time in a `waitpid`, and the quotient of two floats
-- is exact for integers that fit a float's significand.
pub record IsHealthy (host : Host) (program_path : FilePath) (behave : Bytes → Run) : Type 0 where
  pub forks : (k : ℕ) → host.fork_ok k ≡ true
  pub creates : (p : FilePath) → host.can_create p ≡ true
  pub executes : host.program program_path ≡ some (λ files. behave)
  pub idle : (k : ℕ) → host.wait_ticks k < 2 * 1_000_000
  pub exact : (a b : ℕ) → a < 2 ^ 24 → 0 < b → host.ceil_quot a b ≡ (a + (b - 1)) / b
