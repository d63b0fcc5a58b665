-- ===== src/Oracle.antt =====
-- `test_buffer_overflow` and `test_buffer_overflow_thread` of src/ddmin.c: whether a run of the
-- program under test prints the error message.
pub mod Search
pub mod Verdict
pub mod Failures
use diy_ddmin.Base.{
  ℕ, suc, ◌≡◌, refl, Bool, true, false, Option, none, some, [], ◌∷◌, ◌++◌, length, if◌then◌else◌,
}
use diy_ddmin.Paths.{Bytes, FilePath, codes, decimal, stdout_path, stderr_path}
use diy_ddmin.Machine.{
  Host, World, Outcome, done, exited, M, pure, exit, ◌>>=◌, ◌>>◌, set_file, into_array, remove,
}
use diy_ddmin.Runner.{EType, no_error, e_fork, e_timeout_kill, RunnerErrorCode, runner}
use diy_ddmin.Oracle.Search.{prints}

-- `fopen(stderr_path, "wb")` and `fclose`, with the exit where that fails
unfoldable pub create_file : Host → FilePath → M (Unit {0})
create_file host p w = if host.can_create p then done tt (set_file p (some []) w) else exited 1 w

-- `fopen(stderr_path, "rb")` with its exit, and the loop over the lines
unfoldable pub scan_file : FilePath → Bytes → M Bool
scan_file p msg w = elim (w.files p) [ none ↦ exited 1 w | some c ↦ done (prints msg c) w ]

-- Both outputs are removed whether the message was found or not.
unfoldable pub look_for : (out err : FilePath) → Bytes → M ℕ
look_for out err msg = do
  found ← scan_file err msg
  remove out
  remove err
  pure (if found then 1 else 0)

-- A run that timed out counts as one without the error, and leaves its two outputs behind.
unfoldable pub verdict : (out err : FilePath) → Bytes → EType → M ℕ
verdict out err msg e_timeout_kill = pure 0
verdict out err msg no_error = look_for out err msg
verdict out err msg e_fork = look_for out err msg

-- The variant for threads removes them.
unfoldable pub verdict_thread : (out err : FilePath) → Bytes → EType → M ℕ
verdict_thread out err msg e_timeout_kill = do remove out; remove err; pure 0
verdict_thread out err msg no_error = look_for out err msg
verdict_thread out err msg e_fork = look_for out err msg

unfoldable pub test_buffer_overflow : Host → (program_path input : FilePath) → Bytes → M ℕ
test_buffer_overflow host program_path input msg = do
  out ← into_array 256 (stdout_path input)
  err ← into_array 256 (stderr_path input)
  create_file host err
  code ← runner host program_path input out err
  verdict out err msg code.type

-- `sprintf(stdout_path, "./dummy%d.stdout", out_idx)`
unfoldable pub dummy_path : ℕ → Bytes → FilePath
unfolding decimal
dummy_path out_idx suffix = codes "./dummy" ++ decimal out_idx suffix

unfoldable pub test_buffer_overflow_thread :
    Host → (program_path input : FilePath) → Bytes → ℕ → M ℕ
test_buffer_overflow_thread host program_path input msg out_idx = do
  out ← into_array 256 (dummy_path out_idx (codes ".stdout"))
  err ← into_array 256 (dummy_path out_idx (codes ".stderr"))
  create_file host err
  code ← runner host program_path input out err
  verdict_thread out err msg code.type
