-- ===== src/Machine.antt =====
-- What the C functions act on: files, the globals of src/ddmin.c, the process's forks and its CPU
-- clock. A function of the program is a command: it takes the machine and ends in one of four ways.
pub mod Returns
pub mod Healthy
use diy_ddmin.Base.{ℕ, ◌≡◌, Bool, true, false, Option, none, some, ◌<◌, ltb, if◌then◌else◌, length}
use diy_ddmin.Paths.{Bytes, FilePath, bytes_eq}

-- One run of the program under test, on one input.
pub record Run : Type 0 where
  pub ends : Option ℕ  -- the second at which it ends by itself, if ever
  pub status : ℕ  -- the wait status with which it then ends
  pub out_at : ℕ → Bytes  -- what it has written to its standard output by a second
  pub err_at : ℕ → Bytes

-- What is outside the program: the C library's free choices, the operating system, and the
-- program under test.
pub record Host : Type 0 where
  pub read_ahead : ℕ → ℕ  -- bytes that a stream reads beyond the `n` it needs when it refills
  pub can_create : FilePath → Bool  -- whether a file of this name can be opened for writing
  pub fork_ok : ℕ → Bool  -- whether the k-th `fork` succeeds
  -- A program that can be executed, by the files that it may open and its standard input
  pub program : FilePath → Option ((FilePath → Option Bytes) → Bytes → Run)
  pub terminal : Bytes  -- the standard input that the process itself has
  pub wait_ticks : ℕ → ℕ  -- clock ticks that the process uses in the `waitpid` after the k-th fork
  pub ceil_quot : ℕ → ℕ → ℕ  -- `ceilf((float)a / (float)b)`

pub record World : Type 0 where
  pub files : FilePath → Option Bytes
  pub file_no : ℕ
  pub fail_no : ℕ
  pub forks : ℕ
  pub ticks : ℕ  -- what `clock()` returns, before the cast to `int`

-- Undefined behaviour, or a state that the model does not follow further.
pub data Fault : Type 0 where
  buffer_overflow : Fault  -- a write past the end of an array
  null_stream : Fault  -- a stream function on the NULL that `fopen` returned
  bad_cast : Fault  -- a float that is no `int` is cast to one
  runaway_child : Fault  -- the child of `fork` goes on as a second copy of the program
  wild_pointer : Fault  -- a pointer that was never set is used or freed
  null_pointer : Fault  -- a write to the NULL that `malloc` returned

pub data Outcome (A : Type 0) : Type 0 where
  done : A → World → Outcome A
  exited : ℕ → World → Outcome A
  fault : Fault → Outcome A
  out_of_fuel : Outcome A

abbrev pub M : Type 0 → Type 0
M A = World → Outcome A

abbrev pub pure : {A : Type 0} → A → M A
pure a w = done a w

module _ {A B : Type 0} where
  abbrev pub and_then : Outcome A → (A → M B) → Outcome B
  and_then (done a w) k = k a w
  and_then (exited c w) k = exited c w
  and_then (fault f) k = fault f
  and_then out_of_fuel k = out_of_fuel

  infixl 5 ◌>>=◌ ◌>>◌
  abbrev pub ◌>>=◌ : M A → (A → M B) → M B
  m >>= k = λ w. and_then (m w) k

  abbrev pub ◌>>◌ : M A → M B → M B
  m >> k = m >>= λ _. k

abbrev pub exit : {A : Type 0} → ℕ → M A
exit c w = exited c w

abbrev pub fail_with : {A : Type 0} → Fault → M A
fail_with f w = fault f

abbrev pub diverge : {A : Type 0} → M A
diverge w = out_of_fuel

-- The table of files with a new entry at `p`.
unfoldable pub put : FilePath → Option Bytes → (FilePath → Option Bytes) → FilePath → Option Bytes
put p c fs q = if bytes_eq p q then c else fs q

abbrev pub set_file : FilePath → Option Bytes → World → World
set_file p c w = record w { files = put p c w.files }

-- `access(path, F_OK)` is 0
abbrev pub exists : FilePath → World → Bool
exists p w = elim (w.files p) [ none ↦ false | some _ ↦ true ]

-- A C string and its NUL in an array of `size` bytes, as `sprintf` and `strcpy` put them there.
unfoldable pub into_array : ℕ → FilePath → M FilePath
into_array size p w = if ltb (length p) size then done p w else fault buffer_overflow

-- `byte_count_file`: the size of a file, or the end of the program where there is none.
unfoldable pub byte_count_file : FilePath → M ℕ
byte_count_file p w = elim (w.files p) [ none ↦ exited 1 w | some c ↦ done (length c) w ]

-- `remove`, whose result is not looked at
abbrev pub remove : FilePath → M (Unit {0})
remove p w = done tt (set_file p none w)
