-- ===== src/Range/Increasing.antt =====
-- `range_increasing` of src/range.c: windows of one byte, of two bytes and so on are cut out of the
-- input; after a success the search goes on in the shorter input, shortly before the window.
pub mod Spec
pub mod Minimal
pub mod Window
pub mod Refine
pub mod Correct
use diy_ddmin.Base.{
  ℕ, zero, suc, ◌+◌, ◌-◌, Bool, true, false, Option, none, some, ltb, leb, ◌==◌, if◌then◌else◌,
}
use diy_ddmin.Paths.{Bytes, FilePath, part_path}
use diy_ddmin.Machine.{
  Host, World, Outcome, done, exited, fault, out_of_fuel, M, pure, exit, diverge, ◌>>=◌, ◌>>◌,
  into_array, byte_count_file,
}
use diy_ddmin.Stdio.{
  InStream, OutStream, null_sink, fopen_read, fopen_write, unchecked, fflush, truncate,
}
use diy_ddmin.Oracle.{test_buffer_overflow}
use diy_ddmin.Range.{init_cursor, read_and_write}

-- `sprintf(out_file, "./%d.part", ++fail_no)`
unfoldable pub next_fail : M FilePath
next_fail w = into_array 512 (part_path (w.fail_no + 1)) (record w { fail_no = w.fail_no + 1 })

-- The candidate is flushed, and cut to its size. One that is too short ends the program.
unfoldable pub commit_window : OutStream → FilePath → ℕ → M OutStream
commit_window t out_file size = do
  t' ← fflush t
  bt ← byte_count_file out_file
  if ltb size bt then truncate out_file size else if ltb bt size then exit 1 else pure tt
  pure t'

-- What the loops keep: the two files, and a stream on each.
pub record Files : Type 0 where
  pub input_path : FilePath
  pub out_file : FilePath
  pub in_fp : InStream
  pub out_fp : OutStream

module _ (host : Host) where
  -- The two `fopen`s and `fileno`s after a success, with the next number in between.
  unfoldable pub reopen : FilePath → M Files
  reopen input_path = do
    in_fp ← fopen_read input_path
    out_file ← next_fail
    out_fp ← fopen_write host out_file
    s ← unchecked in_fp
    t ← unchecked out_fp
    pure (record { input_path = input_path; out_file = out_file; in_fp = s; out_fp = t })

  -- `fclose(out_fp)`, and the output file becomes the input.
  unfoldable pub accept : Files → M Files
  accept f = fflush f.out_fp >> reopen f.out_file

  -- The same at the start, where the number comes first.
  unfoldable pub open_files : FilePath → M Files
  open_files input_path = do
    out_file ← next_fail
    in_fp ← fopen_read input_path
    out_fp ← fopen_write host out_file
    s ← unchecked in_fp
    t ← unchecked out_fp
    pure (record { input_path = input_path; out_file = out_file; in_fp = s; out_fp = t })

module _ (host : Host) (program_path : FilePath) (msg : Bytes) where
  -- The input without the `rs` bytes from `begin` on is written to the output file and tested.
  unfoldable pub test_window : (rs begin input_size : ℕ) → Files → M (Bool × Files)
  test_window rs begin input_size f = do
    let (s0, t0) = init_cursor f.in_fp f.out_fp
    (s1, t1) ← read_and_write host s0 t0 begin
    (s2, null_fp) ← read_and_write host s1 null_sink rs
    fflush null_fp
    (s3, t3) ← read_and_write host s2 t1 (input_size - (begin + rs))
    t4 ← commit_window t3 f.out_file (input_size - rs)
    e_code ← test_buffer_overflow host program_path f.out_file msg
    pure (e_code == 1, record f { in_fp = s3; out_fp = t4 })

  -- `while (begin <= input_size - rs)`; `begin - rs + 1` is a signed number, and not below 0.
  unfoldable pub begin_loop : (fuel rs begin : ℕ) → Files → M Files
  begin_loop zero rs begin f = diverge
  begin_loop (suc fuel) rs begin f = do
    input_size ← byte_count_file f.input_path
    if leb (begin + rs) input_size
        then (do
          (failed, f') ← test_window rs begin input_size f
          if failed
              then (accept host f' >>= begin_loop fuel rs ((begin + 1) - rs))
              else begin_loop fuel rs (begin + 1) f')
        else pure f

  -- `while (rs < input_size)`; each of its rounds may take `limit` rounds of the inner loop.
  unfoldable pub rs_loop : (limit fuel rs : ℕ) → Files → M FilePath
  rs_loop limit zero rs f = diverge
  rs_loop limit (suc fuel) rs f = do
    input_size ← byte_count_file f.input_path
    if ltb rs input_size
        then (begin_loop limit rs 0 f >>= rs_loop limit fuel (rs + 1))
        else pure f.input_path

  unfoldable pub range_increasing : (fuel : ℕ) → FilePath → M FilePath
  range_increasing fuel input_path = open_files host input_path >>= rs_loop fuel fuel 1
