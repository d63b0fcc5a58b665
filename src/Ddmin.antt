-- ===== src/Ddmin.antt =====
-- `ddmin` of src/ddmin.c: delta debugging of one input file, by the streams and files it works on.
pub mod Spec
pub mod Candidate
pub mod Subsets
pub mod Skip
pub mod Complements
pub mod Fresh
pub mod Round
pub mod Ready
pub mod Refine
pub mod Overflow
pub mod Correct
use Prim.Native.Nat.{max}
use diy_ddmin.Base.{
  ℕ, zero, suc, ◌+◌, ◌-◌, ◌*◌, ◌≡◌, refl, Bool, true, false, Option, none, some, min, ltb, leb,
  ◌==◌, if◌then◌else◌, length,
}
use diy_ddmin.Paths.{Bytes, FilePath, part_path}
use diy_ddmin.Machine.{
  Host, World, Outcome, done, exited, fault, out_of_fuel, buffer_overflow, bad_cast, M, pure,
  fail_with, diverge, exit, ◌>>=◌, ◌>>◌, exists, into_array, byte_count_file,
}
use diy_ddmin.Stdio.{
  InStream, OutStream, fopen_read, fopen_write, unchecked, rewind_in, rewind_out, fread, fflush,
  truncate, copy_bytes,
}
use diy_ddmin.Oracle.{test_buffer_overflow}

-- `fopen(minimized_fname, "rb")`, with the exit where it fails
or_exit : Option InStream → M InStream
or_exit none = exit 1
or_exit (some s) = pure s

unfoldable pub open_input : FilePath → M InStream
unfolding or_exit
open_input p = fopen_read p >>= or_exit

-- `sprintf(out_file, "./%d.part", file_no++)`
unfoldable pub next_part : M FilePath
next_part w = into_array 256 (part_path w.file_no) (record w { file_no = w.file_no + 1 })

-- A subset is in the file once the stream is flushed and what an earlier, longer candidate left
-- behind it is cut off. A file that is too short is only reported.
unfoldable pub commit_subset : OutStream → FilePath → ℕ → M OutStream
commit_subset t out_file part_size = do
  t' ← fflush t
  bt ← byte_count_file out_file
  if ltb part_size bt then truncate out_file part_size else pure tt
  pure t'

unfoldable pub commit_complement : OutStream → FilePath → ℕ → M OutStream
commit_complement t out_file size = do
  t' ← fflush t
  bt ← byte_count_file out_file
  if bt == size then pure tt else truncate out_file size
  pure t'

module _ (host : Host) where
  -- `char buf[2048]; fread(buf, 1, part_size, in_fp)`: the part is read over in one piece.
  unfoldable pub skip_part : InStream → ℕ → M InStream
  skip_part s part_size w =
      let (b, s') = fread host s part_size w in
      if ltb 2048 (length b)
      then fault buffer_overflow
      else if length b == part_size
      then done s' w
      else exited 1 w

module _ (host : Host) (program_path : FilePath) (msg : Bytes) where
  -- `do { … _n--; } while (_n > 0)` over the parts: whether one of them still fails.
  unfoldable pub subset_loop :
      (n f_size : ℕ) (out_file : FilePath) → InStream → OutStream → M (Bool × InStream × OutStream)
  subset_loop zero f_size out_file s t = pure (false, s, t)
  subset_loop (suc n) f_size out_file s t = do
    let part_size = host.ceil_quot f_size (suc n)
    (s', t') ← copy_bytes host s (rewind_out t) part_size
    t'' ← commit_subset t' out_file part_size
    e_code ← test_buffer_overflow host program_path out_file msg
    if e_code == 1 then pure (true, s', t'') else subset_loop n (f_size - part_size) out_file s' t''

  -- `do { … _n--; } while (c_start < f_size)` over the complements: the new `n` where one of them
  -- still fails. With `_n` at 0 the quotient would be infinite.
  unfoldable pub complement_loop :
      (n n' c_start f_size : ℕ) (out_file : FilePath)
      → InStream
      → OutStream
      → M (Option ℕ × InStream × OutStream)
  complement_loop n zero c_start f_size out_file s t = fail_with bad_cast
  complement_loop n (suc n') c_start f_size out_file s t = do
    let part_size = host.ceil_quot (f_size - c_start) (suc n')
    let c_end = c_start + part_size
    (s1, t1) ← copy_bytes host (rewind_in s) (rewind_out t) c_start
    s2 ← skip_part host s1 part_size
    (s3, t3) ← copy_bytes host s2 t1 (f_size - c_end)
    t4 ← commit_complement t3 out_file (f_size - part_size)
    e_code ← test_buffer_overflow host program_path out_file msg
    if e_code == 1
        then pure (some (max (n - 1) 2), s3, t4)
        else if ltb c_end f_size
        then complement_loop n n' c_end f_size out_file s3 t4
        else pure (none, s3, t4)

  -- The outer loop. `fuel` bounds its rounds; `ddmin-reduces` says how many are enough.
  unfoldable pub ddmin_loop : (fuel n : ℕ) → FilePath → M FilePath
  ddmin_loop zero n minimized = diverge
  ddmin_loop (suc fuel) n minimized = do
    f_size ← byte_count_file minimized
    if leb f_size 1 then pure minimized else do
      s ← open_input minimized
      out_file ← next_part
      t ← fopen_write host out_file >>= unchecked
      (any_failed, s1, t1) ← subset_loop n f_size out_file s t
      if any_failed then (fflush t1 >> ddmin_loop fuel 2 out_file) else do
        (next, s2, t2) ← complement_loop n n 0 f_size out_file s1 t1
        fflush t2
        elim next [
          | some n' ↦ ddmin_loop fuel n' out_file
          | none ↦
              if ltb n f_size
              then ddmin_loop fuel (min (n * 2) f_size) minimized
              else pure minimized
        ]

  unfoldable pub ddmin : (fuel : ℕ) → FilePath → M FilePath
  ddmin fuel byte_seq_path w =
      if exists program_path w
      then if exists byte_seq_path w
        then (into_array 256 byte_seq_path >>= ddmin_loop fuel 2) w
        else exited 1 w
      else exited 1 w
