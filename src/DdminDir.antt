-- ===== src/DdminDir.antt =====
-- `ddmin_dir` of src/ddmin.c: the same search for a program that reads `<input_dir>/test_input`. A
-- directory is an entry in the table of files, like a file.
pub mod Stage
use diy_ddmin.Base.{
  ℕ, zero, suc, ◌+◌, ◌-◌, ◌*◌, ◌≡◌, Bool, true, false, Option, none, some, ◌++◌, min, ltb, leb,
  ◌==◌, if◌then◌else◌,
}
use diy_ddmin.Paths.{Bytes, FilePath, codes, decimal}
use diy_ddmin.Machine.{
  Host, World, Outcome, done, exited, fault, out_of_fuel, M, pure, diverge, exit, ◌>>=◌, ◌>>◌,
  exists, into_array, byte_count_file, set_file,
}
use diy_ddmin.Stdio.{InStream, OutStream, fopen_write, unchecked, rewind_out, fflush, copy_bytes}
use diy_ddmin.Oracle.{test_buffer_overflow}
use diy_ddmin.Copy.{copy}
use diy_ddmin.Ddmin.{open_input, commit_subset, complement_loop}

-- `sprintf(minimized_fname, "../%s/test_input", exe_dir)`
unfoldable pub dir_input : Bytes → FilePath
dir_input exe_dir = codes "../" ++ (exe_dir ++ codes "/test_input")

-- `sprintf(out_file, "../%s/%d.part", exe_dir, file_no++)`
unfoldable pub next_dir_part : Bytes → M FilePath
unfolding decimal
next_dir_part exe_dir w =
    into_array 256 (codes "../" ++ (exe_dir ++ (codes "/" ++ decimal w.file_no (codes ".part"))))
      (record w { file_no = w.file_no + 1 })

-- `sprintf(path, "%s/test_input", input_dir)`
unfoldable pub test_input : FilePath → FilePath
test_input input_dir = input_dir ++ codes "/test_input"

-- `remove(path)`, with the exit where it fails
unfoldable pub remove_old : FilePath → M (Unit {0})
remove_old path w = elim (w.files path) [
  | none ↦ exited 1 w
  | some c ↦ done tt (set_file path none w)
]

module _ (host : Host) where
  -- The candidate takes the place of the test input.
  unfoldable pub stage : (out_file input_dir : FilePath) → M (Unit {0})
  stage out_file input_dir = do
    path ← into_array 256 (test_input input_dir)
    remove_old path
    copy host out_file path

module _ (host : Host) (program_path : FilePath) (msg : Bytes) (input_dir : FilePath) where
  -- The loop over the parts: each is tested by way of the directory.
  unfoldable pub dir_subset_loop :
      (n f_size : ℕ) (out_file : FilePath) → InStream → OutStream → M (Bool × InStream × OutStream)
  dir_subset_loop zero f_size out_file s t = pure (false, s, t)
  dir_subset_loop (suc n) f_size out_file s t = do
    let part_size = host.ceil_quot f_size (suc n)
    (s', t') ← copy_bytes host s (rewind_out t) part_size
    t'' ← commit_subset t' out_file part_size
    stage host out_file input_dir
    e_code ← test_buffer_overflow host program_path input_dir msg
    if e_code == 1
        then pure (true, s', t'')
        else dir_subset_loop n (f_size - part_size) out_file s' t''

  -- The outer loop; its complements are those of `ddmin`, and tested by way of `out_file`.
  unfoldable pub ddmin_dir_loop : (exe_dir : Bytes) (fuel n : ℕ) → FilePath → M FilePath
  ddmin_dir_loop exe_dir zero n minimized = diverge
  ddmin_dir_loop exe_dir (suc fuel) n minimized = do
    f_size ← byte_count_file minimized
    if leb f_size 1 then pure minimized else do
      s ← open_input minimized
      out_file ← next_dir_part exe_dir
      t ← fopen_write host out_file >>= unchecked
      (any_failed, s1, t1) ← dir_subset_loop n f_size out_file s t
      if any_failed then (fflush t1 >> ddmin_dir_loop exe_dir fuel 2 out_file) else do
        (next, s2, t2) ← complement_loop host program_path msg n n 0 f_size out_file s1 t1
        fflush t2
        elim next [
          | some n' ↦ ddmin_dir_loop exe_dir fuel n' out_file
          | none ↦
              if ltb n f_size
              then ddmin_dir_loop exe_dir fuel (min (n * 2) f_size) minimized
              else pure minimized
        ]

  unfoldable pub ddmin_dir : (exe_dir : Bytes) (fuel : ℕ) → M FilePath
  ddmin_dir exe_dir fuel w =
      if exists program_path w
      then if exists input_dir w
        then (into_array 256 (dir_input exe_dir) >>= ddmin_dir_loop exe_dir fuel 2) w
        else exited 1 w
      else exited 1 w
