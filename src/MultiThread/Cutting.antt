-- ===== src/MultiThread/Cutting.antt =====
-- src/example/multi-thread/io/main.c: each thread writes the input without its window to a file of its
-- own. src/example/multi-thread/main.c does the same, and tests the file.
pub mod Correct
pub mod Threads
use diy_ddmin.Base.{
  ℕ, zero, suc, ◌+◌, ◌-◌, ◌*◌, ◌≡◌, Bool, true, false, Option, none, some, List, [], ◌∷◌, ◌++◌, ltb,
  leb, ◌==◌, if◌then◌else◌,
}
use diy_ddmin.Paths.{Bytes, FilePath, codes, decimal}
use diy_ddmin.Machine.{
  Host, World, Outcome, done, exited, fault, out_of_fuel, M, pure, diverge, ◌>>=◌, ◌>>◌, into_array,
  set_file,
}
use diy_ddmin.Stdio.{InStream, OutStream, null_sink, fopen_read, fopen_write, unchecked, fflush}
use diy_ddmin.Oracle.{test_buffer_overflow_thread}
use diy_ddmin.Range.{init_cursor, read_and_write}
use diy_ddmin.Range.Increasing.{commit_window}
use diy_ddmin.Range.Threads.{first_out_file, update}
use diy_ddmin.MultiThread.{Work}

-- A thread's output file, the array that holds its name, and its streams
pub record Streams : Type 0 where
  pub room : ℕ
  pub out_file : FilePath
  pub in_fp : InStream
  pub out_fp : OutStream

-- `out_files[i] = malloc(sizeof(32))`, which is the size of an int
abbrev pub name_size : ℕ
name_size = 4

module _ (host : Host) where
  -- The body of the first loop of `main`
  unfoldable pub set_up_thread : (input_path : FilePath) (i : ℕ) → M Streams
  set_up_thread input_path i = do
    out_file ← into_array name_size (first_out_file i)
    in_fp ← fopen_read input_path
    out_fp ← fopen_write host out_file
    s ← unchecked in_fp
    t ← unchecked out_fp
    pure (record { room = name_size; out_file = out_file; in_fp = s; out_fp = t })

  -- `for (int i = 0; i < THREAD_N+1; i++)`, from the i-th round on, with `left` rounds left
  unfoldable pub set_up : (left i : ℕ) (input_path : FilePath) → M (List Streams)
  set_up zero i input_path = pure []
  set_up (suc left) i input_path = do
    d ← set_up_thread input_path i
    ds ← set_up left (i + 1) input_path
    pure (d ∷ ds)

  unfoldable pub cut_range : (begin rs input_size : ℕ) → Streams → M Streams
  cut_range begin rs input_size d = do
    let (s0, t0) = init_cursor d.in_fp d.out_fp
    (s1, t1) ← read_and_write host s0 t0 begin
    (s2, null_fp) ← read_and_write host s1 null_sink rs
    (s3, t3) ← read_and_write host s2 t1 (input_size - (begin + rs))
    t4 ← commit_window t3 d.out_file (input_size - rs)
    pure (record d { in_fp = s3; out_fp = t4 })

  -- What `thread_func` of io/main.c does for a window, on the streams of all threads
  unfoldable pub cutting : Work (World × (ℕ → Streams))
  cutting th_idx start rs input_size (w, d) = elim (cut_range start rs input_size (d th_idx) w) [
    | done d' w' ↦ some (w', update th_idx d' d)
    | exited c w' ↦ none
    | fault f ↦ none
    | out_of_fuel ↦ none
  ]

  -- `for (begin = 0; begin <= input_size - rs; begin++)` in `no_thread` of io/main.c
  unfoldable pub cut_loop : (fuel begin rs input_size : ℕ) → Streams → M Streams
  cut_loop zero begin rs input_size d = diverge
  cut_loop (suc fuel) begin rs input_size d =
      if leb (begin + rs) input_size
      then (cut_range begin rs input_size d >>= cut_loop fuel (begin + 1) rs input_size)
      else pure d

  -- `while (rs > 0)` there
  unfoldable pub cut_all : (rs input_size : ℕ) → Streams → M Streams
  cut_all zero input_size d = pure d
  cut_all (suc rs) input_size d =
      cut_loop (input_size + 2) 0 (suc rs) input_size d >>= cut_all rs input_size

-- The globals of main.c that a thread changes when it has found the error
pub record Found : Type 0 where
  pub fail_n : ℕ
  pub fail_arr : ℕ → Option FilePath

-- `sprintf(out_files[th_idx], "./thread%d", k)`
unfoldable pub next_out_file : ℕ → FilePath
unfolding decimal
next_out_file k = codes "./thread" ++ decimal k []

module _ (host : Host) (program_path : FilePath) (msg : Bytes) where
  -- What `run_runner` of main.c does when the test finds the error; there are four threads. The new
  -- output file is opened without a test.
  unfoldable pub keep_failing : (th_idx : ℕ) → Streams → Found → M (Streams × Found)
  keep_failing th_idx d g = do
    fflush d.out_fp
    let fail_n = g.fail_n + 1 + 1
    let out_file = next_out_file (th_idx + 4 * fail_n)
    opened ← fopen_write host out_file
    t ← unchecked opened
    pure (
      record d { room = 32; out_file = out_file; out_fp = t },
      record { fail_n = fail_n; fail_arr = update g.fail_n (some d.out_file) g.fail_arr },
    )

  -- `run_runner` of main.c
  unfoldable pub run_runner :
      (begin rs input_size th_idx : ℕ) → Streams → Found → M (Streams × Found)
  run_runner begin rs input_size th_idx d g = do
    d' ← cut_range host begin rs input_size d
    e_code ← test_buffer_overflow_thread host program_path d'.out_file msg th_idx
    if e_code == 1 then keep_failing th_idx d' g else pure (d', g)
