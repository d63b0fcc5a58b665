-- ===== src/MultiThread/Restarting.antt =====
-- `thread` of src/example/multi-thread/main.c, when all threads of a round are joined: one of the files
-- that were found replaces the input.
pub mod Unset
use diy_ddmin.Base.{
  ℕ, zero, suc, ◌+◌, ◌-◌, ◌%◌, ◌≤◌, ◌<◌, ◌≡◌, refl, Bool, true, false, Option, none, some, List, [],
  ◌∷◌, ◌++◌, inl, inr, arith, min, leb, ltb, ◌==◌, if◌then◌else◌, Bool-cases, Option-cases,
}
use diy_ddmin.Paths.{Bytes, FilePath, codes, decimal}
use diy_ddmin.Machine.{
  Fault, wild_pointer, buffer_overflow, Host, World, Outcome, done, fault, M, pure, fail_with,
  ◌>>=◌, ◌>>◌, into_array, set_file,
}
use diy_ddmin.Stdio.{fopen_read, fopen_write, unchecked, fflush}
use diy_ddmin.Range.Threads.{first_out_file, update}
use diy_ddmin.MultiThread.Cutting.{Streams, Found}

-- The locals of `thread`, and the globals that it changes
pub record Search : Type 0 where
  pub input_path : FilePath
  pub input_size : ℕ
  pub rs : ℕ
  pub total_fail_n : ℕ
  pub found : Found
  pub streams : ℕ → Streams

-- `sprintf(ret_path, "./fail%d.part", total_fail_n)`
unfoldable pub ret_path : ℕ → FilePath
unfolding decimal
ret_path k = codes "./fail" ++ decimal k (codes ".part")

-- `rename`, whose result is not looked at
unfoldable pub try_rename : (from to : FilePath) → M (Unit {0})
try_rename from to w = elim (w.files from) [
  | none ↦ done tt w
  | some c ↦ done tt (set_file to (some c) (set_file from none w))
]

-- `free(fail_arr[i])` for `left` places from the `i`-th on
unfoldable pub free_all : (left i : ℕ) → Found → M (Unit {0})
free_all zero i g w = done tt w
free_all (suc left) i g w =
    let rest = free_all left (i + 1) g w in
    elim (g.fail_arr i) [ none ↦ fault wild_pointer | some p ↦ rest ]

module _ (host : Host) where
  -- A thread's streams are closed and opened again, on the new input and on a new output file.
  unfoldable pub reopen_thread : (input_path : FilePath) (i : ℕ) → Streams → M Streams
  reopen_thread input_path i d = do
    fflush d.out_fp
    out_file ← into_array d.room (first_out_file i)
    in_fp ← fopen_read input_path
    out_fp ← fopen_write host out_file
    s ← unchecked in_fp
    t ← unchecked out_fp
    pure (record d { out_file = out_file; in_fp = s; out_fp = t })

  unfoldable pub reopen_all : (left i : ℕ) (input_path : FilePath) → (ℕ → Streams) → M (ℕ → Streams)
  reopen_all zero i input_path d = pure d
  reopen_all (suc left) i input_path d = do
    d' ← reopen_thread input_path i (d i)
    reopen_all left (i + 1) input_path (update i d' d)

  -- `if (fail_n > 0)`
  unfoldable pub restart : (select_idx : ℕ) → Search → M Search
  restart select_idx q = elim (q.found.fail_arr select_idx) [
    | none ↦ fail_with wild_pointer
    | some fail_path ↦ (do
      path ← into_array 16 (ret_path (q.total_fail_n + 1))
      try_rename fail_path path
      free_all q.found.fail_n 0 q.found
      d ← reopen_all 4 0 path q.streams
      pure (record q {
        input_path = path;
        input_size = q.input_size - q.rs;
        rs = min q.rs (q.input_size - q.rs - 1);
        total_fail_n = q.total_fail_n + 1;
        streams = d;
      }))
  ]

  -- The end of a round, `rs--` included
  unfoldable pub end_round : (rand : ℕ → ℕ) → Search → M Search
  end_round rand q = do
    let n = q.found.fail_n
    q' ← if n == 0 then pure q else restart (rand q.total_fail_n % n) q
    pure (record q' { rs = q'.rs - 1 })
