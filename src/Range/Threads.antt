-- ===== src/Range/Threads.antt =====
-- `range` of src/range.c: `_range` hands all windows of one size to four threads, and waits until they
-- have tested them. One move of a thread is what it does between two points of synchronisation, and the
-- moves of the threads follow one another in any order. In the source they can also overlap: in
-- the tests, which share `c_pid` and the alarm (Runner/Shared), and in lines 120 to 125, which
-- enlarge `fail_arr` and store into it behind the mutex. Such runs are not among the moves here.
pub mod Steps
pub mod Jobs
pub mod Totals
pub mod Invariant
pub mod Signals
pub mod WorkerMoves
pub mod Rounds
pub mod CoordinatorMoves
pub mod Safety
pub mod Progress
pub mod Names
pub mod Contents
pub mod Termination
use diy_ddmin.Base.{
  ℕ, zero, suc, ◌+◌, ◌-◌, ◌*◌, ◌/◌, ◌%◌, ◌≡◌, Bool, true, false, Option, none, some, List, [], ◌∷◌,
  ◌++◌, min, ltb, leb, ◌==◌, if◌then◌else◌, length,
}
use diy_ddmin.Paths.{Bytes, FilePath, codes, decimal}
use diy_ddmin.Machine.{
  Host, World, Outcome, done, exited, fault, wild_pointer, null_pointer, out_of_fuel, M, pure,
  ◌>>=◌, ◌>>◌, set_file, remove, byte_count_file,
}
use diy_ddmin.Stdio.{null_sink, fopen_read, fopen_write, unchecked, fflush}
use diy_ddmin.Oracle.{test_buffer_overflow_thread}
use diy_ddmin.Copy.{copy}
use diy_ddmin.Range.{read_and_write}
use diy_ddmin.Range.Increasing.{commit_window}
use diy_ddmin.Range.Queue.{
  Job, Node, Store, Result, ok, exits, bad_pointer, init_queue, push_queue, pop_queue, free_node,
}

abbrev pub thread_n : ℕ
thread_n = 4

-- `sprintf(out_files[i], "./thread%d.part", k)`
unfoldable pub thread_path : ℕ → FilePath
unfolding decimal
thread_path k = codes "./thread" ++ decimal k (codes ".part")

-- `sprintf(input_path_arr[i], "origin_input%d", i)`
unfoldable pub origin_path : ℕ → FilePath
unfolding decimal
origin_path i = codes "origin_input" ++ decimal i []

-- `sprintf(fail_path, "%u.part", total_fail_n)`
unfoldable pub fail_path : ℕ → FilePath
unfolding decimal
fail_path k = decimal k (codes ".part")

-- The files of one round of `test_range`, from the `fopen`s to the test and `file_no++`, by a thread that
-- no other one overlaps with: the globals `c_pid` and `file_no` are its own meanwhile.
unfoldable pub run_job :
    Host
    → (program_path input_path out_file : FilePath) → Bytes
    → (th_idx rs input_size : ℕ) → Job
    → M Bool
run_job host program_path input_path out_file msg th_idx rs input_size job = do
  in_fp ← fopen_read input_path >>= unchecked
  out_fp ← fopen_write host out_file >>= unchecked
  (s1, t1) ← read_and_write host in_fp out_fp job.begin
  (s2, null_fp) ← read_and_write host s1 null_sink rs
  (s3, t2) ← read_and_write host s2 t1 (input_size - (job.begin + rs))
  t3 ← commit_window t2 out_file (input_size - rs)
  e_code ← test_buffer_overflow_thread host program_path out_file msg th_idx
  λ w. done tt (record w { file_no = w.file_no + 1 })
  fflush t3
  fflush null_fp
  pure (e_code == 1)

-- Where a thread of `test_range` is in its loop.
pub data Worker : Type 0 where
  waiting : Worker  -- in front of `sem_wait(&q_sem)`
  woken : Worker  -- behind it, with nothing popped yet
  holding : ℕ → Job → Worker  -- the node's address and its job
  tested : ℕ → Bool → Worker  -- whether the test found the error
  placed : ℕ → ℕ → Worker  -- with `fail_idx`
  closing : ℕ → Worker  -- in front of `pthread_mutex_lock(&end_mt)`
  freeing : ℕ → Worker  -- behind `existing--` and `sem_post`, with `end_mt` to unlock and `n` to free

-- Where `_range` is.
pub data Coordinator : Type 0 where
  pushing : ℕ → Coordinator  -- in the loop over `begin`
  posting : ℕ → Coordinator  -- between `push_queue` and `sem_post`
  awaiting : Coordinator  -- in front of `sem_wait(&terminated_sem)`
  choosing : Coordinator  -- behind it
  finished : Coordinator

-- The globals of src/range.c, the locals of `_range`, and the threads. `tried` is no variable of the
-- program: it lists where the windows of this round began that were tested so far.
pub record System : Type 0 where
  pub world : World
  pub store : Store
  pub q_sem : ℕ
  pub terminated_sem : ℕ
  pub existing : ℕ
  pub fail_n : ℕ
  pub fail_max : ℕ
  pub fail_arr : ℕ → FilePath
  pub total_fail_n : ℕ
  pub fail_stack : ℕ → ℕ
  pub out_files : ℕ → FilePath
  pub rs : ℕ
  pub input_size : ℕ
  pub input_path : FilePath
  pub coordinator : Coordinator
  pub workers : List Worker
  pub tried : List ℕ

-- A move is made, has to wait, or ends the whole program: by `exit`, by an error, or by a loop that
-- does not end.
pub data Move (A : Type 0) : Type 0 where
  moved : A → System → Move A
  blocked : Move A
  stopped : Outcome FilePath → Move A

-- `sprintf(out_files[i], "thread%d", i)`
unfoldable pub first_out_file : ℕ → FilePath
unfolding decimal
first_out_file i = codes "thread" ++ decimal i []

abbrev pub update : {A : Type 0} → ℕ → A → (ℕ → A) → ℕ → A
update i a f j = if i == j then a else f j

module _ (host : Host) (program_path : FilePath) (msg : Bytes) where
  -- One move of thread `i`, which is in the given place.
  unfoldable pub worker_move : (i : ℕ) → Worker → System → Move Worker
  worker_move i waiting s = elim s.q_sem [
    | zero ↦ blocked
    | suc k ↦ moved woken (record s { q_sem = k })
  ]
  worker_move i woken s = elim (pop_queue s.store) [
    | ok a store ↦ elim (store.nodes a) [
      | some n ↦ moved (holding a n.job) (record s { store = store })
      | none ↦ stopped (fault wild_pointer)
    ]
    | exits ↦ stopped (exited 1 s.world)
    | bad_pointer ↦ stopped (fault wild_pointer)
  ]
  worker_move i (holding a job) s =
      elim (run_job host program_path (origin_path i) (s.out_files i) msg i s.rs s.input_size job
        s.world) [
          | done failed w ↦
              moved (tested a failed) (record s { world = w; tried = job.begin ∷ s.tried })
          | exited c w ↦ stopped (exited c w)
          | fault f ↦ stopped (fault f)
          | out_of_fuel ↦ stopped out_of_fuel
        ]
  worker_move i (tested a false) s = moved (closing a) s
  worker_move i (tested a true) s = moved (placed a s.fail_n) (record s { fail_n = s.fail_n + 1 })
  worker_move i (placed a fail_idx) s =
      let stack = s.fail_stack i + 1 in
      moved (closing a) (record s {
        fail_max = if leb (s.fail_max - thread_n) s.fail_n then s.fail_max * 2 else s.fail_max;
        fail_arr = update fail_idx (s.out_files i) s.fail_arr;
        fail_stack = update i stack s.fail_stack;
        out_files = update i (thread_path (i + thread_n * stack)) s.out_files;
      })
  worker_move i (closing a) s = moved (freeing a) (record s {
    existing = s.existing - 1;
    terminated_sem = if s.existing - 1 == 0 then s.terminated_sem + 1 else s.terminated_sem;
  })
  worker_move i (freeing a) s = moved waiting (record s { store = free_node a s.store })

  -- `remove(input_path_arr[i])` for all threads
  abbrev without_origins : World → World
  without_origins w = set_file (origin_path 3) none (
      set_file (origin_path 2) none
        (set_file (origin_path 1) none (set_file (origin_path 0) none w)))

  -- The body of `for (r_size = …)`, up to the loop over `begin`; at `r_size` 0 the search ends.
  unfoldable pub start_size : ℕ → System → System
  start_size zero s = record s { world = without_origins s.world; coordinator = finished }
  start_size (suc k) s = record s {
    fail_n = 0;
    rs = suc k;
    existing = s.input_size - suc k + 1;
    coordinator = pushing 0;
    tried = [];
  }

  -- `copy(_input_path, input_path_arr[i])` for all threads
  unfoldable pub copy_origins : FilePath → M (Unit {0})
  copy_origins p = do
    copy host p (origin_path 0)
    copy host p (origin_path 1)
    copy host p (origin_path 2)
    copy host p (origin_path 3)

  unfoldable pub replace_origins : FilePath → M (Unit {0})
  replace_origins p w = copy_origins p (without_origins w)

  -- `rename`, with the exit where it fails
  unfoldable pub rename : (from to : FilePath) → M (Unit {0})
  rename from to w = elim (w.files from) [
    | none ↦ exited 1 w
    | some c ↦ done tt (set_file to (some c) (set_file from none w))
  ]

  -- The call of `_range` by itself, on the file with the number `total`
  unfoldable pub restart : (total : ℕ) → System → Outcome (Unit {0}) → Move (Unit {0})
  restart total s (done u w) =
      let size = s.input_size - s.rs in
      moved tt (
        start_size (min s.rs (size - 1)) (record s {
          world = w;
          total_fail_n = total;
          input_path = fail_path total;
          input_size = size;
        }))
  restart total s (exited c w) = stopped (exited c w)
  restart total s (fault f) = stopped (fault f)
  restart total s out_of_fuel = stopped out_of_fuel

  -- One move of `_range`. `malloc` and `rand` are the C library's; where `malloc` gives NULL, that is
  -- written to.
  unfoldable pub coordinator_move :
      ((ℕ → Option Node) → Option ℕ) → (ℕ → ℕ) → Coordinator → System → Move (Unit {0})
  coordinator_move malloc rand (pushing b) s =
      if leb (b + s.rs) s.input_size
      then elim (malloc s.store.nodes) [
        | none ↦ stopped (fault null_pointer)
        | some a ↦ elim (push_queue a (record { rs = s.rs; begin = b }) s.store) [
          | ok u store ↦ moved tt (record s { store = store; coordinator = posting b })
          | exits ↦ stopped (exited 1 s.world)
          | bad_pointer ↦ stopped (fault wild_pointer)
        ]
      ]
      else moved tt (record s { coordinator = awaiting })
  coordinator_move malloc rand (posting b) s =
      moved tt (record s { q_sem = s.q_sem + 1; coordinator = pushing (b + 1) })
  coordinator_move malloc rand awaiting s = elim s.terminated_sem [
    | zero ↦ blocked
    | suc k ↦ moved tt (record s { terminated_sem = k; coordinator = choosing })
  ]
  coordinator_move malloc rand choosing s =
      let total = s.total_fail_n + 1 in
      let chosen = s.fail_arr (rand total % s.fail_n) in
      if s.fail_n == 0
      then moved tt (start_size (s.rs - 1) s)
      else restart total s
          ((rename chosen (fail_path total) >> replace_origins (fail_path total)) s.world)
  coordinator_move malloc rand finished s = blocked

  -- The globals as `range` sets them, with the threads at the heads of their loops.
  abbrev pub first_system : FilePath → (size : ℕ) → Store → World → System
  first_system path size store w = record {
    world = w;
    store = init_queue store;
    q_sem = 0;
    terminated_sem = 0;
    existing = 0;
    fail_n = 0;
    fail_max = 16;
    fail_arr = λ k. [];
    total_fail_n = 0;
    fail_stack = λ i. 0;
    out_files = first_out_file;
    rs = 0;
    input_size = size;
    input_path = path;
    coordinator = finished;
    workers = waiting ∷ waiting ∷ waiting ∷ waiting ∷ [];
    tried = [];
  }

  -- `_range`, up to its first loop
  unfoldable pub first_round : FilePath → (size : ℕ) → Store → Outcome (Unit {0}) → Move (Unit {0})
  first_round path size store (done u w) =
      moved tt (start_size (size - 1) (first_system path size store w))
  first_round path size store (exited c w) = stopped (exited c w)
  first_round path size store (fault f) = stopped (fault f)
  first_round path size store out_of_fuel = stopped out_of_fuel

  -- `range`, up to the first loop of `_range`
  unfoldable pub start_range : FilePath → World → Store → Move (Unit {0})
  start_range path w store = elim (w.files path) [
    | none ↦ stopped (exited 1 w)
    | some c ↦ first_round path (length c) store (copy_origins path w)
  ]
