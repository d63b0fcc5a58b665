-- ===== src/Oracle/Verdict.antt =====
-- What a test on a healthy machine answers, and what it leaves behind.
pub mod Threads
pub mod Printing
use diy_ddmin.Base.{
  length-append, ℕ, ◌+◌, ◌<◌, ◌≡◌, ◌≢◌, sym, ap, ◌∙◌, Bool, none, some, [], arith, if◌then◌else◌,
  length, append-nil, lt→ltb,
}
use diy_ddmin.Base.Parts.{drop-nil}
use diy_ddmin.Paths.{codes, Bytes, FilePath, stdout_path, stderr_path}
use diy_ddmin.Paths.Apart.{stdout-ne-stderr, stderr_path-ne}
use diy_ddmin.Machine.{Run, Host, World, done, set_file, put, into_array}
use diy_ddmin.Machine.Healthy.{IsHealthy}
use diy_ddmin.Machine.Returns.{put-same, put-other}
use diy_ddmin.Stdio.Reading.{contents-some}
use diy_ddmin.Stdio.{contents, write_at}
use diy_ddmin.Runner.{no_error, get_error, kill_child, wexitstatus, redirect, child, runner}
use diy_ddmin.Runner.Clock.{timed_out-idle}
use diy_ddmin.Oracle.Search.{prints}
use diy_ddmin.Oracle.{create_file, scan_file, look_for, verdict, test_buffer_overflow}

pub length-stdout : (p : FilePath) → length p < 240 → length (stdout_path p) < 256
unfolding stdout_path
length-stdout p h = omega (arith, length-append p (codes ".stdout"))

pub length-stderr : (p : FilePath) → length p < 240 → length (stderr_path p) < 256
unfolding stderr_path
length-stderr p h = omega (arith, length-append p (codes ".stderr"))

-- The scan of the source finds the message in what the program under test prints on input `c` before it
-- ends or is killed. A message that is cut by the end of the array of 512 bytes is not found.
unfoldable pub reproduces : (Bytes → Run) → Bytes → Bytes → Bool
reproduces behave msg c = prints msg ((behave c).err_at (kill_child (behave c)).second)

-- A test has touched no file but its two outputs, which are gone, and no global of the reducer.
pub record Tidy (out err : FilePath) (w w' : World) : Type 0 where
  pub kept : (q : FilePath) → out ≢ q → err ≢ q → w'.files q ≡ w.files q
  pub no_out : w'.files out ≡ none
  pub no_err : w'.files err ≡ none
  pub file_no : w'.file_no ≡ w.file_no
  pub fail_no : w'.fail_no ≡ w.fail_no

module _ {host : Host} {target : FilePath} {behave : Bytes → Run}
    (healthy : IsHealthy host target behave) (input : FilePath) (c : Bytes) (out err : FilePath)
    (msg : Bytes) (apart : out ≢ err) (reads : err ≢ input) where
  abbrev stop_second : ℕ
  stop_second = (kill_child (behave c)).second

  redirect-set :
      (p : FilePath) (b : Bytes) (w : World)
      → redirect host p b w ≡ set_file p (some (write_at 0 b (contents p w))) w
  unfolding redirect
  redirect-set p b w = rw (healthy.creates p)

  child-runs :
      (w : World)
      → w.files input ≡ some c
      → child host target input out err w
        ≡ some (
          (kill_child (behave c)).status,
          redirect host err
              ((behave c).err_at stop_second)
              (redirect host out ((behave c).out_at stop_second) w),
        )
  unfolding child
  child-runs w h = rw (healthy.executes, child, h)

  -- The standard error of the run is all that its file holds, as that was emptied before.
  after_run : World → World
  after_run w = redirect host err ((behave c).err_at stop_second) (
      redirect host out ((behave c).out_at stop_second)
        (record (set_file err (some []) w) { forks = w.forks + 1 }))

  after_run-set :
      (w : World)
      → after_run w ≡ (
          let w0 = record (set_file err (some []) w) { forks = w.forks + 1 } in
          let w1 =
            set_file out (some (write_at 0 ((behave c).out_at stop_second) (contents out w0))) w0 in
          set_file err (some (write_at 0 ((behave c).err_at stop_second) (contents err w1))) w1)
  unfolding after_run
  after_run-set w =
      redirect-set err ((behave c).err_at stop_second) _
      ∙ ap
          (λ v. set_file err (some (write_at 0 ((behave c).err_at stop_second) (contents err v))) v)
          (redirect-set out ((behave c).out_at stop_second) _)

  after_run-err : (w : World) → (after_run w).files err ≡ some ((behave c).err_at stop_second)
  unfolding write_at
  after_run-err w =
      let w0 = record (set_file err (some []) w) { forks = w.forks + 1 } in
      let o : Bytes = write_at 0 ((behave c).out_at stop_second) (contents out w0) in
      let empty : contents err (set_file out (some o) w0) ≡ [] =
        contents-some err (set_file out (some o) w0) (
          put-other out (some o) (put err (some []) w.files) err apart
          ∙ put-same err (some []) w.files) in
      rw (after_run-set w, put-same, empty, drop-nil, append-nil)

  after_run-kept :
      (w : World) (q : FilePath) → out ≢ q → err ≢ q → (after_run w).files q ≡ w.files q
  after_run-kept w q no_o no_e = rw (
    after_run-set w,
    put-other err _ _ q no_e,
    put-other out _ _ q no_o,
    put-other err _ _ q no_e,
  )

  runner-runs :
      (w : World)
      → w.files input ≡ some c
      → runner host target input out err (set_file err (some []) w)
        ≡ done
            (get_error no_error (wexitstatus (kill_child (behave c)).status))
            (record (after_run w) { ticks = w.ticks + host.wait_ticks w.forks })
  unfolding runner after_run
  runner-runs w h =
      let held : put err (some []) w.files input ≡ some c =
        put-other err (some []) w.files input reads ∙ h in
      let w0 = record (set_file err (some []) w) { forks = w.forks + 1 } in
      rw (
        healthy.forks,
        child-runs w0 held,
        timed_out-idle w.ticks (host.wait_ticks w.forks) (healthy.idle w.forks),
      )

  -- The command behind `sprintf`, with both outputs in place.
  abbrev answer : ℕ
  answer = if reproduces behave msg c then 1 else 0

  verdict-runs :
      (w : World)
      → w.files err ≡ some ((behave c).err_at stop_second)
      → verdict out err msg no_error w ≡ done answer (set_file err none (set_file out none w))
  unfolding verdict look_for scan_file reproduces
  verdict-runs w h = rw (h, scan_file)

  after_test : World → World
  after_test w =
      set_file err none
        (set_file out none (record (after_run w) { ticks = w.ticks + host.wait_ticks w.forks }))

  after_test-Tidy : (w : World) → Tidy out err w (after_test w)
  unfolding after_test
  after_test-Tidy w = record {
    kept = λ q no_o no_e.
        rw (put-other err _ _ q no_e, put-other out _ _ q no_o) (after_run-kept w q no_o no_e);
    no_out = rw (put-other err _ _ out (λ e. apart (sym e)), put-same);
    no_err = put-same err _ _;
    file_no = rw (after_run-set w);
    fail_no = rw (after_run-set w);
  }

module _ {host : Host} {target : FilePath} {behave : Bytes → Run}
    (healthy : IsHealthy host target behave) (input : FilePath) (c msg : Bytes)
    (fits : length input < 240) where
  -- On a healthy machine the test of an existing input, of a name shorter than 240 bytes, answers 1
  -- exactly if the scan of the source finds the message in what the program under test prints.
  pub test_buffer_overflow-reproduces :
      (w : World)
      → w.files input ≡ some c
      → (w' : World) × (test_buffer_overflow host target input msg w
          ≡ done (if reproduces behave msg c then 1 else 0) w')
        × Tidy (stdout_path input) (stderr_path input) w w'
  unfolding test_buffer_overflow into_array create_file after_test get_error
  test_buffer_overflow-reproduces w h =
      let out = stdout_path input in
      let err = stderr_path input in
      let apart = stdout-ne-stderr input in
      let reads = stderr_path-ne input in
      let short_out : length out < 256 = length-stdout input fits in
      let short_err : length err < 256 = length-stderr input fits in
      (
        after_test healthy input c out err msg apart reads w,
        rw
            (
              lt→ltb _ 256 short_out,
              lt→ltb _ 256 short_err,
              healthy.creates,
              runner-runs healthy input c out err msg apart reads w h,
            )
            (verdict-runs healthy input c out err msg apart reads _
              (after_run-err healthy input c out err msg apart reads w)),
        after_test-Tidy healthy input c out err msg apart reads w,
      )
