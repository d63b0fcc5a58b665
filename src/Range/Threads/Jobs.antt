-- ===== src/Range/Threads/Jobs.antt =====
-- One job of a thread of `range`, on its files.
use diy_ddmin.Base.{ℕ, ◌+◌, ◌-◌, ◌≤◌, ◌<◌, ◌^◌, ◌≡◌, ◌≢◌, refl, ap, ◌∙◌, some, [], length}
use diy_ddmin.Base.Parts.{length-cut}
use diy_ddmin.Paths.{codes, Bytes, FilePath}
use diy_ddmin.Machine.{Run, Host, World, done, set_file}
use diy_ddmin.Machine.Healthy.{IsHealthy}
use diy_ddmin.Machine.Returns.{put-same, put-other}
use diy_ddmin.Stdio.{fopen_read, fopen_write, unchecked}
use diy_ddmin.Stdio.Writing.{fflush-nothing}
use diy_ddmin.Oracle.{dummy_path}
use diy_ddmin.Oracle.Verdict.{reproduces}
use diy_ddmin.Oracle.Verdict.Threads.{test_buffer_overflow_thread-reproduces}
use diy_ddmin.Ddmin.Round.{start_of}
use diy_ddmin.Range.Queue.{Job}
use diy_ddmin.Range.Threads.{run_job}
use diy_ddmin.Range.Increasing.Spec.{without}
use diy_ddmin.Range.Increasing.Window.{commit_window-Stored, flush_null, is_one, copies}

-- The outputs of thread `i` are not this file.
pub record Untouched (i : ℕ) (p : FilePath) : Type 0 where
  pub no_out : dummy_path i (codes ".stdout") ≢ p
  pub no_err : dummy_path i (codes ".stderr") ≢ p

-- The candidate was tested and is in the thread's output file; the other files are as before.
pub record Tested (i : ℕ) (out_file : FilePath) (b : Bytes) (w w' : World) : Type 0 where
  pub holds : w'.files out_file ≡ some b
  pub others : (q : FilePath) → out_file ≢ q → Untouched i q → w'.files q ≡ w.files q
  pub counted : w'.file_no ≡ w.file_no + 1

module _ {host : Host} {program_path : FilePath} {behave : Bytes → Run}
    (healthy : IsHealthy host program_path behave) (msg : Bytes) (i : ℕ) (few : i < 2 ^ 31)
    (input_path out_file : FilePath) (apart : out_file ≢ input_path)
    (own : Untouched i out_file) where
  -- On a healthy machine a thread whose copy of the input, output file and test outputs are different
  -- files finds out whether the input without the window of its job reproduces the error. That
  -- text is then in its output file, and no file has changed that is not the thread's own.
  pub run_job-Tested :
      (rs : ℕ) (job : Job) (c : Bytes) (w : World)
      → w.files input_path ≡ some c
      → job.begin + rs ≤ length c
      → (w' : World) × (run_job host program_path input_path out_file msg i rs (length c) job w
          ≡ done (reproduces behave msg (without job.begin rs c)) w')
        × Tested i out_file (without job.begin rs c) w w'
  unfolding run_job fopen_read fopen_write unchecked
  run_job-Tested rs job c w held inside =
      let b = without job.begin rs c in
      let size : length b ≡ length c - rs = length-cut job.begin rs c inside in
      let w1 = set_file out_file (some []) w in
      let held1 : w1.files input_path ≡ some c =
        put-other out_file (some []) w.files input_path apart ∙ held in
      let (s1, s2, s3, gap, copied, skipped, copied2, empty, same) =
        copies healthy msg (start_of input_path) out_file c job.begin rs w1 held1 refl inside in
      let (w2, committed, stored) =
        commit_window-Stored out_file b [] w1 (put-same out_file (some []) w.files) in
      let (w3, tested, tidy) =
        test_buffer_overflow_thread-reproduces healthy out_file b msg i few own.no_err w2
          stored.holds in
      let w4 = record w3 { file_no = w3.file_no + 1 } in
      let (t, dropped) = flush_null gap w4 in
      (
        w4,
        rw (
          held,
          fopen_read,
          healthy.creates,
          copied,
          skipped,
          copied2,
          rw size at committed,
          tested,
          fflush-nothing,
          dropped,
          is_one (reproduces behave msg b),
        ),
        record {
          holds = tidy.kept out_file own.no_out own.no_err ∙ stored.holds;
          others = λ q ne away.
              tidy.kept q away.no_out away.no_err
              ∙ stored.others q ne
              ∙ put-other out_file (some []) w.files q ne;
          counted = ap (λ k. k + 1) (tidy.file_no ∙ stored.file_no);
        },
      )
