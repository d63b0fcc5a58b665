-- ===== src/MultiThread/Cutting/Correct.antt =====
-- What the threads of the two programs leave in their files, and where the programs go wrong.
use diy_ddmin.Base.{
  ℕ, suc, ◌+◌, ◌-◌, ◌*◌, ◌≤◌, ◌<◌, ◌^◌, ◌≡◌, ◌≢◌, refl, ap, ◌∙◌, true, some, [], arith, length,
  length-append, le→ltb, ne→==, eq→==,
}
use diy_ddmin.Base.Parts.{length-cut}
use diy_ddmin.Paths.{Bytes, FilePath, codes, decimal}
use diy_ddmin.Machine.{Run, Host, World, done, fault, buffer_overflow, into_array, set_file}
use diy_ddmin.Machine.Returns.{put-other}
use diy_ddmin.Machine.Healthy.{IsHealthy}
use diy_ddmin.Stdio.{fopen_write, unchecked}
use diy_ddmin.Stdio.Writing.{sink, Stored, fflush-nothing}
use diy_ddmin.Oracle.Verdict.{reproduces}
use diy_ddmin.Oracle.Verdict.Threads.{test_buffer_overflow_thread-reproduces}
use diy_ddmin.Range.Increasing.Spec.{without}
use diy_ddmin.Range.Increasing.Window.{copies, commit_window-Stored}
use diy_ddmin.Range.Threads.{first_out_file, update}
use diy_ddmin.Range.Threads.Jobs.{Untouched}
use diy_ddmin.MultiThread.Cutting.{
  Streams, name_size, set_up_thread, set_up, cut_range, Found, next_out_file, keep_failing,
  run_runner,
}

-- On every machine and for every input, the first name that `main` writes is longer than the memory
-- that it has for it, so that both programs write past its end before they have opened a file.
pub set_up_overflows :
    (host : Host) (left i : ℕ) (input_path : FilePath) (w : World)
    → set_up host (suc left) i input_path w ≡ fault buffer_overflow
unfolding set_up set_up_thread into_array first_out_file
set_up_overflows host left i input_path w =
    rw (le→ltb (length (first_out_file i)) name_size (long_name i)) refl
  where
    long_name : (i : ℕ) → name_size ≤ length (first_out_file i)
    long_name i = omega (arith, length-append (codes "thread") (decimal i []))

-- The streams are on the thread's files; the input holds `c`, and nothing is read ahead or waiting.
pub record Idle (c : Bytes) (d : Streams) (w : World) : Type 0 where
  pub held : w.files d.in_fp.path ≡ some c
  pub empty : d.in_fp.ahead ≡ []
  pub off : ℕ
  pub writes : d.out_fp ≡ sink d.out_file off []
  pub old : Bytes
  pub made : w.files d.out_file ≡ some old
  pub apart : d.out_file ≢ d.in_fp.path

module _ {host : Host} {program_path : FilePath} {behave : Bytes → Run}
    (healthy : IsHealthy host program_path behave) (msg : Bytes) (begin rs : ℕ) (c : Bytes)
    (d : Streams) (w : World) (idle : Idle c d w) (inside : begin + rs ≤ length c) where
  abbrev candidate : Bytes
  candidate = without begin rs c

  -- For a window inside the input, with streams on two files that have nothing read ahead or waiting,
  -- `cut_range` ends with the input without the window in the thread's output file, all other
  -- files as before, and such streams again.
  pub cut_range-Stored :
      (d' : Streams) × (w' : World) × (cut_range host begin rs (length c) d w ≡ done d' w')
      × Stored d.out_file candidate w w'
      × Idle c d' w'
      × (d'.out_file ≡ d.out_file)
      × (d'.in_fp.path ≡ d.in_fp.path)
  unfolding cut_range
  cut_range-Stored =
      let size : length candidate ≡ length c - rs = length-cut begin rs c inside in
      let (s1, s2, s3, gap, copied, skipped, copied2, empty3, same) =
        copies healthy msg d.in_fp d.out_file c begin rs w idle.held idle.empty inside in
      let (w1, committed, stored) =
        commit_window-Stored d.out_file candidate idle.old w idle.made in
      (
        record d { in_fp = s3; out_fp = sink d.out_file (length c - rs) [] },
        w1,
        rw (idle.writes, copied, skipped, copied2, rw size at committed) refl,
        stored,
        record {
          held = ap w1.files same ∙ stored.others d.in_fp.path idle.apart ∙ idle.held;
          empty = empty3;
          off = length c - rs;
          writes = refl;
          old = candidate;
          made = stored.holds;
          apart = λ e. idle.apart (e ∙ same);
        },
        refl,
        same,
      )

  -- For a window inside the input, on a healthy machine, where the thread's output file is no
  -- output of a test and its next output file has another name: when the input without the window reproduces the error, `run_runner` counts it
  -- twice. The first of the two places of `fail_arr` has the name of the file with that text, the
  -- second is as it was.
  pub run_runner_counts_twice :
      (i : ℕ) (g : Found)
      → i < 2 ^ 31
      → Untouched i d.out_file
      → next_out_file (i + 4 * (g.fail_n + 1 + 1)) ≢ d.out_file
      → reproduces behave msg candidate ≡ true
      → (d' : Streams) × (g' : Found) × (w' : World) × (run_runner host program_path msg begin rs
            (length c)
            i
            d
            g
            w
          ≡ done (d', g') w')
        × (g'.fail_n ≡ g.fail_n + 2)
        × (g'.fail_arr g.fail_n ≡ some d.out_file)
        × (g'.fail_arr (g.fail_n + 1) ≡ g.fail_arr (g.fail_n + 1))
        × (w'.files d.out_file ≡ some candidate)
  unfolding run_runner keep_failing fopen_write unchecked
  run_runner_counts_twice i g few own fresh bad =
      let (d1, w1, cut, stored, idle1, same, reads) = cut_range-Stored in
      let (w2, tested, tidy) =
        test_buffer_overflow_thread-reproduces healthy d.out_file candidate msg i few own.no_err w1
          stored.holds in
      let name = next_out_file (i + 4 * (g.fail_n + 1 + 1)) in
      (
        record d1 { room = 32; out_file = name; out_fp = sink name 0 [] },
        record {
          fail_n = g.fail_n + 1 + 1;
          fail_arr = update g.fail_n (some d.out_file) g.fail_arr;
        },
        set_file name (some []) w2,
        rw
            (
              cut, same, tested, bad, idle1.writes, same, fflush-nothing, healthy.creates,
              fopen_write,
            )
            refl,
        omega arith,
        rw (eq→== g.fail_n g.fail_n refl) refl,
        rw (ne→== g.fail_n (g.fail_n + 1) (λ e. absurd (omega (arith, e)))) refl,
        put-other name (some []) w2.files d.out_file fresh
            ∙ tidy.kept d.out_file own.no_out own.no_err
            ∙ stored.holds,
      )
