-- ===== src/FileRunner.antt =====
-- example/libxml_example/source/runner_libxml2_243.c and
-- example/fuzzer-test-suite_example/source/runner_f-test-suite.c: variants of src/runner.c that give the
-- program under test the name of its input, and install no handler for SIGALRM.
pub mod Clock
use diy_ddmin.Base.{
  ℕ, ◌+◌, ◌≡◌, refl, Bool, true, false, Option, none, some, List, [], ◌∷◌, ltb, leb, if◌then◌else◌,
}
use diy_ddmin.Paths.{Bytes, FilePath, codes}
use diy_ddmin.Machine.{Run, Host, World, Outcome, done, exited, M}
use diy_ddmin.Runner.{
  EType, no_error, e_fork, e_timeout_kill, RunnerErrorCode, get_error, alarm_seconds, wexitstatus,
  seconds_pos, seconds_neg, redirect,
}

-- `(end - start) >= 1`
unfoldable pub over_time : (start end : ℕ) → Bool
unfolding seconds_pos seconds_neg
over_time start end =
    leb (seconds_pos start + 1 + seconds_neg end) (seconds_pos end + seconds_neg start)

-- What the child leaves in its two output files.
unfoldable pub outputs : Host → (out err : FilePath) → (out_text err_text : Bytes) → World → World
outputs host out err out_text err_text w = redirect host err err_text (redirect host out out_text w)

-- The status of a process that a signal ended, as a shell tells it: 128 and SIGALRM
abbrev pub by_sigalrm : ℕ
by_sigalrm = 142

-- The parent, when the run of the child is known. The `alarm` ends the parent itself, if it comes first;
-- the child is reaped by the first `waitpid`, so that the `kill` and `wait` behind it do nothing.
unfoldable pub wait_child : Host → (k : ℕ) → Run → (out err : FilePath) → M RunnerErrorCode
wait_child host k run out err w =
    let at_alarm = outputs host out err (run.out_at alarm_seconds) (run.err_at alarm_seconds) w in
    elim run.ends [
      | none ↦ exited by_sigalrm at_alarm
      | some t ↦
          let stop = w.ticks + host.wait_ticks k in
          if ltb t alarm_seconds
          then done
              (get_error (if over_time w.ticks stop then e_timeout_kill else no_error)
                (wexitstatus run.status))
              (record (outputs host out err (run.out_at t) (run.err_at t) w) { ticks = stop })
          else exited by_sigalrm at_alarm
    ]

-- A child whose `execl` failed: `_exit(1)`
abbrev pub not_executed : Run
not_executed = record { ends = some 0; status = 256; out_at = λ t. []; err_at = λ t. [] }

-- Programs that can be executed, by their arguments, the files that they may open and their
-- standard input
abbrev pub Exec : Type 0
Exec = FilePath → (args : List Bytes) → Option ((FilePath → Option Bytes) → Bytes → Run)

unfoldable pub run_child : Host → Exec → FilePath → (args : List Bytes) → World → Run
run_child host exec target args w = elim (exec target args) [
  | none ↦ not_executed
  | some behave ↦ behave w.files host.terminal
]

module _ (host : Host) (exec : Exec) (target : FilePath) where
  unfoldable pub file_runner : (args : List Bytes) → (out err : FilePath) → M RunnerErrorCode
  file_runner args out err w =
      let k = w.forks in
      let w0 = record w { forks = k + 1 } in
      let waited = wait_child host k (run_child host exec target args w0) out err w0 in
      if host.fork_ok k then waited else done (get_error e_fork 0) w0

  -- `runner` of runner_libxml2_243.c
  unfoldable pub runner_libxml2 : (input out err : FilePath) → M RunnerErrorCode
  runner_libxml2 input = file_runner (codes "--recover" ∷ codes "--postvalid" ∷ input ∷ [])

  -- `runner` of runner_f-test-suite.c
  unfoldable pub runner_f_test_suite : (input out err : FilePath) → M RunnerErrorCode
  runner_f_test_suite input = file_runner (input ∷ [])
