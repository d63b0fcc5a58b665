-- ===== src/Runner.antt =====
-- src/runner.c and include/runner.h: fork, exec and wait for one run of the program under test.
pub mod Clock
pub mod Shared
use diy_ddmin.Base.{
  ℕ, suc, ◌+◌, ◌-◌, ◌/◌, ◌%◌, ◌^◌, ◌≡◌, refl, Bool, true, false, Option, none, some, ltb, leb,
  if◌then◌else◌,
}
use diy_ddmin.Paths.{Bytes, FilePath}
use diy_ddmin.Machine.{Run, Host, World, Outcome, done, fault, runaway_child, M, set_file}
use diy_ddmin.Stdio.{contents, write_at}

-- `enum E_Type`
pub data EType : Type 0 where
  no_error : EType
  e_fork : EType
  e_timeout_kill : EType

-- `runner_error_code`
pub record RunnerErrorCode : Type 0 where
  pub type : EType
  pub exit_code : ℕ

unfoldable pub get_error : EType → ℕ → RunnerErrorCode
get_error t code = record { type = t; exit_code = code }

abbrev pub alarm_seconds : ℕ
alarm_seconds = 3

abbrev pub sigkill : ℕ
sigkill = 9

-- How a run stops: the second, and the wait status.
pub record Stop : Type 0 where
  pub second : ℕ
  pub status : ℕ

-- `alarm(3)` and its handler `kill_child`: a run that still goes on then is killed. `c_pid` is the child
-- of this call, as it is while no other thread calls `runner`; Runner/Shared is about several calls.
unfoldable pub kill_child : Run → Stop
kill_child r =
    let killed : Stop = record { second = alarm_seconds; status = sigkill } in
    elim r.ends [
      | none ↦ killed
      | some t ↦ if ltb t alarm_seconds then record { second = t; status = r.status } else killed
    ]

-- `WEXITSTATUS(status)`
abbrev pub wexitstatus : ℕ → ℕ
wexitstatus status = status / 256 % 256

-- `((int) clock()) / CLOCKS_PER_SEC` is a signed number: its two parts, one of which is 0.
abbrev pub clocks_per_sec : ℕ
clocks_per_sec = 1_000_000

unfoldable pub seconds_pos : ℕ → ℕ
seconds_pos t = if ltb (t % 2 ^ 32) (2 ^ 31) then t % 2 ^ 32 / clocks_per_sec else 0

unfoldable pub seconds_neg : ℕ → ℕ
seconds_neg t = if ltb (t % 2 ^ 32) (2 ^ 31) then 0 else (2 ^ 32 - t % 2 ^ 32) / clocks_per_sec

-- `(end - start) >= 3`
unfoldable pub timed_out : ℕ → ℕ → Bool
unfolding seconds_pos seconds_neg
timed_out start end =
    leb (seconds_pos start + 3 + seconds_neg end) (seconds_pos end + seconds_neg start)

-- What the child leaves in a file that it opened with O_WRONLY | O_CREAT, and not with O_TRUNC.
unfoldable pub redirect : Host → FilePath → Bytes → World → World
redirect host p b w =
    if host.can_create p then set_file p (some (write_at 0 b (contents p w))) w else w

-- The child process, up to its end: its wait status and its two output files. It is none where
-- `execl` fails and the child returns from `runner` as well.
unfoldable pub child : Host → (target input out err : FilePath) → World → Option (ℕ × World)
child host target input out err w =
    let stdin : Bytes = elim (w.files input) [ none ↦ host.terminal | some c ↦ c ] in
    elim (host.program target) [
      | none ↦ none
      | some behave ↦
          let run = behave w.files stdin in
          let stop = kill_child run in
          some (
            stop.status,
            redirect host err (run.err_at stop.second)
                (redirect host out (run.out_at stop.second) w),
          )
    ]

-- The parent process. Where `execl` fails, the child goes on behind the `if` with a `c_pid` of 0, and
-- returns as well: what this second copy of the program then does to the files is not followed.
unfoldable pub runner : Host → (target input out err : FilePath) → M RunnerErrorCode
runner host target input out err w =
    let k = w.forks in
    let w0 = record w { forks = k + 1 } in
    if host.fork_ok k
    then elim (child host target input out err w0) [
      | none ↦ fault runaway_child
      | some (status, w1) ↦
          let stop = w0.ticks + host.wait_ticks k in
          done
            (get_error (if timed_out w0.ticks stop then e_timeout_kill else no_error)
              (wexitstatus status))
            (record w1 { ticks = stop })
    ]
    else done (get_error e_fork 0) w0
