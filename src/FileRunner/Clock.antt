-- ===== src/FileRunner/Clock.antt =====
-- What the variants report of a run, and when they do not return.
use diy_ddmin.Base.{
  ℕ, ◌+◌, ◌/◌, ◌%◌, ap, ◌^◌, ◌≤◌, ◌<◌, ◌≡◌, refl, true, some, List, arith, ltb, lt→ltb,
  if◌then◌else◌,
}
use diy_ddmin.Paths.{Bytes, FilePath}
use diy_ddmin.Machine.{Run, Host, World, done}
use diy_ddmin.Runner.{no_error, e_timeout_kill, RunnerErrorCode, get_error, clocks_per_sec}
use diy_ddmin.FileRunner.{over_time, outputs, wait_child, Exec, run_child, file_runner}

-- A whole second of CPU time begins between the two readings of the clock.
over_time-second :
    (start end : ℕ)
    → start ≤ end
    → end < 2 ^ 31
    → over_time start end ≡ ltb (start / clocks_per_sec) (end / clocks_per_sec)
unfolding over_time
over_time-second start end le small = ground arith

module _ (host : Host) (exec : Exec) (target : FilePath) (args : List Bytes) (out err : FilePath)
    (w : World) (forked : host.fork_ok w.forks ≡ true) where
  abbrev run : Run
  run = run_child host exec target args (record w { forks = w.forks + 1 })

  -- Where `fork` succeeds and the program ends within three seconds, with a clock below 2 ^ 31: the runner
  -- returns the program's exit code, and reports a timeout exactly if a whole second of the process's
  -- CPU time begins while it waits, however short the run is.
  pub file_runner_reports :
      (t : ℕ)
      → run.ends ≡ some t
      → t < 3
      → w.ticks + host.wait_ticks w.forks < 2 ^ 31
      → (e : RunnerErrorCode) × (w' : World) × (file_runner host exec target args out err w
          ≡ done e w')
        × (e.exit_code ≡ run.status / 256 % 256)
        × (e.type ≡ (
            if ltb (w.ticks / clocks_per_sec) ((w.ticks + host.wait_ticks w.forks) / clocks_per_sec)
            then e_timeout_kill
            else no_error))
  unfolding file_runner wait_child get_error
  file_runner_reports t ends short small =
      let stop = w.ticks + host.wait_ticks w.forks in
      let w0 = record w { forks = w.forks + 1 } in
      (
        get_error (if over_time w.ticks stop then e_timeout_kill else no_error)
            (run.status / 256 % 256),
        record (outputs host out err (run.out_at t) (run.err_at t) w0) { ticks = stop },
        rw (forked, ends, wait_child, lt→ltb t 3 short) refl,
        refl,
        ap (λ b. if b then e_timeout_kill else no_error)
            (over_time-second w.ticks stop (omega arith) small),
      )
