-- ===== src/Oracle/Failures.antt =====
-- Tests in which `fork` or `execl` fails, or the program under test hangs.
use diy_ddmin.Base.{
  ◌+◌, ◌*◌, ◌<◌, ◌≡◌, ◌≢◌, refl, true, false, none, some, [], arith, length, lt→ltb,
}
use diy_ddmin.Paths.{Bytes, FilePath, stdout_path, stderr_path}
use diy_ddmin.Machine.{Host, World, done, into_array, set_file}
use diy_ddmin.Machine.Returns.{put-same}
use diy_ddmin.Runner.{e_timeout_kill, RunnerErrorCode, get_error, runner}
use diy_ddmin.Runner.Clock.{timed_out-idle}
use diy_ddmin.Oracle.Search.{prints}
use diy_ddmin.Oracle.Verdict.{length-stdout, length-stderr}
use diy_ddmin.Oracle.{create_file, scan_file, look_for, verdict, test_buffer_overflow}

-- No run is classified as timed out, not even one that the alarm killed, if the process itself uses
-- less than two seconds of CPU time while it waits.
pub runner-not_timed_out :
    (host : Host) (target input out err : FilePath) (w w' : World) (code : RunnerErrorCode)
    → host.wait_ticks w.forks < 2 * 1_000_000
    → runner host target input out err w ≡ done code w'
    → code.type ≢ e_timeout_kill
unfolding runner get_error
runner-not_timed_out host target input out err w w' code idle =
    ground (arith, timed_out-idle w.ticks (host.wait_ticks w.forks) idle)

prints-nothing : (m : Bytes) → prints m [] ≡ false
unfolding prints
prints-nothing m = refl

module _ (host : Host) (target input : FilePath) (msg : Bytes) (w : World)
    (fits : length input < 240) (creates : host.can_create (stderr_path input) ≡ true) where
  abbrev after_fork_failed : World
  after_fork_failed =
      let emptied = set_file (stderr_path input) (some []) w in
      set_file (stderr_path input) none
        (set_file (stdout_path input) none (record emptied { forks = w.forks + 1 }))

  -- A test whose `fork` fails answers that the error is absent, and removes its two outputs, for an
  -- input name shorter than 240 bytes and an output that can be created.
  test-fork_failed :
      host.fork_ok w.forks ≡ false
      → test_buffer_overflow host target input msg w ≡ done 0 after_fork_failed
  unfolding test_buffer_overflow into_array create_file runner get_error verdict look_for scan_file
  test-fork_failed failed = rw (
    lt→ltb _ 256 (length-stdout input fits),
    lt→ltb _ 256 (length-stderr input fits),
    creates,
    failed,
    put-same (stderr_path input) (some []) w.files,
    scan_file,
    prints-nothing,
  )
