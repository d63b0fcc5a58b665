-- ===== src/Examples/Failing.antt =====
-- Runs in which something is missing, fails or hangs.
use diy_ddmin.Base.{◌≢◌, refl, none, some, [], arith}
use diy_ddmin.Paths.{codes, bytes_eq}
use diy_ddmin.Machine.{Host, World, put}
use diy_ddmin.Stdio.{contents, write_at}
use diy_ddmin.Runner.{
  e_timeout_kill, no_error, get_error, runner, child, kill_child, redirect, timed_out,
}
use diy_ddmin.Oracle.Failures.{runner-not_timed_out}
use diy_ddmin.Examples.Lab.{lab, hangs, program_path, input_path, desk}

empty_desk : World
empty_desk = record { files = λ _. none; file_no = 0; fail_no = 0; forks = 0; ticks = 0 }

abbrev hanging_lab : Host
hanging_lab = record lab { program = λ _. some (λ files. hangs) }

-- The world after the run of a program that hangs: what `runner` gives, computed.
abbrev after_hang : World
after_hang =
    let w = desk (codes "a") in
    let w0 = record w { forks = 1 } in
    record (redirect hanging_lab (codes "err") (codes "oops\n")
      (redirect hanging_lab (codes "out") [] w0)) { ticks = 500 }

runner-not_timed_out_example : (get_error no_error 0).type ≢ e_timeout_kill
unfolding runner child kill_child redirect contents write_at put bytes_eq timed_out get_error
runner-not_timed_out_example =
    runner-not_timed_out hanging_lab program_path input_path (codes "out") (codes "err")
      (desk (codes "a")) after_hang (get_error no_error 0) (omega arith) refl
