-- ===== src/Examples/Reducing.antt =====
-- `ddmin` on the concrete machine.
use diy_ddmin.Base.{◌≡◌, refl, Option, none, some, arith}
use diy_ddmin.Paths.{Bytes, FilePath, codes, part_path, stdout_path, stderr_path, bytes_eq}
use diy_ddmin.Machine.{World, Outcome, done, put, into_array, byte_count_file}
use diy_ddmin.Oracle.Verdict.{reproduces}
use diy_ddmin.Ddmin.{
  ddmin, ddmin_loop, open_input, next_part, subset_loop, commit_subset, commit_complement,
  complement_loop, skip_part,
}
use diy_ddmin.Stdio.{
  fopen_read, fopen_write, unchecked, copy_bytes, fread, contents, fflush, truncate, write_at,
}
use diy_ddmin.Oracle.{test_buffer_overflow, create_file, verdict, look_for, scan_file}
use diy_ddmin.Runner.{child, kill_child, redirect, runner, get_error, timed_out}
use diy_ddmin.Oracle.Search.{prints}
use diy_ddmin.Ddmin.Spec.{reduce, first_part, part_size}
use diy_ddmin.Ddmin.Spec.Reduced.{IsReduced}
use diy_ddmin.Ddmin.Correct.{ddmin-reduces}
use diy_ddmin.Examples.Lab.{
  lab, lab-IsHealthy, behave, program_path, input_path, message, desk, input_path-Fresh,
}

ddmin-reduces_example :
    (p' : FilePath) × (w' : World) × (r : Bytes) × (ddmin lab program_path message 30 input_path
        (desk (codes "abxd"))
      ≡ done p' w')
    × (w'.files p' ≡ some r)
    × IsReduced (reproduces behave message) (codes "abxd") r
    × (w'.files input_path ≡ some (codes "abxd"))
unfolding put bytes_eq
ddmin-reduces_example =
    ddmin-reduces (lab-IsHealthy program_path) message input_path (codes "abxd") (codes "elf")
      (desk (codes "abxd")) refl refl (omega arith) 30 (omega arith) (input_path-Fresh 0)
      (omega arith) (omega arith)

reduce_test : reduce (reproduces behave message) 30 2 (codes "abxd") ≡ some (codes "x")
unfolding reduce first_part reproduces prints part_size
reduce_test = refl

-- The file that `ddmin` returns, by running the model of the code.
result : Outcome FilePath → Option Bytes
result (done p w) = w.files p
result _ = none

ddmin_test :
    result (ddmin lab program_path message 30 input_path (desk (codes "abxd"))) ≡ some (codes "x")
unfolding result ddmin put bytes_eq into_array ddmin_loop byte_count_file open_input fopen_read
    next_part part_path fopen_write unchecked subset_loop copy_bytes fread contents commit_subset
    fflush commit_complement complement_loop skip_part test_buffer_overflow create_file verdict
    look_for scan_file prints stdout_path stderr_path child kill_child redirect runner get_error
    timed_out truncate write_at
ddmin_test = refl
