-- ===== src/Examples/CommandLine.antt =====
-- `main` on the concrete machine.
use diy_ddmin.Base.{[], ◌∷◌, Bool, ◌≡◌, ◌⊎◌, refl, arith}
use diy_ddmin.Paths.{codes, bytes_eq}
use diy_ddmin.Machine.{Outcome, done, fault, null_pointer, put, into_array, byte_count_file}
use diy_ddmin.Copy.{copy, copy_blocks}
use diy_ddmin.Stdio.{
  contents, fopen_read, fopen_write, unchecked, fread, fflush, truncate, write_at,
}
use diy_ddmin.Runner.{kill_child, child, redirect, runner, get_error, timed_out}
use diy_ddmin.Oracle.{
  test_buffer_overflow_thread, create_file, verdict_thread, look_for, scan_file, dummy_path,
}
use diy_ddmin.Oracle.Search.{prints}
use diy_ddmin.Range.{read_and_write}
use diy_ddmin.Range.Increasing.{commit_window}
use diy_ddmin.Range.Queue.{push_queue, pop_queue, set_node, link}
use diy_ddmin.Range.Threads.{
  worker_move, coordinator_move, start_range, first_round, copy_origins, origin_path, start_size,
  run_job, first_out_file,
}
use diy_ddmin.Examples.Lab.{lab, program_path, input_path, message}
use diy_ddmin.Paths.{Bytes, FilePath}
use diy_ddmin.Oracle.Verdict.{reproduces}
use diy_ddmin.Range.Threads.{rename, replace_origins, restart, thread_path, fail_path}
use diy_ddmin.Examples.Lab.{lab-IsHealthy, behave}
use diy_ddmin.Examples.Schedule.{
  first_free, first_free-unused, empty_store, two_bytes, run, next, next_worker, next_coordinator,
  pick, from_move, whole_run,
}
use diy_ddmin.Examples.Finding.{input_path-Foreign, no_origins}
use diy_ddmin.Examples.Lab.{input_path-Fresh}
use diy_ddmin.Main.{choose, parse, Ends, reduced, range_ends}
use diy_ddmin.Main.Correct.{Prepared, Holds, main_result}
use diy_ddmin.Main.Ending.{main_has_end}

abbrev fails : Bytes → Bool
fails = reproduces behave message

two_bytes-Prepared : Prepared program_path input_path (codes "ax") two_bytes
unfolding put bytes_eq
two_bytes-Prepared = record {
  program = codes "elf";
  installed = refl;
  held = refl;
  small = omega arith;
  named = omega arith;
  fresh = input_path-Fresh 0;
  foreign = input_path-Foreign;
  no_origins = no_origins;
  first_file = refl;
  first_fail = refl;
}

abbrev printed : Outcome FilePath
printed = done whole_run.0.input_path whole_run.0.world

main_result_example : Holds fails (codes "ax") printed ⊎ (printed ≡ fault null_pointer)
unfolding restart rename replace_origins thread_path fail_path from_move start_range first_round
    copy_origins origin_path put bytes_eq copy copy_blocks contents start_size run next next_worker
    next_coordinator pick first_free worker_move coordinator_move push_queue pop_queue set_node link
    run_job fopen_read fopen_write unchecked fread fflush truncate write_at read_and_write
    commit_window first_out_file test_buffer_overflow_thread create_file verdict_thread look_for
    scan_file dummy_path prints kill_child child redirect runner get_error timed_out into_array
    byte_count_file choose parse
main_result_example =
    main_result (lab-IsHealthy program_path) message (first_free 9) (λ k. 0) (first_free-unused 9)
      30 input_path (codes "ax") two_bytes empty_store two_bytes-Prepared (omega arith)
      (omega arith) (codes "ddmin") (codes "range") []
      (done whole_run.0.input_path whole_run.0.world) (λ e. cc)
      (reduced refl (range_ends whole_run.1 refl))

main_has_end_example :
    (o : Outcome FilePath) × Ends lab
      (first_free 9)
      (λ k. 0)
      30
      (codes "ddmin" ∷ program_path ∷ input_path ∷ codes "range" ∷ message ∷ [])
      two_bytes
      empty_store
      o
    × (Holds fails (codes "ax") o ⊎ (o ≡ fault null_pointer))
unfolding choose bytes_eq
main_has_end_example =
    main_has_end (lab-IsHealthy program_path) message (first_free 9) (λ k. 0) (first_free-unused 9)
      30 input_path (codes "ax") two_bytes empty_store two_bytes-Prepared (omega arith)
      (omega arith) (codes "ddmin") (codes "range") [] (λ e. cc)
