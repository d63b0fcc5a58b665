-- ===== src/Examples/Finding.antt =====
-- What `range` finds on the concrete machine in one schedule of its threads.
use diy_ddmin.Base.{
  ◌<◌, ◌≤◌, ◌≢◌, ◌⊎◌, Bool, ℕ, ◌≡◌, refl, none, some, List, ◌∷◌, ◌++◌, arith, length,
}
use diy_ddmin.Paths.{codes, bytes_eq}
use diy_ddmin.Machine.{put, into_array, byte_count_file}
use diy_ddmin.Copy.{copy, copy_blocks}
use diy_ddmin.Stdio.{
  contents, fopen_read, fopen_write, unchecked, fread, fflush, truncate, write_at,
}
use diy_ddmin.Runner.{kill_child, child, redirect, runner, get_error, timed_out}
use diy_ddmin.Oracle.{
  test_buffer_overflow_thread, create_file, verdict_thread, look_for, scan_file, dummy_path,
}
use diy_ddmin.Oracle.Search.{prints}
use diy_ddmin.Range.{read_and_write}
use diy_ddmin.Range.Increasing.{commit_window}
use diy_ddmin.Range.Queue.{push_queue, pop_queue, set_node, link}
use diy_ddmin.Range.Threads.{
  Worker, waiting, freeing, blocked, System, worker_move, coordinator_move, start_range,
  first_round, copy_origins, origin_path, start_size, run_job, first_out_file,
}
use diy_ddmin.Examples.Lab.{lab, program_path, input_path, message}
use diy_ddmin.Paths.{Bytes}
use diy_ddmin.Oracle.Verdict.{reproduces}
use diy_ddmin.Range.Increasing.Minimal.{IsFound}
use diy_ddmin.Range.Threads.{thread_n, rename, replace_origins, restart, thread_path, fail_path}
use diy_ddmin.Examples.Lab.{lab-IsHealthy, behave}
use mathlib.Core.WellFounded.{Acc}
use diy_ddmin.Range.Threads.Names.{Foreign, mark-Foreign}
use diy_ddmin.Range.Threads.Safety.{range_left_waiting}
use diy_ddmin.Range.Threads.Termination.{range_terminates}
use diy_ddmin.Range.Threads.Contents.{Failing, Firm}
use diy_ddmin.Range.Threads.Contents.Origins.{each_thread}
use diy_ddmin.Range.Threads.Contents.Choosing.{NoMemory}
use diy_ddmin.Range.Threads.Contents.Completion.{Leads, Over, range_completes}
use diy_ddmin.Range.Threads.Contents.Correct.{range_result, range_goes_on, range_round}
use diy_ddmin.Examples.Schedule.{
  first_free, first_free-unused, empty_store, two_bytes, LabStep, run, next, next_worker,
  next_coordinator, pick, from_move, start, start-Reachable, round_run, whole_run,
}

pub input_path-Foreign : Foreign input_path
input_path-Foreign =
    mark-Foreign input_path (λ e. omega arith) (λ e. omega arith) (λ e. omega arith)
      (λ e. omega arith)

pub no_origins : (i : ℕ) → i < thread_n → two_bytes.files (origin_path i) ≡ none
unfolding origin_path put bytes_eq
no_origins = each_thread (λ i. two_bytes.files (origin_path i) ≡ none) refl refl refl refl

abbrev fails : Bytes → Bool
fails = reproduces behave message

range_result_example :
    (r : Bytes) × (whole_run.0.world.files whole_run.0.input_path ≡ some r)
    × IsFound fails (codes "ax") r
    × ((length r ≤ 1) ⊎ Firm fails r 1)
    × ((i : ℕ) → i < thread_n → whole_run.0.world.files (origin_path i) ≡ none)
unfolding restart rename replace_origins thread_path fail_path from_move start_range first_round
    copy_origins origin_path put bytes_eq copy copy_blocks contents start_size run next next_worker
    next_coordinator pick first_free worker_move coordinator_move push_queue pop_queue set_node link
    run_job fopen_read fopen_write unchecked fread fflush truncate write_at read_and_write
    commit_window first_out_file test_buffer_overflow_thread create_file verdict_thread look_for
    scan_file dummy_path prints kill_child child redirect runner get_error timed_out into_array
    byte_count_file
range_result_example =
    range_result (lab-IsHealthy program_path) message (first_free 9) (λ k. 0) (first_free-unused 9)
      input_path two_bytes empty_store (codes "ax") refl (omega arith) input_path-Foreign no_origins
      whole_run.0 whole_run.1 refl

range_round_example :
    (text : Bytes) × (round_run.0.world.files round_run.0.input_path ≡ some text)
    × (length text ≡ round_run.0.input_size)
    × ((k : ℕ) → k < round_run.0.fail_n → Failing fails text round_run.0 (round_run.0.fail_arr k))
    × ((round_run.0.fail_n ≢ 0) ⊎ Firm fails text round_run.0.rs)
unfolding restart rename replace_origins thread_path fail_path from_move start_range first_round
    copy_origins origin_path put bytes_eq copy copy_blocks contents start_size run next next_worker
    next_coordinator pick first_free worker_move coordinator_move push_queue pop_queue set_node link
    run_job fopen_read fopen_write unchecked fread fflush truncate write_at read_and_write
    commit_window first_out_file test_buffer_overflow_thread create_file verdict_thread look_for
    scan_file dummy_path prints kill_child child redirect runner get_error timed_out into_array
    byte_count_file
range_round_example =
    range_round (lab-IsHealthy program_path) message (first_free 9) (λ k. 0) (first_free-unused 9)
      input_path two_bytes empty_store (codes "ax") refl (omega arith) input_path-Foreign no_origins
      round_run.0 round_run.1 refl

range_goes_on_example :
    ((t : System) × LabStep round_run.0 t)
    ⊎ NoMemory (first_free 9) round_run.0.coordinator round_run.0
unfolding restart rename replace_origins thread_path fail_path from_move start_range first_round
    copy_origins origin_path put bytes_eq copy copy_blocks contents start_size run next next_worker
    next_coordinator pick first_free worker_move coordinator_move push_queue pop_queue set_node link
    run_job fopen_read fopen_write unchecked fread fflush truncate write_at read_and_write
    commit_window first_out_file test_buffer_overflow_thread create_file verdict_thread look_for
    scan_file dummy_path prints kill_child child redirect runner get_error timed_out into_array
    byte_count_file
range_goes_on_example =
    range_goes_on (lab-IsHealthy program_path) message (first_free 9) (λ k. 0) (first_free-unused 9)
      input_path two_bytes empty_store (codes "ax") refl (omega arith) input_path-Foreign no_origins
      round_run.0 round_run.1 (λ e. cc)

range_terminates_example : Acc (λ t u. LabStep u t) start
unfolding restart rename replace_origins thread_path fail_path from_move start_range first_round
    copy_origins origin_path put bytes_eq copy copy_blocks contents start_size run next next_worker
    next_coordinator pick first_free worker_move coordinator_move push_queue pop_queue set_node link
    run_job fopen_read fopen_write unchecked fread fflush truncate write_at read_and_write
    commit_window first_out_file test_buffer_overflow_thread create_file verdict_thread look_for
    scan_file dummy_path prints kill_child child redirect runner get_error timed_out into_array
    byte_count_file
range_terminates_example =
    range_terminates lab program_path message (first_free 9) (λ k. 0) (first_free-unused 9)
      input_path two_bytes empty_store (codes "ax") refl (omega arith) start start-Reachable

range_completes_example :
    (t : System) × Leads lab program_path message (first_free 9) (λ k. 0) start t
    × Over (first_free 9) t
unfolding restart rename replace_origins thread_path fail_path from_move start_range first_round
    copy_origins origin_path put bytes_eq copy copy_blocks contents start_size run next next_worker
    next_coordinator pick first_free worker_move coordinator_move push_queue pop_queue set_node link
    run_job fopen_read fopen_write unchecked fread fflush truncate write_at read_and_write
    commit_window first_out_file test_buffer_overflow_thread create_file verdict_thread look_for
    scan_file dummy_path prints kill_child child redirect runner get_error timed_out into_array
    byte_count_file
range_completes_example =
    range_completes (lab-IsHealthy program_path) message (first_free 9) (λ k. 0)
      (first_free-unused 9) input_path two_bytes empty_store (codes "ax") refl (omega arith)
      input_path-Foreign no_origins start start-Reachable

range_left_waiting_example :
    (length whole_run.0.workers ≡ thread_n)
    × ((before : List Worker) (p : Worker) (after : List Worker)
        → whole_run.0.workers ≡ before ++ (p ∷ after)
        → (p ≡ waiting) ⊎ ((a : ℕ) × (p ≡ freeing a)))
    × (whole_run.0.store.queue.count ≡ 0)
    × ((i : ℕ) → worker_move lab program_path message i waiting whole_run.0 ≡ blocked)
unfolding restart rename replace_origins thread_path fail_path from_move start_range first_round
    copy_origins origin_path put bytes_eq copy copy_blocks contents start_size run next next_worker
    next_coordinator pick first_free worker_move coordinator_move push_queue pop_queue set_node link
    run_job fopen_read fopen_write unchecked fread fflush truncate write_at read_and_write
    commit_window first_out_file test_buffer_overflow_thread create_file verdict_thread look_for
    scan_file dummy_path prints kill_child child redirect runner get_error timed_out into_array
    byte_count_file
range_left_waiting_example =
    range_left_waiting lab program_path message (first_free 9) (λ k. 0) (first_free-unused 9)
      input_path two_bytes empty_store (codes "ax") refl (omega arith) whole_run.0 whole_run.1 refl
